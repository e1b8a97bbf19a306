-- ===== src/Base/Text/Affix.antt =====
-- Prefixes and suffixes: strings.HasPrefix, HasSuffix, TrimPrefix and TrimSuffix.
use Prim.Native.Nat.{◌-◌}
use mathlib.Core.Path.{◌≡◌, ap, sym, ◌∙◌}
use mathlib.Core.Bool.{Bool, true, ◌&&◌}
use mathlib.Core.List.{◌++◌}
use native.Mathlib.Omega.{arith}
use podman_swarm.Base.Text.{Text, ◌==◌, eq_iff, eq_refl}
use podman_swarm.Base.Tests.{leb, if◌then◌else◌}
use podman_swarm.Base.Lists.{
  length, take, drop, length-append, take-append-drop, take-append_left, drop-append_left,
}

unfoldable pub has_prefix : Text → Text → Bool
has_prefix s p = leb (length p) (length s) && take (length p) s == p

unfoldable pub has_suffix : Text → Text → Bool
has_suffix s x = leb (length x) (length s) && drop (length s - length x) s == x

unfoldable pub trim_prefix : Text → Text → Text
unfolding has_prefix
trim_prefix s p = if has_prefix s p then drop (length p) s else s

unfoldable pub trim_suffix : Text → Text → Text
unfolding has_suffix
trim_suffix s x = if has_suffix s x then take (length s - length x) s else s

pub has_prefix-append : (p r : Text) → has_prefix (p ++ r) p ≡ true
unfolding has_prefix
has_prefix-append p r = rw take-append_left (ground (arith, length-append p r, eq_refl p))

pub trim_prefix-append : (p r : Text) → trim_prefix (p ++ r) p ≡ r
unfolding trim_prefix
trim_prefix-append p r =
    rw take-append_left (ground (arith, length-append p r, eq_refl p, drop-append_left p r))

drop_before : (s x : Text) → drop (length (s ++ x) - length x) (s ++ x) ≡ x
drop_before s x =
    let e : length (s ++ x) - length x ≡ length s = omega (arith, length-append s x) in
    rw e (drop-append_left s x)

take_before : (s x : Text) → take (length (s ++ x) - length x) (s ++ x) ≡ s
take_before s x =
    let e : length (s ++ x) - length x ≡ length s = omega (arith, length-append s x) in
    rw e (take-append_left s x)

pub has_suffix-append : (s x : Text) → has_suffix (s ++ x) x ≡ true
unfolding has_suffix
has_suffix-append s x = rw drop_before (ground (arith, length-append s x, eq_refl x))

pub trim_suffix-append : (s x : Text) → trim_suffix (s ++ x) x ≡ s
unfolding trim_suffix
trim_suffix-append s x =
    rw drop_before (ground (arith, length-append s x, eq_refl x, take_before s x))

-- What the test says: the text ends in the suffix.
pub append_of_has_suffix : (s x : Text) → has_suffix s x ≡ true → (r : Text) × (s ≡ r ++ x)
unfolding has_suffix
append_of_has_suffix s x h =
    let n = length s - length x in
    let e : drop n s ≡ x = (eq_iff (drop n s) x).0 (ground arith) in
    (take n s, sym (take-append-drop n s) ∙ ap (λ r. take n s ++ r) e)
