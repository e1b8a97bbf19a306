-- ===== src/Base/Text/Space.antt =====
-- strings.TrimSpace, with the white space of ASCII.
use Prim.Native.Nat.{ℕ}
use mathlib.Core.Bool.{Bool, ◌||◌}
use mathlib.Core.List.{[], ◌∷◌}
use podman_swarm.Base.Text.{Text}
use podman_swarm.Base.Tests.{◌==ℕ◌, if◌then◌else◌}

unfoldable pub is_space : ℕ → Bool
is_space c = c ==ℕ 32 || (c ==ℕ 9 || (c ==ℕ 10 || (c ==ℕ 11 || (c ==ℕ 12 || c ==ℕ 13))))

trim_left : Text → Text
unfolding is_space
trim_left [] = []
trim_left (c ∷ s) = let rest = trim_left s in if is_space c then rest else c ∷ s

drop_blank : Text → Text
unfolding is_space
drop_blank [] = []
drop_blank (c ∷ []) = if is_space c then [] else c ∷ []
drop_blank (c ∷ d ∷ s) = elim (drop_blank (d ∷ s)) [
  | [] ↦ if is_space c then [] else c ∷ []
  | x ∷ rest ↦ c ∷ x ∷ rest
]

-- strings.TrimSpace
unfoldable pub trim_space : Text → Text
unfolding trim_left drop_blank
trim_space s = drop_blank (trim_left s)
