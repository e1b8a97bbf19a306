-- ===== src/Base/Text/Decimal.antt =====
-- The verb %d of fmt: numbers in decimal. The fuel is one more than the number, and each round
-- divides it by ten.
use Prim.Native.Nat.{ℕ, zero, suc, ◌+◌, ◌-◌, ◌*◌, ◌/◌, ◌%◌, ◌<◌}
use mathlib.Core.Path.{◌≡◌, sym, ap, ◌∙◌}
use mathlib.Core.List.{[], ◌∷◌}
use native.Mathlib.Omega.{arith}
use podman_swarm.Base.Text.{Text}
use podman_swarm.Base.Tests.{ltb, if◌then◌else◌}
use podman_swarm.Base.Int.{ℤ, pos, negsuc}

digits : ℕ → ℕ → Text → Text
digits zero n acc = acc
digits (suc f) n acc =
    let rest = digits f (n / 10) ((48 + n % 10) ∷ acc) in if ltb n 10 then (48 + n) ∷ acc else rest

unfoldable pub decimal : ℕ → Text
unfolding digits
decimal n = digits (suc n) n []

-- Reads decimal digits behind a number that is already read.
read : ℕ → Text → ℕ
read v [] = v
read v (c ∷ s) = read (v * 10 + (c - 48)) s

read-digits : (f n : ℕ) (acc : Text) → n < f → read 0 (digits f n acc) ≡ read n acc
unfolding digits read
read-digits zero n acc h = elim h [ ]
read-digits (suc f) n acc h = ground (
  arith,
  read-digits f (n / 10) ((48 + n % 10) ∷ acc),
  ap (λ v. read v acc) {x = 0 * 10 + (48 + n - 48)} {y = n} (omega arith),
  ap (λ v. read v acc) {x = n / 10 * 10 + (48 + n % 10 - 48)} {y = n} (omega arith),
)

-- Two numbers with one text are one number.
decimal_inj : (m n : ℕ) → decimal m ≡ decimal n → m ≡ n
unfolding decimal read
decimal_inj m n e =
    sym (read-digits (suc m) m [] (omega arith))
    ∙ ap (read 0) e
    ∙ read-digits (suc n) n [] (omega arith)

unfoldable pub format_int : ℤ → Text
format_int (pos n) = decimal n
format_int (negsuc n) = b'-' ∷ decimal (n + 1)
