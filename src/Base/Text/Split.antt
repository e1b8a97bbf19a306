-- ===== src/Base/Text/Split.antt =====
-- strings.Split and strings.Join at a one-byte separator.
use Prim.Native.Nat.{ℕ}
use mathlib.Core.Path.{◌≡◌, refl}
use mathlib.Core.Logic.{◌≢◌}
use mathlib.Core.List.{List, [], ◌∷◌, ◌++◌}
use native.Mathlib.Omega.{arith}
use podman_swarm.Base.Text.{Text}
use podman_swarm.Base.Tests.{◌==ℕ◌, if◌then◌else◌}
use podman_swarm.Base.Lists.{All}

-- A byte in front of the first part.
abbrev onto_first : ℕ → List Text → List Text
onto_first c [] = (c ∷ []) ∷ []
onto_first c (p ∷ ps) = (c ∷ p) ∷ ps

unfoldable pub split : ℕ → Text → List Text
split sep [] = [] ∷ []
split sep (c ∷ s) = let rest = split sep s in if c ==ℕ sep then [] ∷ rest else onto_first c rest

unfoldable pub join : ℕ → List Text → Text
join sep [] = []
join sep (p ∷ []) = p
join sep (p ∷ q ∷ ps) = p ++ (sep ∷ join sep (q ∷ ps))

-- No byte of the text is the separator.
abbrev pub Free : ℕ → Text → Type 0
Free sep = All (λ c. c ≢ sep)

pub split-ne-nil : (sep : ℕ) (s : Text) → split sep s ≢ []
unfolding split
split-ne-nil sep [] = cc
split-ne-nil sep (c ∷ s) = ground (arith, split-ne-nil sep s)

join-cons :
    (sep : ℕ) (p : Text) (ps : List Text) → ps ≢ [] → join sep (p ∷ ps) ≡ p ++ (sep ∷ join sep ps)
unfolding join
join-cons sep p [] h = absurd (h refl)
join-cons sep p (q ∷ ps) h = refl

join-onto_first :
    (sep c : ℕ) (ps : List Text) → ps ≢ [] → join sep (onto_first c ps) ≡ c ∷ join sep ps
unfolding join
join-onto_first sep c [] h = absurd (h refl)
join-onto_first sep c (p ∷ []) h = refl
join-onto_first sep c (p ∷ q ∷ ps) h = refl

-- Joining the parts gives the text back.
pub join-split : (sep : ℕ) (s : Text) → join sep (split sep s) ≡ s
unfolding split
join-split sep [] = unfold join in refl
join-split sep (c ∷ s) = ground (
  arith,
  split-ne-nil sep s,
  join-split sep s,
  join-cons sep [] (split sep s),
  join-onto_first sep c (split sep s),
)

-- The parts hold no separator.
split-Free : (sep : ℕ) (s : Text) → All (Free sep) (split sep s)
unfolding split
split-Free sep [] = (tt, tt)
split-Free sep (c ∷ s) = ground (arith, split-Free sep s, split-ne-nil sep s)

pub split-whole : (sep : ℕ) (p : Text) → Free sep p → split sep p ≡ p ∷ []
unfolding split
split-whole sep [] h = refl
split-whole sep (c ∷ p) h = ground (arith, split-whole sep p h.1)

-- The first separator ends the first part.
pub split-append :
    (sep : ℕ) (p s : Text) → Free sep p → split sep (p ++ (sep ∷ s)) ≡ p ∷ split sep s
unfolding split
split-append sep [] s h = ground arith
split-append sep (c ∷ p) s h = ground (arith, split-append sep p s h.1)

-- A separator that neither front part holds splits a text in one way only.
pub append_sep_inj :
    (sep : ℕ) (a b s t : Text)
    → Free sep a
    → Free sep b
    → a ++ (sep ∷ s) ≡ b ++ (sep ∷ t)
    → (a ≡ b) × (s ≡ t)
append_sep_inj sep [] [] s t ha hb e = (refl, cc)
append_sep_inj sep [] (d ∷ b) s t ha hb e = absurd (hb.0 (cc))
append_sep_inj sep (c ∷ a) [] s t ha hb e = absurd (ha.0 (cc))
append_sep_inj sep (c ∷ a) (d ∷ b) s t ha hb e =
    ground (arith, append_sep_inj sep a b s t ha.1 hb.1)

onto_first-append :
    (c : ℕ) (ps qs : List Text) → ps ≢ [] → onto_first c (ps ++ qs) ≡ onto_first c ps ++ qs
onto_first-append c [] qs h = absurd (h refl)
onto_first-append c (p ∷ ps) qs h = refl

-- A separator splits a text into the parts before it and those behind it.
pub split-append_sep :
    (sep : ℕ) (s t : Text) → split sep (s ++ (sep ∷ t)) ≡ split sep s ++ split sep t
unfolding split
split-append_sep sep [] t = ground arith
split-append_sep sep (c ∷ s) t = ground (
  arith,
  split-append_sep sep s t,
  onto_first-append c (split sep s) (split sep t) (split-ne-nil sep s),
)
