-- ===== src/Base/Map/Distinct.antt =====
-- Maps whose keys are distinct, as those of a Go map are, and what a loop over one computes.
use mathlib.Core.Path.{◌≡◌, refl}
use mathlib.Core.Option.{Option, none, some}
use mathlib.Core.List.{[], ◌∷◌}
use native.Mathlib.Omega.{arith}
use podman_swarm.Base.Lists.{In}
use podman_swarm.Base.Text.{Text, eq_iff}
use podman_swarm.Base.Map.{Map, lookup, insert, delete, lookup-insert, lookup-delete}

module _ {V : Type 0} where
  abbrev pub IsDistinct : Map V → Type 0
  IsDistinct [] = Unit {0}
  IsDistinct ((k, v) ∷ m) = (lookup k m ≡ none) × IsDistinct m

  pub insert-IsDistinct : (k : Text) (v : V) (m : Map V) → IsDistinct m → IsDistinct (insert k v m)
  unfolding insert lookup
  insert-IsDistinct k v [] h = ground arith
  insert-IsDistinct k v ((j, w) ∷ m) h =
      ground (arith, insert-IsDistinct k v m h.1, eq_iff j k, eq_iff k j, lookup-insert k j v m)

  pub delete-IsDistinct : (k : Text) (m : Map V) → IsDistinct m → IsDistinct (delete k m)
  unfolding delete
  delete-IsDistinct k [] h = tt
  delete-IsDistinct k ((j, w) ∷ m) h =
      ground (arith, delete-IsDistinct k m h.1, lookup-delete k j m)

  -- for k, v := range from { into[k] = v }
  unfoldable pub insert_all : Map V → Map V → Map V
  insert_all [] into = into
  insert_all ((k, v) ∷ from) into = insert_all from (insert k v into)

  abbrev pub or_else : Option V → Option V → Option V
  or_else none o = o
  or_else (some v) o = some v

  -- The loop gives each key of `from` its value there, and leaves the others alone.
  pub lookup-insert_all :
      (j : Text) (from into : Map V)
      → IsDistinct from
      → lookup j (insert_all from into) ≡ or_else (lookup j from) (lookup j into)
  unfolding insert_all lookup
  lookup-insert_all j [] into h = refl
  lookup-insert_all j ((k, v) ∷ from) into h =
      ground (
        arith,
        lookup-insert_all j from (insert k v into) h.1,
        lookup-insert k j v into,
        eq_iff k j,
      )

  pub insert_all-IsDistinct :
      (from into : Map V) → IsDistinct into → IsDistinct (insert_all from into)
  unfolding insert_all
  insert_all-IsDistinct [] into h = h
  insert_all-IsDistinct ((k, v) ∷ from) into h =
      insert_all-IsDistinct from (insert k v into) (insert-IsDistinct k v into h)

  pub In-lookup : (k : Text) (v : V) (m : Map V) → lookup k m ≡ some v → In (k, v) m
  unfolding lookup
  In-lookup k v [] h = cc
  In-lookup k v ((j, w) ∷ m) h = ground (arith, In-lookup k v m, eq_iff j k)

  lookup_of_In : (k : Text) (v : V) (m : Map V) → IsDistinct m → In (k, v) m → lookup k m ≡ some v
  unfolding lookup
  lookup_of_In k v [] h i = elim i [ ]
  lookup_of_In k v ((j, w) ∷ m) h i = ground (arith, lookup_of_In k v m h.1, eq_iff j k)
