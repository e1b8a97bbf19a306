-- ===== src/Base/Map.antt =====
-- Go maps with string keys, as association lists. The order of the list stands for the order in
-- which `range` meets the entries, which Go leaves open: a statement about every list is a
-- statement about every order.
pub mod Distinct
use mathlib.Core.Path.{◌≡◌, refl}
use mathlib.Core.Bool.{Bool, true, false}
use mathlib.Core.Option.{Option, none, some}
use mathlib.Core.List.{List, [], ◌∷◌, map}
use native.Mathlib.Omega.{arith}
use podman_swarm.Base.Tests.{if◌then◌else◌}
use podman_swarm.Base.Text.{Text, ◌==◌, eq_iff, eq_refl}

abbrev pub Map : Type 0 → Type 0
Map V = List (Text × V)

module _ {V : Type 0} where
  -- value, ok := table[key]
  unfoldable pub lookup : (key : Text) (table : Map V) → Option V
  lookup key [] = none
  lookup key ((name, value) ∷ rest) = if name == key then some value else lookup key rest

  -- delete(table, key)
  unfoldable pub delete : (key : Text) (table : Map V) → Map V
  delete key [] = []
  delete key ((name, value) ∷ rest) =
      let others = delete key rest in if name == key then others else (name, value) ∷ others

  -- table[key] = value
  unfoldable pub insert : (key : Text) (value : V) (table : Map V) → Map V
  insert key value [] = (key, value) ∷ []
  insert key value ((name, old) ∷ rest) =
      if name == key then (key, value) ∷ rest else (name, old) ∷ insert key value rest

  -- for _, v := range m { values = append(values, v) }
  abbrev pub values : Map V → List V
  values = map λ e. e.1

  pub lookup-insert :
      (key other : Text) (value : V) (table : Map V)
      → lookup other (insert key value table)
        ≡ (if key == other then some value else lookup other table)
  unfolding lookup insert
  lookup-insert key other value [] = refl
  lookup-insert key other value ((name, old) ∷ rest) = ground (
    arith,
    lookup-insert key other value rest,
    eq_iff name other,
    eq_iff name key,
    eq_iff key other,
  )

  pub lookup-delete :
      (key other : Text) (table : Map V)
      → lookup other (delete key table) ≡ (if key == other then none else lookup other table)
  unfolding lookup delete
  lookup-delete key other [] = ground arith
  lookup-delete key other ((name, old) ∷ rest) =
      ground
        (arith, lookup-delete key other rest, eq_iff name other, eq_iff name key, eq_iff key other)

  pub lookup-insert_self : (k : Text) (v : V) (m : Map V) → lookup k (insert k v m) ≡ some v
  lookup-insert_self k v m = ground (arith, lookup-insert k k v m, eq_refl k)

  pub lookup-delete_self : (k : Text) (m : Map V) → lookup k (delete k m) ≡ none
  lookup-delete_self k m = ground (arith, lookup-delete k k m, eq_refl k)

pub lookup-nil : (V : Type 0) (k : Text) → lookup {V = V} k [] ≡ none
unfolding lookup
lookup-nil V k = refl
