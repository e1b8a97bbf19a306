-- ===== src/Cluster/Leader.antt =====
-- The choice of a leader.
use podman_swarm.Base.{
  ◌≡◌, refl, inl, inr, true, false, List, [], ◌∷◌, any, In, any_of_In, Bool-cases, arith,
}
use podman_swarm.Base.Text.{Text}
use podman_swarm.Base.Text.Order.{less, less_irrefl, less_trans, less_total}
use podman_swarm.Cluster.{is_leader}

not_below :
    (members : List Text) (a b : Text)
    → is_leader members a ≡ true
    → In b members
    → less b a ≡ false
unfolding is_leader
not_below members a b h m = elim (Bool-cases (less b a)) [
  | inl e ↦ let found = any_of_In (λ m. less m a) members b m e in absurd (ground arith)
  | inr e ↦ e
]

none_below :
    (m a : Text) (members : List Text)
    → less m a ≡ true
    → any (λ x. less x a) members ≡ false
    → any (λ x. less x m) members ≡ false
none_below m a [] h k = refl
none_below m a (x ∷ members) h k = ground (arith, less_trans x m a, none_below m a members h)

-- Some member is above none of the others.
least :
    (m : Text) (members : List Text)
    → (a : Text) × In a (m ∷ members) × (any (λ x. less x a) (m ∷ members) ≡ false)
least m [] = (m, inl refl, ground (arith, less_irrefl m))
least m (n ∷ members) =
    let (a, i, k) = least n members in
    elim (Bool-cases (less m a)) [
      | inl e ↦ (m, inl refl, ground (arith, less_irrefl m, none_below m a (n ∷ members) e k))
      | inr e ↦ (a, inr i, ground arith)
    ]

-- As long as the nodes see the same members, exactly one of them takes itself for the leader: there
-- is one, and two that do are one.
pub one_leader :
    (m : Text) (members : List Text)
    → ((a : Text) × In a (m ∷ members) × (is_leader (m ∷ members) a ≡ true))
      × ((a b : Text)
          → In a (m ∷ members)
          → In b (m ∷ members)
          → is_leader (m ∷ members) a ≡ true
          → is_leader (m ∷ members) b ≡ true
          → a ≡ b)
unfolding is_leader
one_leader m members = (
  let (a, i, k) = least m members in (a, i, ground arith),
  λ a b i j h k. less_total a b (not_below (m ∷ members) b a k i) (not_below (m ∷ members) a b h j),
)
