-- ===== src/Discovery/Freshness.antt =====
-- What the lookups return, and how registrations age.
use podman_swarm.Base.{
  ℕ, ◌≡◌, ◌↔◌, refl, ◌≤◌, ◌+◌, Option, none, some, List, [], ◌∷◌, arith, map, true, Result, ok, err,
  All, In, In_of_All, keep, In-keep, keep-In, subst, ◌⊎◌, inl, inr,
}
use podman_swarm.Base.Text.{Text}
use podman_swarm.Base.Map.{Map, lookup, values}
use podman_swarm.Base.Map.Distinct.{In-lookup}
use podman_swarm.Discovery.{
  ServiceEndpoint, Registry, Error, service_not_found, no_healthy_instances, service_key, is_fresh,
  stale_after, get_service_endpoints, get_service_addresses, endpoint_address, health_check,
  check_endpoint, list_services,
}

-- Exactly the fresh endpoints of the service are returned: those marked healthy and seen less than
-- thirty seconds ago.
get_service_endpoints_lem :
    (now : ℕ) (name namespace : Text) (reg : Registry) (es : List ServiceEndpoint)
    → get_service_endpoints now name namespace reg ≡ ok es
    → (m : Map ServiceEndpoint) × (lookup (service_key name namespace) reg ≡ some m)
      × ((e : ServiceEndpoint) → In e es ↔ (In e (values m) × (is_fresh now e ≡ true)))
unfolding get_service_endpoints
get_service_endpoints_lem now name namespace reg es h =
    by_entry (lookup (service_key name namespace) reg) refl h
  where
    by_entry :
        (o : Option (Map ServiceEndpoint))
        → lookup (service_key name namespace) reg ≡ o
        → elim o as (λ _. Result Error (List ServiceEndpoint)) [
          | none ↦ err service_not_found
          | some m ↦ ok (keep (is_fresh now) (values m))
        ]
          ≡ ok es
        → (m : Map ServiceEndpoint) × (lookup (service_key name namespace) reg ≡ some m)
          × ((e : ServiceEndpoint) → In e es ↔ (In e (values m) × (is_fresh now e ≡ true)))
    by_entry none at k = cc
    by_entry (some m) at k = (
      m,
      at,
      λ e.
          subst (λ l. In e l ↔ (In e (values m) × (is_fresh now e ≡ true))) (ground arith)
            (In-keep (is_fresh now) (values m) e, λ p. keep-In (is_fresh now) (values m) e p.0 p.1),
    )

-- The addresses are those of the endpoints that the other lookup returns, and where there is none
-- the lookup of addresses fails.
addresses-endpoints :
    (now : ℕ) (name namespace : Text) (reg : Registry)
    → ((e : ServiceEndpoint) (es : List ServiceEndpoint)
        → get_service_endpoints now name namespace reg ≡ ok (e ∷ es)
        → get_service_addresses now name namespace reg ≡ ok (map endpoint_address (e ∷ es)))
      × (get_service_endpoints now name namespace reg ≡ ok []
          → get_service_addresses now name namespace reg ≡ err no_healthy_instances)
      × (get_service_endpoints now name namespace reg ≡ err service_not_found
          → get_service_addresses now name namespace reg ≡ err service_not_found)
unfolding get_service_endpoints get_service_addresses
addresses-endpoints now name namespace reg =
    (λ e es h. ground arith, λ h. ground arith, λ h. ground arith)

-- No endpoint was seen after the time.
abbrev pub SeenBy : ℕ → Registry → Type 0
SeenBy t = All (λ (s : Text × Map ServiceEndpoint).
    All (λ (e : Text × ServiceEndpoint). e.1.last_seen ≤ t) s.1)

check-SeenBy :
    (t now : ℕ) (m : Map ServiceEndpoint)
    → All (λ (e : Text × ServiceEndpoint). e.1.last_seen ≤ t) m
    → All
        (λ (e : Text × ServiceEndpoint). e.1.last_seen ≤ t)
        (map (λ e. (e.0, check_endpoint now e.1)) m)
unfolding check_endpoint
check-SeenBy t now [] h = tt
check-SeenBy t now ((i, e) ∷ m) h = (ground arith, check-SeenBy t now m h.1)

health_check-SeenBy : (t now : ℕ) (reg : Registry) → SeenBy t reg → SeenBy t (health_check now reg)
unfolding health_check
health_check-SeenBy t now [] h = tt
health_check-SeenBy t now ((k, m) ∷ reg) h =
    (check-SeenBy t now m h.0, health_check-SeenBy t now reg h.1)

-- The rounds of the health check, at the times of its ticker.
pub health_checks : List ℕ → Registry → Registry
health_checks [] reg = reg
health_checks (now ∷ ticks) reg = health_checks ticks (health_check now reg)

health_checks-SeenBy :
    (t : ℕ) (ticks : List ℕ) (reg : Registry) → SeenBy t reg → SeenBy t (health_checks ticks reg)
unfolding health_checks
health_checks-SeenBy t [] reg h = h
health_checks-SeenBy t (now ∷ ticks) reg h =
    health_checks-SeenBy t ticks (health_check now reg) (health_check-SeenBy t now reg h)

none_fresh :
    (t now : ℕ) (m : Map ServiceEndpoint)
    → t + stale_after ≤ now
    → All (λ (e : Text × ServiceEndpoint). e.1.last_seen ≤ t) m
    → keep (is_fresh now) (values m) ≡ []
none_fresh t now [] h k = refl
none_fresh t now ((i, e) ∷ m) h k = ground (arith, none_fresh t now m h k.1)

none_listed :
    (t now : ℕ) (reg : Registry) → t + stale_after ≤ now → SeenBy t reg → list_services now reg ≡ []
unfolding list_services
none_listed t now [] h k = refl
none_listed t now ((j, m) ∷ reg) h k =
    ground (arith, none_listed t now reg h k.1, none_fresh t now m h k.0)

-- Thirty seconds after the last registration no service has an endpoint any more, whatever health
-- checks have run: nothing but a registration sets the time at which an endpoint was seen.
pub all_expire :
    (t now : ℕ) (ticks : List ℕ) (reg : Registry)
    → SeenBy t reg
    → t + stale_after ≤ now
    → let reg' = health_checks ticks reg in
      ((name namespace : Text)
        → (get_service_endpoints now name namespace reg' ≡ err service_not_found)
          ⊎ (get_service_endpoints now name namespace reg' ≡ ok []))
      × (list_services now reg' ≡ [])
unfolding get_service_endpoints
all_expire t now ticks reg seen h = (
  λ name namespace.
      by_entry (service_key name namespace)
        (lookup (service_key name namespace) (health_checks ticks reg)) refl,
  none_listed t now (health_checks ticks reg) h aged,
)
  where
    aged : SeenBy t (health_checks ticks reg)
    aged = health_checks-SeenBy t ticks reg seen

    by_entry :
        (k : Text) (o : Option (Map ServiceEndpoint))
        → lookup k (health_checks ticks reg) ≡ o
        → let r = elim o as (λ _. Result Error (List ServiceEndpoint)) [
          | none ↦ err service_not_found
          | some m ↦ ok (keep (is_fresh now) (values m))
        ] in
          (r ≡ err service_not_found) ⊎ (r ≡ ok [])
    by_entry k none at = inl refl
    by_entry k (some m) at = inr (
        cc (
          none_fresh t now m h (
            In_of_All
              (λ (s : Text × Map ServiceEndpoint).
                All (λ (e : Text × ServiceEndpoint). e.1.last_seen ≤ t) s.1)
              (health_checks ticks reg) (k, m) aged (In-lookup k m (health_checks ticks reg) at))))
