-- ===== src/Discovery/Triples.antt =====
-- The registry as a table from triples of namespace, service name and pod.
use mathlib.Core.List.{append_cancel_left, tail-eq_of_cons-eq}
use podman_swarm.Base.Text.Split.{Free}
use podman_swarm.Base.{
  ◌≡◌, ◌⊎◌, inl, inr, refl, Option, none, some, [], ◌∷◌, arith, ◌&&◌, if◌then◌else◌,
}
use podman_swarm.Base.Text.{Text, str, ◌==◌, eq_iff}
use podman_swarm.Base.Map.{Map, lookup, insert, delete, lookup-insert, lookup-delete, lookup-nil}
use podman_swarm.Types.{Call, returns, panics, Pod, Service}
use podman_swarm.Discovery.{
  ServiceEndpoint, Registry, service_key, endpoint_id, endpoints_at, put_endpoint, remove_endpoint,
  shrink, remove_in, find_at, Update, after_broadcast, deregister_found, deregister_service,
}

pub find_at-put :
    (k i j l : Text) (e : ServiceEndpoint) (reg : Registry)
    → find_at j l (put_endpoint k i e reg) ≡ (if k == j && i == l then some e else find_at j l reg)
unfolding put_endpoint
find_at-put k i j l e reg = ground (
  arith,
  lookup-insert k j (insert i e (endpoints_at k reg)) reg,
  lookup-insert i l e (endpoints_at k reg),
  eq_iff k j,
  lookup-nil ServiceEndpoint l,
)

find_at-shrink :
    (k j l : Text) (m : Map ServiceEndpoint) (reg : Registry)
    → find_at j l (shrink k m reg) ≡ (if k == j then lookup l m else find_at j l reg)
find_at-shrink k j l [] reg = ground (arith, lookup-delete k j reg, lookup-nil ServiceEndpoint l)
find_at-shrink k j l (e ∷ m) reg = ground (arith, lookup-insert k j (e ∷ m) reg)

find_at-remove :
    (k i j l : Text) (reg : Registry)
    → find_at j l (remove_endpoint k i reg) ≡ (if k == j && i == l then none else find_at j l reg)
unfolding remove_endpoint
find_at-remove k i j l reg = by_entry (lookup k reg) refl
  where
    by_entry :
        (o : Option (Map ServiceEndpoint))
        → lookup k reg ≡ o
        → find_at j l (remove_in k i o reg) ≡ (if k == j && i == l then none else find_at j l reg)
    by_entry none e = ground (arith, eq_iff k j, lookup-nil ServiceEndpoint l)
    by_entry (some m) e =
        ground (arith, eq_iff k j, find_at-shrink k j l (delete i m) reg, lookup-delete i l m)

-- The call returned and the entry is cleared, or there was one, whose broadcast panicked, and the
-- registry is as before.
abbrev pub Deregisters : Update → Text → Text → Registry → Registry × Call → Type 0
Deregisters update key id reg r =
    ((r.1 ≡ returns)
      × ((j l : Text) → find_at j l r.0 ≡ (if key == j && id == l then none else find_at j l reg)))
    ⊎ ((r.1 ≡ panics)
        × (r.0 ≡ reg)
        × ((e : ServiceEndpoint) × (find_at key id reg ≡ some e)
            × (update e (str "deregister") ≡ panics)))

pub deregister_service-Deregisters :
    (update : Update) (service : Service) (pod : Pod) (reg : Registry)
    → Deregisters update
        (service_key service.name service.namespace)
        (endpoint_id service.namespace service.name pod.id)
        reg
        (deregister_service update service pod reg)
unfolding deregister_service
deregister_service-Deregisters update service pod reg = by_entry (find_at key id reg) refl
  where
    key : Text
    key = service_key service.name service.namespace

    id : Text
    id = endpoint_id service.namespace service.name pod.id

    by_call :
        (e : ServiceEndpoint) (call : Call)
        → find_at key id reg ≡ some e
        → update e (str "deregister") ≡ call
        → Deregisters update key id reg (after_broadcast call key id reg)
    by_call e returns at called = inl (refl, λ j l. find_at-remove key id j l reg)
    by_call e panics at called = inr (refl, refl, (e, at, called))

    by_entry :
        (o : Option ServiceEndpoint)
        → find_at key id reg ≡ o
        → Deregisters update key id reg (deregister_found update key id o reg)
    by_entry none at = inl (refl, λ j l. ground (arith, eq_iff key j, eq_iff id l))
    by_entry (some e) at = by_call e (update e (str "deregister")) at refl

-- Names and namespaces without a dot, as Kubernetes requires of services.
abbrev pub IsPlain : Service → Type 0
IsPlain s = Free b'.' s.name × Free b'.' s.namespace

-- The same service, and the same pod.
abbrev pub SameTriple : Service → Pod → Service → Pod → Type 0
SameTriple s p t q = (s.name ≡ t.name) × (s.namespace ≡ t.namespace) × (p.id ≡ q.id)

abbrev pub find_endpoint : Service → Pod → Registry → Option ServiceEndpoint
find_endpoint s p = find_at (service_key s.name s.namespace) (endpoint_id s.namespace s.name p.id)

pub id-injective :
    (namespace name p q : Text)
    → endpoint_id namespace name p ≡ endpoint_id namespace name q
    → p ≡ q
id-injective namespace name p q e =
    tail-eq_of_cons-eq
      (append_cancel_left name _ _ (tail-eq_of_cons-eq (append_cancel_left namespace _ _ e)))
