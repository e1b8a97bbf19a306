-- ===== src/Discovery/Registry.antt =====
-- The shape of the registry: both levels have distinct keys, and no service is without an endpoint.
use mathlib.Core.Option
use mathlib.Core.Option.{some-injective}
use podman_swarm.Base.{ℕ, ◌≡◌, ◌≢◌, refl, Option, none, some, [], ◌∷◌, arith, map, subst, sym, ◌∙◌}
use podman_swarm.Base.Text.{Text, str}
use podman_swarm.Base.Map.{Map, lookup, insert, delete, lookup-insert, lookup-delete}
use podman_swarm.Base.Map.Distinct.{IsDistinct, insert-IsDistinct, delete-IsDistinct}
use podman_swarm.Types.{Call, returns, panics, Node, Pod, Service}
use podman_swarm.Discovery.Messages.{apply_update, own_key, own_id}
use podman_swarm.Discovery.{
  ServiceEndpoint, Registry, service_key, endpoint_id, endpoint_for, endpoints_at, put_endpoint,
  remove_endpoint, shrink, find_at, Update, after_broadcast, deregister_found, remove_in,
  register_service, deregister_service, health_check, check_endpoint,
}

pub record IsRegistry (reg : Registry) : Type 0 where
  pub distinct : IsDistinct reg
  pub inner : (k : Text) (m : Map ServiceEndpoint) → lookup k reg ≡ some m → IsDistinct m × (m ≢ [])

insert-ne-nil : (k : Text) (e : ServiceEndpoint) (m : Map ServiceEndpoint) → insert k e m ≢ []
unfolding insert
insert-ne-nil k e [] h = cc
insert-ne-nil k e ((j, x) ∷ m) h = ground arith

insert-IsRegistry :
    (k : Text) (m : Map ServiceEndpoint) (reg : Registry)
    → IsRegistry reg
    → IsDistinct m
    → m ≢ []
    → IsRegistry (insert k m reg)
insert-IsRegistry k m reg v d n = record {
  distinct = insert-IsDistinct k m reg v.distinct;
  inner = λ j x e. ground (arith, lookup-insert k j m reg, v.inner j x);
}

endpoints_at-IsDistinct :
    (k : Text) (reg : Registry) → IsRegistry reg → IsDistinct (endpoints_at k reg)
endpoints_at-IsDistinct k reg v = by_entry (lookup k reg) refl
  where
    by_entry :
        (o : Option (Map ServiceEndpoint))
        → lookup k reg ≡ o
        → IsDistinct (elim o as (λ _. Map ServiceEndpoint) [ none ↦ [] | some m ↦ m ])
    by_entry none e = tt
    by_entry (some m) e = (v.inner k m e).0

put_endpoint-IsRegistry :
    (k id : Text) (e : ServiceEndpoint) (reg : Registry)
    → IsRegistry reg
    → IsRegistry (put_endpoint k id e reg)
unfolding put_endpoint
put_endpoint-IsRegistry k id e reg v =
    insert-IsRegistry k (insert id e (endpoints_at k reg)) reg v
      (insert-IsDistinct id e (endpoints_at k reg) (endpoints_at-IsDistinct k reg v))
      (insert-ne-nil id e (endpoints_at k reg))

shrink-IsRegistry :
    (k : Text) (m : Map ServiceEndpoint) (reg : Registry)
    → IsRegistry reg
    → IsDistinct m
    → IsRegistry (shrink k m reg)
shrink-IsRegistry k [] reg v d = record {
  distinct = delete-IsDistinct k reg v.distinct;
  inner = λ j x e. ground (arith, lookup-delete k j reg, v.inner j x);
}
shrink-IsRegistry k (e ∷ m) reg v d = insert-IsRegistry k (e ∷ m) reg v d (cc)

remove_endpoint-IsRegistry :
    (k id : Text) (reg : Registry) → IsRegistry reg → IsRegistry (remove_endpoint k id reg)
unfolding remove_endpoint
remove_endpoint-IsRegistry k id reg v = by_entry (lookup k reg) refl
  where
    by_entry :
        (o : Option (Map ServiceEndpoint)) → lookup k reg ≡ o → IsRegistry (remove_in k id o reg)
    by_entry none e = v
    by_entry (some m) e =
        shrink-IsRegistry k (delete id m) reg v (delete-IsDistinct id m (v.inner k m e).0)

deregister_service-IsRegistry :
    (update : Update) (service : Service) (pod : Pod) (reg : Registry)
    → IsRegistry reg
    → IsRegistry (deregister_service update service pod reg).0
unfolding deregister_service
deregister_service-IsRegistry update service pod reg v = by_entry (find_at key id reg)
  where
    key : Text
    key = service_key service.name service.namespace

    id : Text
    id = endpoint_id service.namespace service.name pod.id

    by_call : (call : Call) → IsRegistry (after_broadcast call key id reg).0
    by_call returns = remove_endpoint-IsRegistry key id reg v
    by_call panics = v

    by_entry : (o : Option ServiceEndpoint) → IsRegistry (deregister_found update key id o reg).0
    by_entry none = v
    by_entry (some e) = by_call (update e (str "deregister"))

module _ {V W : Type 0} (f : V → W) where
  lookup-map :
      (k : Text) (m : Map V) → lookup k (map (λ e. (e.0, f e.1)) m) ≡ Option.map f (lookup k m)
  unfolding lookup
  lookup-map k [] = refl
  lookup-map k ((j, x) ∷ m) = ground (arith, lookup-map k m)

  map-IsDistinct : (m : Map V) → IsDistinct m → IsDistinct (map (λ e. (e.0, f e.1)) m)
  map-IsDistinct [] h = tt
  map-IsDistinct ((j, x) ∷ m) h = (rw (lookup-map j m, h.0) refl, map-IsDistinct m h.1)

health_check-IsRegistry :
    (now : ℕ) (reg : Registry) → IsRegistry reg → IsRegistry (health_check now reg)
unfolding health_check
health_check-IsRegistry now reg v = record {
  distinct = map-IsDistinct check_all reg v.distinct;
  inner = λ k m e. checked k m (lookup k reg) refl (sym (lookup-map check_all k reg) ∙ e);
}
  where
    check_all : Map ServiceEndpoint → Map ServiceEndpoint
    check_all = map (λ e. (e.0, check_endpoint now e.1))

    not_empty : (m : Map ServiceEndpoint) → m ≢ [] → check_all m ≢ []
    not_empty [] n = absurd (n refl)
    not_empty (x ∷ m) n = cc

    checked :
        (k : Text) (m : Map ServiceEndpoint) (o : Option (Map ServiceEndpoint))
        → lookup k reg ≡ o
        → Option.map check_all o ≡ some m
        → IsDistinct m × (m ≢ [])
    checked k m none at e = cc
    checked k m (some x) at e =
        subst (λ y. IsDistinct y × (y ≢ [])) (some-injective _ _ e)
          (map-IsDistinct (check_endpoint now) x (v.inner k x at).0, not_empty x (v.inner k x at).1)

-- Every change of the registry keeps its shape: a registration, a deregistration, an update that
-- another node sent, and a health check.
pub operations-IsRegistry :
    (reg : Registry)
    → IsRegistry reg
    → ((update : Update) (nodes : Map Node) (now : ℕ) (service : Service) (pod : Pod)
        → IsRegistry (register_service update nodes now service pod reg).0)
      × ((update : Update) (service : Service) (pod : Pod)
          → IsRegistry (deregister_service update service pod reg).0)
      × ((action : Text) (e : ServiceEndpoint) → IsRegistry (apply_update action e reg))
      × ((now : ℕ) → IsRegistry (health_check now reg))
unfolding register_service apply_update
operations-IsRegistry reg v = (
  λ update nodes now service pod.
      put_endpoint-IsRegistry (service_key service.name service.namespace)
        (endpoint_id service.namespace service.name pod.id) (endpoint_for nodes now service pod) reg
        v,
  λ update service pod. deregister_service-IsRegistry update service pod reg v,
  λ action e. ground (
    arith,
    put_endpoint-IsRegistry (own_key e) (own_id e) e reg v,
    remove_endpoint-IsRegistry (own_key e) (own_id e) reg v,
  ),
  λ now. health_check-IsRegistry now reg v,
)
