-- ===== src/Api/Start/Caches.antt =====
-- What the caches hold after the start.
use podman_swarm.Base.{
  ◌≡◌, ◌≢◌, ◌⊎◌, refl, ap, sym, ◌∙◌, Bool-cases, inl, inr, Option, none, some, List, [], ◌∷◌, arith,
}
use podman_swarm.Base.Text.{Text, ◌==◌, eq_iff, eq_refl}
use podman_swarm.Base.Map.{Map, lookup, insert, values, lookup-nil}
use podman_swarm.Base.Map.Distinct.{insert_all, or_else, lookup-insert_all}
use podman_swarm.Types.{Ingress, Pod}
use podman_swarm.Storage.{Storage, Disk, list_deployments, list_services, list_ingresses}
use podman_swarm.Storage.Commands.Invariant.{IsKeyed, IsValid}
use podman_swarm.Discovery.{Registry}
use podman_swarm.Ingress.{Controller, add_ingress}
use podman_swarm.Ingress.Lock.{free, lock}
use podman_swarm.Api.State.{State}
use podman_swarm.Api.Start.{
  started, crashed, cache_all, restore_ingresses, deployment_key, service_key, ingress_key,
  load_state, new_api,
}

module _ {V : Type 0} (own : V → Text) where
  pub IsKeyed-tail : (k : Text) (v : V) (m : Map V) → IsKeyed own ((k, v) ∷ m) → IsKeyed own m
  unfolding lookup
  IsKeyed-tail k v m h = record {
    distinct = h.distinct.1;
    keyed = λ j w e. elim (Bool-cases (k == j)) [
      | inl same ↦ absurd (ground (arith, h.distinct.0, eq_iff k j))
      | inr other ↦ h.keyed j w (rw other e)
    ];
  }

  pub IsKeyed-head : (k : Text) (v : V) (m : Map V) → IsKeyed own ((k, v) ∷ m) → k ≡ own v
  unfolding lookup
  IsKeyed-head k v m h = h.keyed k v (rw (eq_refl k) refl)

  pub cache_all-insert_all :
      (m cache : Map V) → IsKeyed own m → cache_all own (values m) cache ≡ insert_all m cache
  unfolding cache_all insert_all
  cache_all-insert_all [] cache h = refl
  cache_all-insert_all ((k, v) ∷ m) cache h =
      cache_all-insert_all m (insert (own v) v cache) (IsKeyed-tail k v m h)
      ∙ ap (λ j. insert_all m (insert j v cache)) (sym (IsKeyed-head k v m h))

  lookup-cache_all :
      (j : Text) (m cache : Map V)
      → IsKeyed own m
      → lookup j (cache_all own (values m) cache) ≡ or_else (lookup j m) (lookup j cache)
  lookup-cache_all j m cache h =
      ap (lookup j) (cache_all-insert_all m cache h) ∙ lookup-insert_all j m cache h.distinct

-- With a mutex that is free, the loop gives every ingress to the controller.
restored :
    (ings : List Ingress) (cache : Map Ingress) (ic : Controller)
    → ic.mu ≡ free
    → restore_ingresses ings cache (some ic)
      ≡ started (
        cache_all ingress_key ings cache,
        some (record ic { rules = cache_all ingress_key ings ic.rules }),
      )
unfolding restore_ingresses cache_all add_ingress lock
restored [] cache ic e = refl
restored (ing ∷ ings) cache ic e = ground (
  arith,
  restored ings (insert (ingress_key ing) ing cache)
      (record ic { mu = free; rules = insert (ingress_key ing) ing ic.rules }),
)

abbrev pub loaded : Storage → Disk → Map Pod → Registry → Map Ingress → Option Controller → State
loaded storage disk pods registry ingresses controller = record {
  agent = record {
    deployments = cache_all deployment_key (values storage.deployments) [];
    storage = storage;
    disk = disk;
    pods = pods;
  };
  services = cache_all service_key (values storage.services) [];
  ingresses = ingresses;
  registry = registry;
  controller = controller;
}

abbrev pub restored_rules : Storage → Controller → Controller
restored_rules storage ic = record ic {
  rules = cache_all ingress_key (values storage.ingresses) ic.rules;
}

pub new_api-loaded :
    (storage : Storage) (disk : Disk) (pods : Map Pod) (registry : Registry) (ic : Controller)
    → ic.mu ≡ free
    → new_api storage disk pods registry (some ic)
      ≡ started (
          loaded storage disk pods registry
            (cache_all ingress_key (values storage.ingresses) [])
            (some (restored_rules storage ic)))
unfolding new_api load_state list_deployments list_services list_ingresses
new_api-loaded storage disk pods registry ic e =
    ground (arith, restored (values storage.ingresses) [] ic e)

-- With an ingress controller whose mutex is free, an agent starts with caches that hold what its
-- storage holds under every key, and every stored ingress is a rule of the controller again. The
-- keys of the storage are those of its objects.
pub new_api-started :
    (storage : Storage) (disk : Disk) (pods : Map Pod) (registry : Registry) (ic : Controller)
    (k : Text)
    → IsValid storage
    → ic.mu ≡ free
    → (s : State) × (ic' : Controller) × (new_api storage disk pods registry (some ic) ≡ started s)
      × (s.agent.storage ≡ storage)
      × (s.controller ≡ some ic')
      × (lookup k s.agent.deployments ≡ lookup k storage.deployments)
      × (lookup k s.services ≡ lookup k storage.services)
      × (lookup k s.ingresses ≡ lookup k storage.ingresses)
      × (lookup k ic'.rules ≡ or_else (lookup k storage.ingresses) (lookup k ic.rules))
new_api-started storage disk pods registry ic k v e = (
  loaded storage disk pods registry (cache_all ingress_key (values storage.ingresses) [])
      (some (restored_rules storage ic)),
  restored_rules storage ic,
  new_api-loaded storage disk pods registry ic e,
  refl,
  refl,
  lookup-cache_all deployment_key k storage.deployments [] v.deployments
      ∙ or_else-nil (lookup k storage.deployments),
  lookup-cache_all service_key k storage.services [] v.services
      ∙ or_else-nil (lookup k storage.services),
  lookup-cache_all ingress_key k storage.ingresses [] v.ingresses
      ∙ or_else-nil (lookup k storage.ingresses),
  lookup-cache_all ingress_key k storage.ingresses ic.rules v.ingresses,
)
  where
    or_else-nil : {V : Type 0} (o : Option V) → or_else o (lookup k []) ≡ o
    or_else-nil none = lookup-nil _ k
    or_else-nil (some x) = refl

-- With the ingress controller disabled, an agent starts exactly when its storage holds no ingress;
-- else the start ends in a panic.
disabled_crashes :
    (storage : Storage) (disk : Disk) (pods : Map Pod) (registry : Registry)
    → ((storage.ingresses ≡ [])
        × ((s : State) × (new_api storage disk pods registry none ≡ started s)))
      ⊎ ((storage.ingresses ≢ []) × (new_api storage disk pods registry none ≡ crashed))
unfolding new_api load_state list_ingresses restore_ingresses list_deployments list_services
disabled_crashes storage disk pods registry = by_ingresses storage.ingresses refl
  where
    by_ingresses :
        (m : Map Ingress)
        → storage.ingresses ≡ m
        → ((storage.ingresses ≡ [])
            × ((s : State) × (new_api storage disk pods registry none ≡ started s)))
          ⊎ ((storage.ingresses ≢ []) × (new_api storage disk pods registry none ≡ crashed))
    by_ingresses [] e =
        inl (e, (loaded storage disk pods registry [] none, rw (e, restore_ingresses) refl))
    by_ingresses (x ∷ m) e = inr ((λ h. cc), rw (e, restore_ingresses) refl)
