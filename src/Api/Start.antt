-- ===== src/Api/Start.antt =====
-- internal/api/api.go: NewAPI, which fills the caches from the storage.
pub mod Caches
use podman_swarm.Base.{Option, none, some, List, [], ◌∷◌}
use podman_swarm.Base.Text.{Text}
use podman_swarm.Base.Map.{Map, insert}
use podman_swarm.Types.{Deployment, Service, Ingress, Pod}
use podman_swarm.Storage.{
  Storage, Disk, object_key, list_deployments, list_services, list_ingresses,
}
use podman_swarm.Discovery.{Registry}
use podman_swarm.Ingress.{Controller, Called, returned, panicked, waits, add_ingress}
use podman_swarm.Api.Deployments.{Agent}
use podman_swarm.Api.State.{State}

-- for _, v := range list { cache[own(v)] = v }
pub cache_all : {V : Type 0} → (V → Text) → List V → Map V → Map V
cache_all own [] cache = cache
cache_all own (v ∷ vs) cache = cache_all own vs (insert (own v) v cache)

-- The API is ready, or the agent has panicked in a method of the nil controller, or a call waits.
pub data Started (A : Type 0) : Type 0 where
  started : A → Started A
  crashed : Started A
  stuck : Started A

-- The loop over the ingresses, which applies each to the controller again.
unfoldable pub restore_ingresses :
    List Ingress → Map Ingress → Option Controller → Started (Map Ingress × Option Controller)
restore_ingresses [] cache controller = started (cache, controller)
restore_ingresses (ing ∷ ings) cache none = crashed
restore_ingresses (ing ∷ ings) cache (some ic) =
    let rest = λ (ic' : Controller).
      restore_ingresses ings (insert (object_key ing.namespace ing.name) ing cache) (some ic') in
    elim (add_ingress ing ic) [ returned u ic' ↦ rest ic' | panicked ↦ crashed | waits ic' ↦ stuck ]

abbrev pub deployment_key : Deployment → Text
deployment_key x = object_key x.namespace x.name

abbrev pub service_key : Service → Text
service_key x = object_key x.namespace x.name

abbrev pub ingress_key : Ingress → Text
ingress_key x = object_key x.namespace x.name

-- loadStateFromStorage
unfoldable pub load_state : State → Started State
unfolding cache_all
load_state s =
    let storage = s.agent.storage in
    elim (restore_ingresses (list_ingresses storage) s.ingresses s.controller) [
      | crashed ↦ crashed
      | stuck ↦ stuck
      | started loaded ↦ started (record s {
        agent = record (s.agent) {
          deployments = cache_all deployment_key (list_deployments storage) s.agent.deployments;
        };
        services = cache_all service_key (list_services storage) s.services;
        ingresses = loaded.0;
        controller = loaded.1;
      })
    ]

-- NewAPI, over what the other components hold when it is called.
unfoldable pub new_api : Storage → Disk → Map Pod → Registry → Option Controller → Started State
new_api storage disk pods registry controller = load_state (record {
  agent = record { deployments = []; storage = storage; disk = disk; pods = pods };
  services = [];
  ingresses = [];
  registry = registry;
  controller = controller;
})
