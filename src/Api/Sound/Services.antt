-- ===== src/Api/Sound/Services.antt =====
-- Applying and deleting a service.
use podman_swarm.Base.{ℕ, suc, List, [], ◌∷◌, inl, inr, Option-cases, Bool-cases}
use podman_swarm.Base.Text.{Text}
use podman_swarm.Base.Map.{Map, lookup}
use podman_swarm.Kube.{ServiceObject}
use podman_swarm.Types.{Pod, Service, Node, Call, returns, panics}
use podman_swarm.Storage.{Codec, Io, object_key}
use podman_swarm.Storage.Commands.{put_service, drop_service, execute}
use podman_swarm.Storage.Commands.Invariant.{insert-IsKeyed, delete-IsKeyed, execute-IsValid}
use podman_swarm.Discovery.{Registry, Update, register_service, deregister_service}
use podman_swarm.Discovery.Registry.{IsRegistry, operations-IsRegistry}
use podman_swarm.Scheduler.{get_all_pods}
use podman_swarm.Parser.{parse_service}
use podman_swarm.Api.Services.{
  matches_selector, register_all, deregister_all, apply_service, delete_cached_service, then_call,
  forget_service,
}
use podman_swarm.Api.Start.{service_key}
use podman_swarm.Api.State.{State}
use podman_swarm.Api.Sound.Ingresses.{Settles}
use podman_swarm.Api.Sound.{IsSound}

-- A call keeps the registry well formed.
abbrev Keeps : Registry × Call → Type 0
Keeps r = IsRegistry r.0

then_call-Keeps :
    (r : Registry × Call) (next : Registry → Registry × Call)
    → Keeps r
    → ((reg : Registry) → IsRegistry reg → Keeps (next reg))
    → Keeps (then_call r next)
then_call-Keeps (reg, returns) next h rest = rest reg h
then_call-Keeps (reg, panics) next h rest = h

pub register_all-IsRegistry :
    (updates : ℕ → Update) (nodes : Map Node) (clock : ℕ → ℕ) (i : ℕ) (svc : Service)
    (pods : List Pod) (reg : Registry)
    → IsRegistry reg
    → IsRegistry (register_all updates nodes clock i svc pods reg).0
unfolding register_all
register_all-IsRegistry updates nodes clock i svc [] reg h = h
register_all-IsRegistry updates nodes clock i svc (pod ∷ pods) reg h =
    elim (Bool-cases (matches_selector pod.labels svc.selector)) [
      | inl e ↦
          rw (e, register_all)
            (then_call-Keeps (register_service (updates i) nodes (clock i) svc pod reg) _
              ((operations-IsRegistry reg h).0 (updates i) nodes (clock i) svc pod)
              (λ reg' k. register_all-IsRegistry updates nodes clock (suc i) svc pods reg' k))
      | inr e ↦
          rw (e, register_all) (register_all-IsRegistry updates nodes clock (suc i) svc pods reg h)
    ]

deregister_all-IsRegistry :
    (updates : ℕ → Update) (i : ℕ) (svc : Service) (pods : List Pod) (reg : Registry)
    → IsRegistry reg
    → IsRegistry (deregister_all updates i svc pods reg).0
unfolding deregister_all
deregister_all-IsRegistry updates i svc [] reg h = h
deregister_all-IsRegistry updates i svc (pod ∷ pods) reg h =
    elim (Bool-cases (matches_selector pod.labels svc.selector)) [
      | inl e ↦
          rw (e, deregister_all)
            (then_call-Keeps (deregister_service (updates i) svc pod reg) _
              ((operations-IsRegistry reg h).1 (updates i) svc pod)
              (λ reg' k. deregister_all-IsRegistry updates (suc i) svc pods reg' k))
      | inr e ↦ rw (e, deregister_all) (deregister_all-IsRegistry updates (suc i) svc pods reg h)
    ]

pub apply_service-IsSound :
    (c : Codec) (io : Io) (updates : ℕ → Update) (nodes : Map Node) (clock : ℕ → ℕ)
    (o : ServiceObject) (s : State)
    → IsSound s
    → IsSound (apply_service c io updates nodes clock o s).0
unfolding apply_service parse_service execute
apply_service-IsSound c io updates nodes clock o s h = record {
  agent = record {
    deployments = h.agent.deployments;
    storage = execute-IsValid c io (put_service _) s.agent.storage s.agent.disk h.agent.storage;
  };
  services = insert-IsKeyed service_key _ s.services h.services;
  ingresses = h.ingresses;
  registry =
      register_all-IsRegistry updates nodes clock 0 _ (get_all_pods s.agent.pods) s.registry
        h.registry;
  controller = h.controller;
}

forget_service-IsSound :
    (c : Codec) (io : Io) (namespace name : Text) (s : State) (r : Registry × Call)
    → IsSound s
    → Keeps r
    → Settles (forget_service c io namespace name s r)
unfolding execute
forget_service-IsSound c io namespace name s (registry, returns) h k = (
  record {
    agent = record {
      deployments = h.agent.deployments;
      storage =
          execute-IsValid c io (drop_service namespace name) s.agent.storage s.agent.disk
            h.agent.storage;
    };
    services = delete-IsKeyed service_key (object_key namespace name) s.services h.services;
    ingresses = h.ingresses;
    registry = k;
    controller = h.controller;
  },
  λ p. cc,
)
forget_service-IsSound c io namespace name s (registry, panics) h k = (
  record {
    agent = h.agent;
    services = h.services;
    ingresses = h.ingresses;
    registry = k;
    controller = h.controller;
  },
  λ p. cc,
)

pub delete_cached_service-Settles :
    (c : Codec) (io : Io) (updates : ℕ → Update) (namespace name : Text) (s : State)
    → IsSound s
    → Settles (delete_cached_service c io updates namespace name s)
unfolding delete_cached_service
delete_cached_service-Settles c io updates namespace name s h =
    elim (Option-cases (lookup (object_key namespace name) s.services)) [
      | inl e ↦ rw (e, delete_cached_service) (h, λ p. cc)
      | inr (svc, e) ↦
          rw (e, delete_cached_service)
            (forget_service-IsSound c io namespace name s
              (deregister_all updates 0 svc (get_all_pods s.agent.pods) s.registry) h
              (deregister_all-IsRegistry updates 0 svc (get_all_pods s.agent.pods) s.registry
                h.registry))
    ]
