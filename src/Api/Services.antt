-- ===== src/Api/Services.antt =====
-- internal/api/api.go: applying and deleting services.
pub mod Endpoints
pub mod Runs
pub mod Withdrawals
pub mod Resolution
mod Tests
use podman_swarm.Base.{
  ℕ, suc, Bool, true, false, Option, none, some, List, [], ◌∷◌, Result, ok, err, all, if◌then◌else◌,
}
use podman_swarm.Base.Text.{Text, ◌==◌}
use podman_swarm.Base.Map.{Map, lookup, insert, delete}
use podman_swarm.Kube.{ServiceObject, service_object}
use podman_swarm.Types.{Pod, Service, Node, Call, returns, panics}
use podman_swarm.Storage.{Codec, Io, object_key, save_service, delete_service}
use podman_swarm.Scheduler.{text_of, get_all_pods}
use podman_swarm.Discovery.{Registry, Update, register_service, deregister_service}
use podman_swarm.Parser.{parse_service}
use podman_swarm.Api.State.{State, stored, Step, done, failed, service_failed, broadcast_panics}

-- matchesSelector: a missing label reads as the empty text.
abbrev pub matches_selector : Map Text → Map Text → Bool
matches_selector labels selector = all (λ e. text_of (lookup e.0 labels) == e.1) selector

-- What follows a call, if it returns.
abbrev pub then_call : Registry × Call → (Registry → Registry × Call) → Registry × Call
then_call (reg, returns) next = next reg
then_call (reg, panics) next = (reg, panics)

-- The loop of applyService; the i-th registration reads the i-th time of the clock, and its broadcast
-- is the i-th of the updates.
unfoldable pub register_all :
    (ℕ → Update) → Map Node → (ℕ → ℕ) → ℕ → Service → List Pod → Registry → Registry × Call
register_all updates nodes clock i svc [] reg = (reg, returns)
register_all updates nodes clock i svc (pod ∷ pods) reg =
    elim (matches_selector pod.labels svc.selector) [
      | true ↦
          then_call (register_service (updates i) nodes (clock i) svc pod reg)
            (λ reg'. register_all updates nodes clock (suc i) svc pods reg')
      | false ↦ register_all updates nodes clock (suc i) svc pods reg
    ]

-- The loop of DeleteManifest for services.
unfoldable pub deregister_all : (ℕ → Update) → ℕ → Service → List Pod → Registry → Registry × Call
deregister_all updates i svc [] reg = (reg, returns)
deregister_all updates i svc (pod ∷ pods) reg = elim (matches_selector pod.labels svc.selector) [
  | true ↦
      then_call (deregister_service (updates i) svc pod reg)
        (λ reg'. deregister_all updates (suc i) svc pods reg')
  | false ↦ deregister_all updates (suc i) svc pods reg
]

abbrev pub service_key_of : Service → Text
service_key_of svc = object_key svc.namespace svc.name

-- What a handler does that a call is the last of.
abbrev pub step_of : Call → Step
step_of returns = done
step_of panics = failed broadcast_panics

-- applyService
unfoldable pub apply_service :
    Codec → Io → (ℕ → Update) → Map Node → (ℕ → ℕ) → ServiceObject → State → State × Step
apply_service c io updates nodes clock o s = elim (parse_service (service_object o)) [
  | err e ↦ (s, failed service_failed)
  | ok svc ↦
      let (registry, call) =
        register_all updates nodes clock 0 svc (get_all_pods s.agent.pods) s.registry in
      (
        record s {
          agent = stored (save_service c io svc s.agent.storage s.agent.disk) s.agent;
          services = insert (service_key_of svc) svc s.services;
          registry = registry;
        },
        step_of call,
      )
]

-- What follows the loop of the deregistrations, if it returns.
abbrev pub forget_service : Codec → Io → Text → Text → State → Registry × Call → State × Step
forget_service c io namespace name s (registry, returns) = (
  record s {
    agent = stored (delete_service c io namespace name s.agent.storage s.agent.disk) s.agent;
    services = delete (object_key namespace name) s.services;
    registry = registry;
  },
  done,
)
forget_service c io namespace name s (registry, panics) =
    (record s { registry = registry }, failed broadcast_panics)

-- The part of DeleteManifest for services.
unfoldable pub delete_cached_service :
    Codec → Io → (ℕ → Update) → Text → Text → State → State × Step
delete_cached_service c io updates namespace name s =
    elim (lookup (object_key namespace name) s.services) [
      | none ↦ (s, done)
      | some svc ↦
          forget_service c io namespace name s
            (deregister_all updates 0 svc (get_all_pods s.agent.pods) s.registry)
    ]
