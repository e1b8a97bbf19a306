-- ===== src/Api/Recovery.antt =====
-- internal/api/recovery.go: making the pods of the stored deployments again after a start.
-- StartStateRecovery calls it once, after five seconds.
pub mod Counts
use podman_swarm.Base.{
  ℕ, zero, suc, ◌+◌, Bool, true, false, Option, none, some, List, [], ◌∷◌, Result, ok, err, ltb,
}
use podman_swarm.Base.Text.{Text}
use podman_swarm.Base.Int.{rounds}
use podman_swarm.Base.Map.{Map, insert, values}
use podman_swarm.Types.{Deployment, Service, Pod, Node, Call, returns, panics}
use podman_swarm.Storage.{Codec, Io, save_deployment, list_deployments, list_services}
use podman_swarm.Scheduler.{get_all_pods}
use podman_swarm.Discovery.{Registry, Update}
use podman_swarm.Api.Deployments.{Agent, PodIo, Error, Made, make_pod, template_pod, key_of}
use podman_swarm.Api.Services.{register_all, service_key_of}
use podman_swarm.Api.State.{State, stored}

-- The pods that were made, and how many replicas failed.
pub record Recovered : Type 0 where
  pub pods : Map Pod
  pub made : List Pod
  pub failed : ℕ

-- The loop over the replicas from the i-th on, for as many as are left. A replica that fails is
-- counted and passed over.
unfoldable pub recover_pods :
    Text → List Node → (ℕ → PodIo) → Deployment → ℕ → ℕ → Map Pod → Recovered
recover_pods local nodes ios dep i zero pods = record { pods = pods; made = []; failed = 0 }
recover_pods local nodes ios dep i (suc n) pods =
    let step = make_pod local nodes (ios i) (template_pod dep i) pods in
    let rest = recover_pods local nodes ios dep (suc i) n step.pods in
    elim step.result [
      | err e ↦ record rest { failed = suc rest.failed }
      | ok pod ↦ record rest { made = pod ∷ rest.made }
    ]

-- What the calls for one deployment return.
pub record Inputs : Type 0 where
  pub io : Io
  pub pods : ℕ → PodIo

module _ (c : Codec) (local : Text) (nodes : List Node) where
  -- One round of the loop over the deployments: the deployment, which the cache and the storage
  -- share, gets the new pods and is saved.
  unfoldable pub recover_deployment : Inputs → Deployment → Agent → Agent × ℕ
  recover_deployment inputs dep a =
      let r = recover_pods local nodes inputs.pods dep 0 (rounds dep.desired_replicas) a.pods in
      let done = record dep { pods = r.made } in
      let saved = save_deployment c inputs.io done a.storage a.disk in
      (
        record {
          deployments = insert (key_of dep) done a.deployments;
          storage = saved.storage;
          disk = saved.disk;
          pods = r.pods;
        },
        r.failed,
      )

  -- The loop over the deployments, the first of which is the i-th, with the count of failures.
  unfoldable pub recover_deployments : (ℕ → Inputs) → ℕ → List Deployment → Agent → Agent × ℕ
  recover_deployments inputs i [] a = (a, 0)
  recover_deployments inputs i (dep ∷ deps) a =
      let (a', failed) = recover_deployment (inputs i) dep a in
      let (a'', more) = recover_deployments inputs (suc i) deps a' in (a'', failed + more)

-- The rest of the round for a service, and of the loop, if its registrations return.
abbrev pub then_service :
    Service
    → Map Service
    → Registry × Call
    → (Map Service → Registry → Map Service × Registry × Call)
    → Map Service × Registry × Call
then_service svc cache (reg, returns) next = next (insert (service_key_of svc) svc cache) reg
then_service svc cache (reg, panics) next = (cache, reg, panics)

-- The loop over the services; the clocks and the updates are those of each service's registrations.
unfoldable pub recover_services :
    (ℕ → ℕ → Update)
    → Map Node
    → (ℕ → ℕ → ℕ)
    → ℕ
    → List Service
    → List Pod
    → Map Service
    → Registry
    → Map Service × Registry × Call
recover_services updates nodes clocks i [] pods cache reg = (cache, reg, returns)
recover_services updates nodes clocks i (svc ∷ svcs) pods cache reg =
    then_service svc cache (register_all (updates i) nodes (clocks i) 0 svc pods reg)
      (λ cache' reg'. recover_services updates nodes clocks (suc i) svcs pods cache' reg')

-- RecoverDeployments: the state that it leaves, how many pods failed, for which it returns an error
-- if it is not 0, and whether it returns: a panic is not recovered and ends the agent.
unfoldable pub recover :
    Codec
    → Text
    → Map Node
    → (ℕ → Inputs)
    → (ℕ → ℕ → ℕ)
    → (ℕ → ℕ → Update)
    → State
    → State × ℕ × Call
recover c local nodes inputs clocks updates s =
    let (a, failed) =
      recover_deployments c local (values nodes) inputs 0 (list_deployments s.agent.storage)
        s.agent in
    let (services, registry, call) =
      recover_services updates nodes clocks 0 (list_services a.storage) (get_all_pods a.pods)
        s.services s.registry in
    (record s { agent = a; services = services; registry = registry }, failed, call)
