-- ===== src/Api/Sound/Recovery.antt =====
-- The recovery after a start.
use podman_swarm.Base.{ℕ, suc, List, [], ◌∷◌}
use podman_swarm.Base.Text.{Text}
use podman_swarm.Base.Int.{rounds}
use podman_swarm.Base.Map.{Map, values}
use podman_swarm.Types.{Deployment, Service, Pod, Node, Call, returns, panics}
use podman_swarm.Storage.{Codec, list_deployments, list_services}
use podman_swarm.Storage.Commands.Invariant.{IsKeyed, insert-IsKeyed}
use podman_swarm.Discovery.{Registry, Update}
use podman_swarm.Discovery.Registry.{IsRegistry}
use podman_swarm.Scheduler.{get_all_pods}
use podman_swarm.Api.Deployments.{Agent}
use podman_swarm.Api.Recovery.{
  Inputs, recover_pods, recover_deployment, recover_deployments, recover_services, recover,
  then_service,
}
use podman_swarm.Api.Services.{register_all}
use podman_swarm.Api.Start.{deployment_key, service_key}
use podman_swarm.Api.State.{State}
use podman_swarm.Api.Sound.{IsAgent, IsSound}
use podman_swarm.Api.Sound.Deployments.{save_deployment-IsValid}
use podman_swarm.Api.Sound.Services.{register_all-IsRegistry}

module _ (c : Codec) (local : Text) (nodes : List Node) where
  recover_deployment-IsAgent :
      (inputs : Inputs) (dep : Deployment) (a : Agent)
      → IsAgent a
      → IsAgent (recover_deployment c local nodes inputs dep a).0
  unfolding recover_deployment
  recover_deployment-IsAgent inputs dep a h =
      let r = recover_pods local nodes inputs.pods dep 0 (rounds dep.desired_replicas) a.pods in
      let done = record dep { pods = r.made } in
      record {
        deployments = insert-IsKeyed deployment_key done a.deployments h.deployments;
        storage = save_deployment-IsValid c inputs.io done a.storage a.disk h.storage;
      }

  recover_deployments-IsAgent :
      (inputs : ℕ → Inputs) (i : ℕ) (deps : List Deployment) (a : Agent)
      → IsAgent a
      → IsAgent (recover_deployments c local nodes inputs i deps a).0
  unfolding recover_deployments
  recover_deployments-IsAgent inputs i [] a h = h
  recover_deployments-IsAgent inputs i (dep ∷ deps) a h =
      recover_deployments-IsAgent inputs (suc i) deps _
        (recover_deployment-IsAgent (inputs i) dep a h)

-- The cache and the registry that the loop over the services leaves.
abbrev Kept : Map Service × Registry × Call → Type 0
Kept r = IsKeyed service_key r.0 × IsRegistry r.1

then_service-Kept :
    (svc : Service) (cache : Map Service) (r : Registry × Call)
    (next : Map Service → Registry → Map Service × Registry × Call)
    → IsKeyed service_key cache
    → IsRegistry r.0
    → ((m : Map Service) (reg : Registry)
        → IsKeyed service_key m
        → IsRegistry reg
        → Kept (next m reg))
    → Kept (then_service svc cache r next)
then_service-Kept svc cache (reg, returns) next h k rest =
    rest _ reg (insert-IsKeyed service_key svc cache h) k
then_service-Kept svc cache (reg, panics) next h k rest = (h, k)

recover_services-Kept :
    (updates : ℕ → ℕ → Update) (nodes : Map Node) (clocks : ℕ → ℕ → ℕ) (i : ℕ) (svcs : List Service)
    (pods : List Pod) (cache : Map Service) (reg : Registry)
    → IsKeyed service_key cache
    → IsRegistry reg
    → Kept (recover_services updates nodes clocks i svcs pods cache reg)
unfolding recover_services
recover_services-Kept updates nodes clocks i [] pods cache reg h k = (h, k)
recover_services-Kept updates nodes clocks i (svc ∷ svcs) pods cache reg h k =
    then_service-Kept svc cache (register_all (updates i) nodes (clocks i) 0 svc pods reg) _ h
      (register_all-IsRegistry (updates i) nodes (clocks i) 0 svc pods reg k)
      (λ m reg' h' k'. recover_services-Kept updates nodes clocks (suc i) svcs pods m reg' h' k')

pub recover-IsSound :
    (c : Codec) (local : Text) (nodes : Map Node) (inputs : ℕ → Inputs) (clocks : ℕ → ℕ → ℕ)
    (updates : ℕ → ℕ → Update) (s : State)
    → IsSound s
    → IsSound (recover c local nodes inputs clocks updates s).0
unfolding recover
recover-IsSound c local nodes inputs clocks updates s h =
    let a =
      (recover_deployments c local (values nodes) inputs 0 (list_deployments s.agent.storage)
        s.agent).0 in
    let kept =
      recover_services-Kept updates nodes clocks 0 (list_services a.storage) (get_all_pods a.pods)
        s.services s.registry h.services h.registry in
    record {
      agent =
          recover_deployments-IsAgent c local (values nodes) inputs 0
            (list_deployments s.agent.storage) s.agent h.agent;
      services = kept.0;
      ingresses = h.ingresses;
      registry = kept.1;
      controller = h.controller;
    }
