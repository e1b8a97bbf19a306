-- ===== src/Api/Listings.antt =====
-- internal/api/api.go: the handlers that read. Those for whole lists answer with every entry.
pub mod Lookups
use podman_swarm.Base.{
  ℕ, Bool, true, false, Option, none, some, List, [], ◌∷◌, ◌&&◌, Result, ok, err, if◌then◌else◌,
}
use podman_swarm.Base.Text.{Text, ◌==◌}
use podman_swarm.Base.Map.{Map, lookup, values}
use podman_swarm.Types.{Pod, Deployment, Service, Node}
use podman_swarm.Storage.{object_key}
use podman_swarm.Scheduler.{get_all_pods}
use podman_swarm.Cluster.{get_nodes, get_node_count}
use podman_swarm.Discovery as Discovery
use podman_swarm.Discovery.{ServiceEndpoint, Registry, get_service_endpoints, get_service_addresses}
use podman_swarm.Api.State.{State}

-- Status 200 with a body, or status 404.
pub data Answer (A : Type 0) : Type 0 where
  found : A → Answer A
  not_found : Answer A

abbrev or_not_found : {A : Type 0} → Option A → Answer A
or_not_found none = not_found
or_not_found (some a) = found a

abbrev or_error : {A : Type 0} → Result Discovery.Error A → Answer A
or_error (err e) = not_found
or_error (ok a) = found a

unfoldable pub list_pods : State → List Pod
list_pods s = get_all_pods s.agent.pods

abbrev pub is_named : Text → Text → Pod → Bool
is_named namespace name pod = pod.namespace == namespace && pod.name == name

-- The loop of GetPod: the first pod of the name.
unfoldable pub first_named : Text → Text → List Pod → Answer Pod
first_named namespace name [] = not_found
first_named namespace name (pod ∷ pods) =
    let rest = first_named namespace name pods in
    if is_named namespace name pod then found pod else rest

unfoldable pub get_pod : Text → Text → State → Answer Pod
get_pod namespace name s = first_named namespace name (get_all_pods s.agent.pods)

unfoldable pub list_deployments : State → List Deployment
list_deployments s = values s.agent.deployments

unfoldable pub get_deployment : Text → Text → State → Answer Deployment
get_deployment namespace name s =
    or_not_found (lookup (object_key namespace name) s.agent.deployments)

unfoldable pub list_services : State → List Service
list_services s = values s.services

unfoldable pub list_nodes : Map Node → List Node
list_nodes nodes = get_nodes nodes

unfoldable pub service_endpoints : ℕ → Text → Text → State → Answer (List ServiceEndpoint)
service_endpoints now namespace name s =
    or_error (get_service_endpoints now name namespace s.registry)

-- The body of the answer for the addresses of a service.
pub record Addresses : Type 0 where
  pub service : Text
  pub namespace : Text
  pub addresses : List Text

abbrev addressed : Text → Text → Answer (List Text) → Answer Addresses
addressed namespace name not_found = not_found
addressed namespace name (found addresses) =
    found (record { service = name; namespace = namespace; addresses = addresses })

unfoldable pub service_addresses : ℕ → Text → Text → State → Answer Addresses
service_addresses now namespace name s =
    addressed namespace name (or_error (get_service_addresses now name namespace s.registry))

-- Health: the number of nodes; its status is always "healthy".
unfoldable pub health : Map Node → ℕ
health nodes = get_node_count nodes
