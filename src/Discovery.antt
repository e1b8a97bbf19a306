-- ===== src/Discovery.antt =====
-- internal/discovery/discovery.go: which pods serve a service, as each node knows it. Times are in
-- nanoseconds. Every method holds the registry's mutex throughout.
pub mod Messages
pub mod Triples
pub mod Freshness
pub mod Registry
mod Tests
use podman_swarm.Base.{
  ℕ, ◌*◌, ◌-◌, Bool, true, false, Option, none, some, List, [], ◌∷◌, ◌++◌, ◌&&◌, Result, ok, err,
  map, keep, ltb, if◌then◌else◌,
}
use podman_swarm.Base.Text.{Text, str}
use podman_swarm.Base.Text.Decimal.{format_int}
use podman_swarm.Base.Int.{ℤ, pos}
use podman_swarm.Base.Map.{Map, lookup, insert, delete, values}
use podman_swarm.Types.{Pod, Service, Node, Call, returns, panics}

pub record ServiceEndpoint : Type 0 where
  pub service_name : Text
  pub namespace : Text
  pub pod_id : Text
  pub pod_name : Text
  pub node_name : Text
  pub address : Text
  pub port : ℤ
  pub healthy : Bool
  pub last_seen : ℕ

-- serviceKey -> endpointID -> endpoint
abbrev pub Registry : Type 0
Registry = Map (Map ServiceEndpoint)

pub data Error : Type 0 where
  service_not_found no_healthy_instances bad_message : Error

abbrev pub service_key : Text → Text → Text
service_key service_name namespace = service_name ++ (b'.' ∷ namespace)

abbrev pub endpoint_id : Text → Text → Text → Text
endpoint_id namespace service_name pod_id = namespace ++ (b'-' ∷ (service_name ++ (b'-' ∷ pod_id)))

abbrev first_port : List ℤ → ℤ
first_port [] = pos 0
first_port (p ∷ ports) = p

-- The node's address if the cluster knows the node, else its name.
abbrev address_of : Option Node → Text → Text
address_of none name = name
address_of (some node) name = node.address

unfoldable pub endpoint_for : Map Node → ℕ → Service → Pod → ServiceEndpoint
endpoint_for nodes now service pod = record {
  service_name = service.name;
  namespace = service.namespace;
  pod_id = pod.id;
  pod_name = pod.name;
  node_name = pod.node_name;
  address = address_of (lookup pod.node_name nodes) pod.node_name;
  port = first_port service.ports;
  healthy = true;
  last_seen = now;
}

-- A missing inner map is made first.
abbrev pub endpoints_at : Text → Registry → Map ServiceEndpoint
endpoints_at key reg = elim (lookup key reg) [ none ↦ [] | some endpoints ↦ endpoints ]

unfoldable pub put_endpoint : Text → Text → ServiceEndpoint → Registry → Registry
put_endpoint key id endpoint reg = insert key (insert id endpoint (endpoints_at key reg)) reg

-- A service that has lost its last endpoint is deleted.
abbrev shrink : Text → Map ServiceEndpoint → Registry → Registry
shrink key [] reg = delete key reg
shrink key (e ∷ endpoints) reg = insert key (e ∷ endpoints) reg

abbrev remove_in : Text → Text → Option (Map ServiceEndpoint) → Registry → Registry
remove_in key id none reg = reg
remove_in key id (some endpoints) reg = shrink key (delete id endpoints) reg

-- The deletion from both maps, as a deregistration here or a message asks for it.
unfoldable pub remove_endpoint : Text → Text → Registry → Registry
remove_endpoint key id reg = remove_in key id (lookup key reg) reg

-- What broadcastServiceUpdate does with an endpoint and an action: it logs its errors and returns, or
-- the library panics below it.
abbrev pub Update : Type 0
Update = ServiceEndpoint → Text → Call

-- The registry with the new endpoint under its two keys.
abbrev pub registered_endpoint : Map Node → ℕ → Service → Pod → Registry → Registry
registered_endpoint nodes now service pod =
    put_endpoint (service_key service.name service.namespace)
      (endpoint_id service.namespace service.name pod.id) (endpoint_for nodes now service pod)

-- RegisterService: the entry is set before the broadcast, and the mutex is released either way.
unfoldable pub register_service : Update → Map Node → ℕ → Service → Pod → Registry → Registry × Call
unfolding endpoint_for put_endpoint
register_service update nodes now service pod reg = (
  registered_endpoint nodes now service pod reg,
  update (endpoint_for nodes now service pod) (str "register"),
)

abbrev pub find_at : Text → Text → Registry → Option ServiceEndpoint
find_at key id reg = lookup id (endpoints_at key reg)

abbrev pub after_broadcast : Call → Text → Text → Registry → Registry × Call
after_broadcast returns key id reg = (remove_endpoint key id reg, returns)
after_broadcast panics key id reg = (reg, panics)

abbrev pub deregister_found :
    Update → Text → Text → Option ServiceEndpoint → Registry → Registry × Call
deregister_found update key id none reg = (reg, returns)
deregister_found update key id (some e) reg =
    after_broadcast (update e (str "deregister")) key id reg

-- DeregisterService: an endpoint that exists is broadcast first, and deleted if the broadcast returns.
unfoldable pub deregister_service : Update → Service → Pod → Registry → Registry × Call
unfolding remove_endpoint
deregister_service update service pod reg =
    let key = service_key service.name service.namespace in
    let id = endpoint_id service.namespace service.name pod.id in
    deregister_found update key id (find_at key id reg) reg

-- 30 * time.Second
abbrev pub stale_after : ℕ
stale_after = 30 * 1_000_000_000

-- `endpoint.Healthy && time.Since(endpoint.LastSeen) < 30*time.Second`
abbrev pub is_fresh : ℕ → ServiceEndpoint → Bool
is_fresh now e = e.healthy && ltb (now - e.last_seen) stale_after

unfoldable pub get_service_endpoints :
    ℕ → Text → Text → Registry → Result Error (List ServiceEndpoint)
get_service_endpoints now service_name namespace reg =
    elim (lookup (service_key service_name namespace) reg) [
      | none ↦ err service_not_found
      | some endpoints ↦ ok (keep (is_fresh now) (values endpoints))
    ]

-- fmt.Sprintf("%s:%d", endpoint.Address, endpoint.Port)
abbrev pub endpoint_address : ServiceEndpoint → Text
endpoint_address e = e.address ++ (b':' ∷ format_int e.port)

abbrev some_addresses : List ServiceEndpoint → Result Error (List Text)
some_addresses [] = err no_healthy_instances
some_addresses (e ∷ es) = ok (map endpoint_address (e ∷ es))

unfoldable pub get_service_addresses : ℕ → Text → Text → Registry → Result Error (List Text)
get_service_addresses now service_name namespace reg =
    elim (lookup (service_key service_name namespace) reg) [
      | none ↦ err service_not_found
      | some endpoints ↦ some_addresses (keep (is_fresh now) (values endpoints))
    ]

-- One round of the health check's ticker.
check_endpoint : ℕ → ServiceEndpoint → ServiceEndpoint
check_endpoint now e =
    if ltb stale_after (now - e.last_seen) then record e { healthy = false } else e

unfoldable pub health_check : ℕ → Registry → Registry
unfolding check_endpoint
health_check now = map λ s. (s.0, map (λ e. (e.0, check_endpoint now e.1)) s.1)

abbrev is_served : Text × List ServiceEndpoint → Bool
is_served (key, []) = false
is_served (key, e ∷ es) = true

-- ListServices: the services that have a fresh endpoint.
unfoldable pub list_services : ℕ → Registry → Map (List ServiceEndpoint)
list_services now reg = keep is_served (map (λ s. (s.0, keep (is_fresh now) (values s.1))) reg)
