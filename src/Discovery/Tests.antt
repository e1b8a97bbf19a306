-- ===== src/Discovery/Tests.antt =====
-- Concrete registries: the theorems at inputs where their hypotheses hold.
use podman_swarm.Base.{◌+◌, ◌≡◌, ◌⊎◌, refl, true, [], ◌∷◌, ok, err, arith}
use podman_swarm.Base.Text.{Text, str, ◌==◌}
use podman_swarm.Base.Text.Decimal.{format_int, decimal}
use podman_swarm.Base.Int.{pos}
use podman_swarm.Base.Map.{Map, lookup, insert}
use podman_swarm.Types.{panics, Node, Pod, Service, running}
use podman_swarm.Discovery.{
  ServiceEndpoint, Update, Registry, register_service, deregister_service, get_service_endpoints,
  get_service_addresses, endpoint_for, put_endpoint, stale_after, list_services, service_not_found,
}
use podman_swarm.Discovery.Registry.{IsRegistry}
use podman_swarm.Discovery.Freshness.{SeenBy, health_checks, all_expire}

abbrev nodes : Map Node
nodes =
    (
      str "n1",
      record { name = str "n1"; address = str "10.0.0.1"; status = str "ready"; labels = [] },
    )
    ∷ []

abbrev web : Service
web = record {
  name = str "web";
  namespace = str "default";
  type = str "ClusterIP";
  selector = [];
  ports = pos 80 ∷ [];
  cluster_ip = [];
  labels = [];
}

abbrev pod : Text → Pod
pod id = record {
  id = id;
  name = str "web-0";
  namespace = str "default";
  node_name = str "n1";
  state = running;
  image = str "nginx";
  labels = [];
  annotations = [];
  ports = [];
  env = [];
  volumes = [];
  node_selector = [];
  created_at = pos 1;
}

abbrev endpoint : ServiceEndpoint
endpoint = record {
  service_name = str "web";
  namespace = str "default";
  pod_id = str "c1";
  pod_name = str "web-0";
  node_name = str "n1";
  address = str "10.0.0.1";
  port = pos 80;
  healthy = true;
  last_seen = 5;
}

abbrev registry : Registry
registry = (str "web.default", (str "default-web-c1", endpoint) ∷ []) ∷ []

registers :
    register_service (λ e action. panics) nodes 5 web (pod (str "c1")) [] ≡ (registry, panics)
unfolding register_service put_endpoint endpoint_for lookup insert ◌==◌
registers = refl

addresses :
    get_service_addresses 6 (str "web") (str "default") registry ≡ ok (str "10.0.0.1:80" ∷ [])
unfolding get_service_addresses lookup ◌==◌ format_int decimal
addresses = refl

found : get_service_endpoints 6 (str "web") (str "default") registry ≡ ok (endpoint ∷ [])
unfolding get_service_endpoints lookup ◌==◌
found = refl

seen : SeenBy 5 registry
seen = ((omega arith, tt), tt)

all_expire_example :
    let later = 5 + stale_after in
    let reg = health_checks (10_000_000_005 ∷ 20_000_000_005 ∷ []) registry in
    ((name namespace : Text)
      → (get_service_endpoints later name namespace reg ≡ err service_not_found)
        ⊎ (get_service_endpoints later name namespace reg ≡ ok []))
    × (list_services later reg ≡ [])
all_expire_example =
    all_expire 5 (5 + stale_after) (10_000_000_005 ∷ 20_000_000_005 ∷ []) registry seen
      (omega arith)

empty_IsRegistry : IsRegistry []
unfolding lookup
empty_IsRegistry = record { distinct = tt; inner = λ k m e. cc }

abbrev down_for : Update
down_for e action = panics

-- The broadcast comes before the deletion.
not_deregistered : deregister_service down_for web (pod (str "c1")) registry ≡ (registry, panics)
unfolding deregister_service lookup ◌==◌
not_deregistered = refl
