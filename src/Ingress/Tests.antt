-- ===== src/Ingress/Tests.antt =====
-- Concrete requests: the theorems at inputs where their hypotheses hold.
use podman_swarm.Base.{ℕ, ◌≡◌, refl, true, Bool, none, some, [], ◌∷◌, In, ok}
use podman_swarm.Base.Text.{Text, str, ◌==◌}
use podman_swarm.Base.Text.Affix.{has_prefix}
use podman_swarm.Base.Text.Decimal.{format_int, decimal}
use podman_swarm.Base.Int.{pos}
use podman_swarm.Base.Map.{lookup, insert, values}
use podman_swarm.Types.{Ingress, IngressPath}
use podman_swarm.Discovery.{ServiceEndpoint, Registry, get_service_endpoints}
use podman_swarm.Ingress.Lock.{free}
use podman_swarm.Ingress.{
  Controller, waits, proxied, matches_path, find_route, handle_request, add_ingress, remove_ingress,
  proxy_request, endpoint_at,
}
use podman_swarm.Ingress.Routes.{IsRoute, Offers, find_route_lem}
use podman_swarm.Ingress.Hanging.{hung, ingress_hangs}

abbrev path : IngressPath
path = record {
  path = str "/api";
  path_type = none;
  service_name = str "web";
  service_port = pos 80;
}

abbrev site : Ingress
site = record {
  name = str "site";
  namespace = str "default";
  rules = record { host = str "example.com"; paths = path ∷ [] } ∷ [];
  labels = [];
  annotations = [];
}

abbrev endpoint : Text → ServiceEndpoint
endpoint node = record {
  service_name = str "web";
  namespace = str "default";
  pod_id = node;
  pod_name = node;
  node_name = node;
  address = node;
  port = pos 80;
  healthy = true;
  last_seen = 5;
}

abbrev registry : Registry
registry = (str "web.default", (str "default-web-n2", endpoint (str "n2")) ∷ []) ∷ []

abbrev controller : Controller
controller = record {
  mu = free;
  rules = (str "default/site", site) ∷ [];
  proxies = [];
  round_robin_idx = [];
  local_node_name = str "n1";
}

abbrev any_url : Text → Bool
any_url t = true

routed :
    find_route (str "example.com") (str "/api/v1") (values controller.rules) ≡ some (site, path)
unfolding find_route matches_path has_prefix ◌==◌
routed = refl

fresh : get_service_endpoints 6 (str "web") (str "default") registry ≡ ok (endpoint (str "n2") ∷ [])
unfolding get_service_endpoints lookup ◌==◌
fresh = refl

find_route_lem_example :
    ((ingress : Ingress) (p : IngressPath)
      → find_route (str "example.com") (str "/api/v1") (site ∷ []) ≡ some (ingress, p)
      → IsRoute (str "example.com") (str "/api/v1") (site ∷ []) ingress p)
    × (find_route (str "example.com") (str "/api/v1") (site ∷ []) ≡ none
        → (ingress : Ingress) → In ingress (site ∷ [])
        → ¬ Offers (str "example.com") (str "/api/v1") ingress)
find_route_lem_example = find_route_lem (str "example.com") (str "/api/v1") (site ∷ [])

ingress_hangs_example :
    let start = record controller { mu = free } in
    let stuck = record controller { mu = hung } in
    (handle_request any_url 6 registry (str "example.com") (str "/api/v1") start ≡ waits stuck)
    × ((later : ℕ) (reg : Registry) (host request : Text)
        → handle_request any_url later reg host request stuck ≡ waits stuck)
    × ((new : Ingress)
        → (c : Controller) × (add_ingress new stuck ≡ waits c) × (c.rules ≡ controller.rules))
    × ((namespace name : Text)
        → (c : Controller) × (remove_ingress namespace name stuck ≡ waits c)
          × (c.rules ≡ controller.rules))
ingress_hangs_example =
    ingress_hangs any_url 6 registry (str "example.com") (str "/api/v1") controller site path
      (endpoint (str "n2")) [] routed fresh

abbrev with_proxy : Controller
with_proxy = record controller {
  proxies = (str "default/web", str "n2:80") ∷ [];
  round_robin_idx = (str "default/web", 0) ∷ [];
}

first_request :
    proxy_request any_url (str "default/web") (endpoint (str "n2") ∷ []) controller
    ≡ some (proxied (str "n2:80"), with_proxy)
unfolding proxy_request endpoint_at lookup insert format_int decimal ◌==◌
first_request = refl
