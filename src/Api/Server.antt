-- ===== src/Api/Server.antt =====
-- internal/api/api.go: SetupRoutes, and a request from the middleware to the answer of its handler. How
-- gin matches a path with a pattern, and the binding of JSON bodies, are parameters.
pub mod Revocation
mod Tests
use podman_swarm.Base.{ℕ, Bool, true, false, Option, none, some, List, [], ◌∷◌, ◌&&◌, if◌then◌else◌}
use podman_swarm.Base.Text.{Text, str, ◌==◌}
use podman_swarm.Base.Map.{Map}
use podman_swarm.Kube.{Object}
use podman_swarm.Types.{Pod, Deployment, Service, Node}
use podman_swarm.Storage.{Codec, Io}
use podman_swarm.Discovery.{ServiceEndpoint, Update}
use podman_swarm.Dns as Dns
use podman_swarm.Security.{Crypto}
use podman_swarm.Security.ApiTokens.{ApiTokenManager}
use podman_swarm.Api.Middleware as Middleware
use podman_swarm.Api.Middleware.{Verdict, next, auth_middleware}
use podman_swarm.Api.Whitelist as Whitelist
use podman_swarm.Api.Whitelist.{
  get_dns_whitelist, set_dns_whitelist, add_dns_whitelist_host, remove_dns_whitelist_host,
}
use podman_swarm.Api.Tokens as Tokens
use podman_swarm.Api.Tokens.{TokenRequest, generate_api_token, list_api_tokens, revoke_api_token}
use podman_swarm.Api.Manifests as Manifests
use podman_swarm.Api.Manifests.{apply_manifest, delete_manifest}
use podman_swarm.Api.Listings as Listings
use podman_swarm.Api.Listings.{
  list_pods, get_pod, list_deployments, get_deployment, list_services, list_nodes,
  service_endpoints, service_addresses, health,
}
use podman_swarm.Api.State.{State, Step}

-- The handlers that the table names.
pub data Handler : Type 0 where
  applies_manifest deletes_manifest : Handler
  lists_pods gets_pod lists_deployments gets_deployment lists_services : Handler
  gets_endpoints gets_addresses lists_nodes tells_health : Handler
  gets_whitelist sets_whitelist adds_host removes_host : Handler
  generates_token lists_tokens revokes_token : Handler

-- Method, pattern and handler, in the order of SetupRoutes.
abbrev pub routes : List (Text × Text × Handler)
routes =
    (str "POST", str "/api/v1/manifests", applies_manifest)
    ∷ (str "DELETE", str "/api/v1/manifests/:namespace/:name", deletes_manifest)
    ∷ (str "GET", str "/api/v1/pods", lists_pods)
    ∷ (str "GET", str "/api/v1/pods/:namespace/:name", gets_pod)
    ∷ (str "GET", str "/api/v1/deployments", lists_deployments)
    ∷ (str "GET", str "/api/v1/deployments/:namespace/:name", gets_deployment)
    ∷ (str "GET", str "/api/v1/services", lists_services)
    ∷ (str "GET", str "/api/v1/services/:namespace/:name/endpoints", gets_endpoints)
    ∷ (str "GET", str "/api/v1/services/:namespace/:name/addresses", gets_addresses)
    ∷ (str "GET", str "/api/v1/nodes", lists_nodes)
    ∷ (str "GET", str "/api/v1/health", tells_health)
    ∷ (str "GET", str "/api/v1/dns/whitelist", gets_whitelist)
    ∷ (str "PUT", str "/api/v1/dns/whitelist", sets_whitelist)
    ∷ (str "POST", str "/api/v1/dns/whitelist/hosts", adds_host)
    ∷ (str "DELETE", str "/api/v1/dns/whitelist/hosts/:host", removes_host)
    ∷ (str "POST", str "/api/v1/tokens", generates_token)
    ∷ (str "GET", str "/api/v1/tokens", lists_tokens)
    ∷ (str "DELETE", str "/api/v1/tokens/:token", revokes_token)
    ∷ []

-- What the handlers read and change, the tokens and the whitelist included.
pub record Server : Type 0 where
  pub state : State
  pub tokens : ApiTokenManager
  pub dns : Option Dns.Server

pub record HttpRequest : Type 0 where
  pub head : Middleware.Request
  pub method : Text
  pub body : Option Text

-- What a request reads besides: the time, random bytes, the nodes, the disk's answers, what each
-- broadcast of a deletion does, and the inputs for each object of a manifest.
pub record Inputs : Type 0 where
  pub now : ℕ
  pub bytes : Option Text
  pub nodes : Map Node
  pub io : Io
  pub io' : Io
  pub io'' : Io
  pub updates : ℕ → Update
  pub objects : ℕ → Manifests.Inputs

-- The library's part: the parameters of a path that a pattern matches, and what a body binds to.
pub record Gin : Type 0 where
  pub params : Text → Text → Option (Text → Text)
  pub decode : Text → Option Object
  pub whitelist : Option Text → Option (Bool × List Text)
  pub host : Option Text → Option Text
  pub token : Option Text → Option TokenRequest

pub data Response : Type 0 where
  unauthorized : Verdict → Response
  no_route : Response
  manifest : Manifests.Answer → Response
  deletion : Step → Response
  pods : List Pod → Response
  pod : Listings.Answer Pod → Response
  deployments : List Deployment → Response
  deployment : Listings.Answer Deployment → Response
  services : List Service → Response
  endpoints : Listings.Answer (List ServiceEndpoint) → Response
  addresses : Listings.Answer Listings.Addresses → Response
  nodes : List Node → Response
  healthy : ℕ → Response
  whitelisted : Whitelist.Answer → Response
  tokened : Tokens.Answer → Response

abbrev on_state : Server → (State → Response) → Server × Response
on_state s answer = (s, answer s.state)

abbrev with_state : {A : Type 0} → Server → (A → Response) → State × A → Server × Response
with_state s answer r = (record s { state = r.0 }, answer r.1)

abbrev with_dns : Server → Whitelist.Answer × Option Dns.Server → Server × Response
with_dns s r = (record s { dns = r.1 }, whitelisted r.0)

abbrev with_tokens : Server → Tokens.Answer × ApiTokenManager → Server × Response
with_tokens s r = (record s { tokens = r.1 }, tokened r.0)

-- The handler for a method and a path, with the parameters of the path.
unfoldable pub route_of :
    Gin → Text → Text → List (Text × Text × Handler) → Option (Handler × (Text → Text))
route_of g method path [] = none
route_of g method path ((m, pattern, h) ∷ table) =
    let rest = route_of g method path table in
    if m == method
    then elim (g.params pattern path) [ none ↦ rest | some param ↦ some (h, param) ]
    else rest

module _ (c : Crypto) (codec : Codec) (local : Text) (g : Gin) where
  unfoldable pub run_handler :
      Handler → (Text → Text) → Inputs → HttpRequest → Server → Server × Response
  run_handler applies_manifest param i r s =
      with_state s manifest (apply_manifest codec local i.nodes g.decode i.objects r.body s.state)
  run_handler deletes_manifest param i r s = with_state s deletion (
      delete_manifest codec i.io i.io' i.io'' i.updates (param (str "namespace"))
        (param (str "name")) s.state)
  run_handler lists_pods param i r s = on_state s (λ st. pods (list_pods st))
  run_handler gets_pod param i r s =
      on_state s (λ st. pod (get_pod (param (str "namespace")) (param (str "name")) st))
  run_handler lists_deployments param i r s = on_state s (λ st. deployments (list_deployments st))
  run_handler gets_deployment param i r s =
      on_state s
        (λ st. deployment (get_deployment (param (str "namespace")) (param (str "name")) st))
  run_handler lists_services param i r s = on_state s (λ st. services (list_services st))
  run_handler gets_endpoints param i r s =
      on_state s (λ st.
        endpoints (service_endpoints i.now (param (str "namespace")) (param (str "name")) st))
  run_handler gets_addresses param i r s =
      on_state s (λ st.
        addresses (service_addresses i.now (param (str "namespace")) (param (str "name")) st))
  run_handler lists_nodes param i r s = (s, nodes (list_nodes i.nodes))
  run_handler tells_health param i r s = (s, healthy (health i.nodes))
  run_handler gets_whitelist param i r s = (s, whitelisted (get_dns_whitelist s.dns))
  run_handler sets_whitelist param i r s = with_dns s (set_dns_whitelist (g.whitelist r.body) s.dns)
  run_handler adds_host param i r s = with_dns s (add_dns_whitelist_host (g.host r.body) s.dns)
  run_handler removes_host param i r s =
      with_dns s (remove_dns_whitelist_host (param (str "host")) s.dns)
  run_handler generates_token param i r s =
      with_tokens s (generate_api_token c i.now i.bytes (g.token r.body) s.tokens)
  run_handler lists_tokens param i r s = (s, tokened (list_api_tokens s.tokens))
  run_handler revokes_token param i r s =
      with_tokens s (revoke_api_token (param (str "token")) s.tokens)

  abbrev dispatch :
      Option (Handler × (Text → Text)) → Inputs → HttpRequest → Server → Server × Response
  dispatch none i r s = (s, no_route)
  dispatch (some (h, param)) i r s = run_handler h param i r s

  abbrev pub admitted : Verdict → Inputs → HttpRequest → Server → Server × Response
  admitted next i r s = dispatch (route_of g r.method r.head.path routes) i r s
  admitted v i r s = (s, unauthorized v)

  -- A request with authentication on or off: the middleware, the route, the handler.
  unfoldable pub serve_request : Bool → Inputs → HttpRequest → Server → Server × Response
  serve_request enabled i r s = admitted (auth_middleware s.tokens enabled i.now r.head) i r s

  -- One request after the other, with the answers.
  unfoldable pub serve_all : Bool → List (Inputs × HttpRequest) → Server → Server × List Response
  serve_all enabled [] s = (s, [])
  serve_all enabled ((i, r) ∷ rest) s =
      let (s', answer) = serve_request enabled i r s in
      let (s'', answers) = serve_all enabled rest s' in (s'', answer ∷ answers)
