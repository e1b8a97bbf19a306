-- ===== src/Ingress.antt =====
-- internal/ingress/ingress.go: HTTP requests from outside, sent on to the services of the cluster.
pub mod Lock
pub mod Free
pub mod Routes
pub mod Proxies
pub mod Hanging
mod Tests
use podman_swarm.Base.{
  ℕ, zero, suc, ◌+◌, ◌%◌, Bool, true, false, Option, none, some, List, [], ◌∷◌, ◌++◌, ◌||◌, length,
  Result, ok, err, if◌then◌else◌,
}
use podman_swarm.Base.Text.{Text, str, ◌==◌}
use podman_swarm.Base.Text.Affix.{has_prefix}
use podman_swarm.Base.Text.Decimal.{format_int}
use podman_swarm.Base.Map.{Map, lookup, insert, delete, values}
use podman_swarm.Kube.{PathType, exact, prefix, implementation_specific, other_type}
use podman_swarm.Types.{Ingress, IngressRule, IngressPath}
use podman_swarm.Discovery
use podman_swarm.Discovery.{ServiceEndpoint, Registry, get_service_endpoints, endpoint_address}
use podman_swarm.Ingress.Lock.{Mutex, free, rlock, runlock, lock, wait, unlock}

-- Of a proxy, the target that it was made for.
pub record Controller : Type 0 where
  pub mu : Mutex
  pub rules : Map Ingress
  pub proxies : Map Text
  pub round_robin_idx : Map ℕ
  pub local_node_name : Text

unfoldable pub new_ingress_controller : Text → Controller
new_ingress_controller local_node_name = record {
  mu = free;
  rules = [];
  proxies = [];
  round_robin_idx = [];
  local_node_name = local_node_name;
}

-- matchesPath: the tests on lengths and slices are those of a prefix.
unfoldable pub matches_path : Text → Text → Option PathType → Bool
matches_path request [] type = true
matches_path request (c ∷ path) none = has_prefix request (c ∷ path)
matches_path request (c ∷ path) (some exact) = request == (c ∷ path)
matches_path request (c ∷ path) (some prefix) = has_prefix request (c ∷ path)
matches_path request (c ∷ path) (some implementation_specific) = has_prefix request (c ∷ path)
matches_path request (c ∷ path) (some (other_type t)) = false

-- The innermost loop: the first path of a rule that matches.
pub first_path : Text → List IngressPath → Option IngressPath
unfolding matches_path
first_path request [] = none
first_path request (p ∷ paths) =
    let rest = first_path request paths in
    if matches_path request p.path p.path_type then some p else rest

abbrev pub for_host : Text → IngressRule → Bool
for_host host rule = rule.host == host || rule.host == str ""

abbrev or_else : {A : Type 0} → Option A → Option A → Option A
or_else none o = o
or_else (some a) o = some a

pub first_rule : Text → Text → List IngressRule → Option IngressPath
unfolding first_path
first_rule host request [] = none
first_rule host request (rule ∷ rules) =
    let rest = first_rule host request rules in
    if for_host host rule then or_else (first_path request rule.paths) rest else rest

abbrev with_ingress : Ingress → Option IngressPath → Option (Ingress × IngressPath)
with_ingress ingress none = none
with_ingress ingress (some p) = some (ingress, p)

-- The loop over the rules of the controller.
unfoldable pub find_route : Text → Text → List Ingress → Option (Ingress × IngressPath)
unfolding first_rule
find_route host request [] = none
find_route host request (ingress ∷ ingresses) =
    or_else (with_ingress ingress (first_rule host request ingress.rules))
      (find_route host request ingresses)

-- A call returns, panics on the list of endpoints, or waits for the mutex for ever.
pub data Called (A : Type 0) : Type 0 where
  returned : A → Controller → Called A
  panicked : Called A
  waits : Controller → Called A

pub data Response : Type 0 where
  not_found service_unavailable invalid_target : Response
  proxied : (target : Text) → Response

abbrev pub object_key : Text → Text → Text
object_key namespace name = namespace ++ (b'/' ∷ name)

-- AddIngress and RemoveIngress hold the write lock.
abbrev locked : Option Mutex → (Controller → Controller) → Controller → Called Unit
locked none change ic = waits (record ic { mu = wait ic.mu })
locked (some held) change ic = returned tt (record (change ic) { mu = unlock held })

unfoldable pub add_ingress : Ingress → Controller → Called Unit
add_ingress ingress ic =
    locked (lock ic.mu)
      (λ c. record c { rules = insert (object_key ingress.namespace ingress.name) ingress c.rules })
      ic

unfoldable pub remove_ingress : Text → Text → Controller → Called Unit
remove_ingress namespace name ic =
    locked (lock ic.mu)
      (λ c. record c {
        rules = delete (object_key namespace name) c.rules;
        proxies = delete (object_key namespace name) c.proxies;
      })
      ic

-- endpoints[i]; an index out of range panics.
pub endpoint_at : ℕ → List ServiceEndpoint → Option ServiceEndpoint
endpoint_at i [] = none
endpoint_at zero (e ∷ es) = some e
endpoint_at (suc i) (e ∷ es) = endpoint_at i es

abbrev count_of : Option ℕ → ℕ
count_of none = 0
count_of (some n) = n

abbrev pub target_of : Text → ServiceEndpoint → Text
target_of local_node_name e =
    if e.node_name == local_node_name
    then str "localhost:" ++ format_int e.port
    else endpoint_address e

-- The proxy that is kept for the service, or a new one if the target parses as a URL.
abbrev serve : (Text → Bool) → Text → Text → Option Text → Controller → Response × Controller
serve parses key target (some kept) ic = (proxied kept, ic)
serve parses key target none ic =
    if parses target
    then (proxied target, record ic { proxies = insert key target ic.proxies })
    else (invalid_target, ic)

abbrev selected :
    (Text → Bool) → Text → Option ServiceEndpoint → Controller → Option (Response × Controller)
selected parses key none ic = none
selected parses key (some e) ic =
    some (serve parses key (target_of ic.local_node_name e) (lookup key ic.proxies) ic)

-- From the round robin to the proxy, under the locks: `none` is a panic.
unfoldable pub proxy_request :
    (Text → Bool) → Text → List ServiceEndpoint → Controller → Option (Response × Controller)
unfolding endpoint_at
proxy_request parses key [] ic = none
proxy_request parses key (e ∷ es) ic =
    let n = suc (length es) in
    let idx = count_of (lookup key ic.round_robin_idx) in
    let advanced = record ic { round_robin_idx = insert key ((idx + 1) % n) ic.round_robin_idx } in
    selected parses key (endpoint_at (idx % n) (e ∷ es)) advanced

-- What a request does with the endpoints of its service while it holds the read lock.
abbrev pub on_service :
    (Text → Bool)
    → Text
    → Result Discovery.Error (List ServiceEndpoint)
    → Controller
    → Called Response
unfolding endpoint_at
on_service parses key (err e) ic = returned service_unavailable (record ic { mu = runlock ic.mu })
on_service parses key (ok []) ic = returned service_unavailable (record ic { mu = runlock ic.mu })
on_service parses key (ok (e ∷ es)) ic = elim (lock ic.mu) [
  | none ↦ waits (record ic { mu = wait ic.mu })
  | some held ↦ elim (proxy_request parses key (e ∷ es) (record ic { mu = unlock held })) [
    | none ↦ panicked
    | some (response, done) ↦ returned response (record done { mu = runlock done.mu })
  ]
]

abbrev pub on_route :
    (Text → Bool) → ℕ → Registry → Option (Ingress × IngressPath) → Controller → Called Response
on_route parses now reg none ic = returned not_found (record ic { mu = runlock ic.mu })
on_route parses now reg (some (ingress, p)) ic =
    on_service parses (object_key ingress.namespace p.service_name)
      (get_service_endpoints now p.service_name ingress.namespace reg) ic

-- handleRequest, which takes the read lock first and gives it back as it returns. `parses` is
-- whether url.Parse takes the target.
unfoldable pub handle_request :
    (Text → Bool) → ℕ → Registry → Text → Text → Controller → Called Response
unfolding find_route proxy_request
handle_request parses now reg host path ic = elim (rlock ic.mu) [
  | none ↦ waits ic
  | some held ↦
      on_route parses now reg (find_route host path (values ic.rules)) (record ic { mu = held })
]
