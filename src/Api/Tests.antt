-- ===== src/Api/Tests.antt =====
-- Concrete requests: the theorems at inputs where their hypotheses hold.
use mathlib.Core.Option.{some-injective}
use mathlib.Core.List.{head-eq_of_cons-eq}
use podman_swarm.Base.{
  ◌∙◌, In, inl, ap, ℕ, arith, some, inr, ◌≡◌, ◌≢◌, refl, true, none, [], ◌∷◌, ◌++◌,
}
use podman_swarm.Kube.{DeploymentObject}
use podman_swarm.Types.{Node, Pod, running}
use podman_swarm.Storage.{Codec, Io, written, empty, object_key}
use podman_swarm.Scheduler.{schedule_pod, node_at, update_pod_state}
use podman_swarm.Parser.{parse_deployment, extract_pod_from_template}
use podman_swarm.Api.Deployments.{
  PodIo, Agent, make_pods, start_local, apply_deployment, delete_cached_deployment,
}
use podman_swarm.Api.Deployments.Leaks.{local_pods_leak}
use podman_swarm.Base.Int.{pos}
use podman_swarm.Security.{Crypto}
use podman_swarm.Security.ApiTokens.{generate_token}
use podman_swarm.Api.Tokens.{TokenRequest, expiry, generate_api_token}
use podman_swarm.Api.Tokens.Access.{created_token_passes}
use podman_swarm.Base.Text.{Text}
use podman_swarm.Base.Map.{insert}
use podman_swarm.Base.Text.{str, ◌==◌}
use podman_swarm.Base.Text.Affix.{has_prefix, trim_prefix}
use podman_swarm.Base.Map.{lookup}
use podman_swarm.Security.ApiTokens.{
  ApiToken, ApiTokenManager, validate_token, revoke_token, forget,
}
use podman_swarm.Api.Middleware.{
  Request, auth_middleware, extract_token, next, invalid_token, bearer, revoked_is_refused,
}

abbrev ci : ApiToken
ci = record {
  token = str "t1";
  hash = str "h1";
  name = str "ci";
  created_at = 1;
  expires_at = none;
}

abbrev tm : ApiTokenManager
tm = record { tokens = (str "t1", ci) ∷ []; hashes = (str "h1", str "t1") ∷ []; secret = str "s" }

abbrev pods : Request
pods = record { path = str "/api/v1/pods"; authorization = str "Bearer t1" }

passes : auth_middleware tm true 3 pods ≡ next
unfolding auth_middleware extract_token validate_token lookup has_prefix trim_prefix ◌==◌
passes = refl

revoked_is_refused_example : auth_middleware (forget (str "t1") ci tm) true 9 pods ≡ invalid_token
revoked_is_refused_example =
    revoked_is_refused (str "t1") tm (forget (str "t1") ci tm) 9 pods
      (unfold revoke_token lookup ◌==◌ in refl) (λ e. cc) (λ e. cc)
      (unfold extract_token has_prefix trim_prefix ◌==◌ in refl)

abbrev crypto : Crypto
crypto = record { encode_64 = λ b. b; decode_64 = λ b. some b; digest = λ b. b }

abbrev request : TokenRequest
request = record { name = str "ci"; expires_in = pos 60 }

abbrev made : ApiTokenManager
made = record {
  tokens =
      (
        str "t2",
        record {
          token = str "t2";
          hash = str "st2";
          name = str "ci";
          created_at = 5;
          expires_at = some 60_000_000_005;
        },
      )
      ∷ [];
  hashes = (str "st2", str "t2") ∷ [];
  secret = str "s";
}

created_token_passes_example :
    auth_middleware made true 9
      (record { path = str "/api/v1/pods"; authorization = bearer ++ str "t2" })
    ≡ next
created_token_passes_example =
    created_token_passes crypto 5 9 (str "t2") request
      (record { tokens = []; hashes = []; secret = str "s" }) made (str "t2") (str "ci")
      (some 60_000_000_005) (str "/api/v1/pods")
      (unfold generate_api_token generate_token insert ◌==◌ in refl) (omega arith, omega arith)

-- So many seconds wrap, to a time that has long passed.
wrapped : expiry 1_700_000_000_000_000_000 (pos 9_223_372_037) ≡ some 0
wrapped = refl

-- A node that is alone, and a deployment of one replica on it.
abbrev n1 : Node
n1 = record { name = str "n1"; address = str "10.0.0.1"; status = str "Ready"; labels = [] }

abbrev web : DeploymentObject
web = record {
  name = str "web";
  namespace = str "default";
  labels = [];
  replicas = some (pos 1);
  template = record { labels = []; annotations = []; containers = []; node_selector = [] };
  selector = none;
}

abbrev pod_io : ℕ → PodIo
pod_io j = record {
  id = str "g";
  created_at = pos 1;
  random = λ n. 0;
  container = some (str "c");
  start_ok = true;
  state = running;
}

abbrev codec : Codec
codec = record { marshal = λ st. some (str "{}"); unmarshal = λ b. none }

abbrev io : Io
io = record { now = 5; write = written; rename_ok = true; read_ok = true; mkdir_ok = true }

abbrev fresh : Agent
fresh = record { deployments = []; storage = empty; disk = []; pods = [] }

n1_alone : (node : Node) → In node (n1 ∷ []) → node.name ≡ str "n1"
n1_alone node (inl e) = ap (λ (x : Node). x.name) e
n1_alone node (inr m) = elim m [ ]

no_error : (apply_deployment codec io (str "n1") (n1 ∷ []) pod_io web fresh).1 ≡ none
unfolding apply_deployment parse_deployment make_pods start_local schedule_pod node_at
    update_pod_state extract_pod_from_template lookup insert ◌==◌
no_error = refl

other_ids : (j : ℕ) (x : Text) → (pod_io j).container ≡ some x → x ≢ (pod_io 0).id
other_ids j x e same =
    let first : ◌≡◌ {A = ℕ} 99 103 = head-eq_of_cons-eq (some-injective _ _ e ∙ same) in omega arith

local_pods_leak_example :
    let after =
      delete_cached_deployment codec io
        (str "default")
        (str "web")
        (apply_deployment codec io (str "n1") (n1 ∷ []) pod_io web fresh).0 in
    (lookup (object_key (str "default") (str "web")) after.deployments ≡ none)
    × ((p : Pod) × (lookup (str "g") after.pods ≡ some p))
local_pods_leak_example =
    local_pods_leak codec io io (str "n1") (n1 ∷ []) pod_io web fresh 0 n1_alone refl other_ids
      no_error
