-- ===== src/Api/Server/Tests.antt =====
-- A token that is revoked over the interface, and then presented again.
use podman_swarm.Base.{◌≡◌, refl, true, none, some, [], ◌∷◌, ◌&&◌, All, inr, if◌then◌else◌}
use podman_swarm.Base.Text.{str, ◌==◌}
use podman_swarm.Base.Text.Affix.{has_prefix, trim_prefix}
use podman_swarm.Base.Map.{lookup}
use podman_swarm.Storage.{Codec, Io, written, empty}
use podman_swarm.Security.{Crypto}
use podman_swarm.Security.ApiTokens.{ApiToken, forget, validate_token, revoke_token}
use podman_swarm.Types.{panics, running}
use podman_swarm.Base.Int.{pos}
use podman_swarm.Api.Middleware.{auth_middleware, extract_token}
use podman_swarm.Api.Tokens.{revoked, revoke_api_token}
use podman_swarm.Api.Server.{
  Server, Gin, Inputs, HttpRequest, tokened, revokes_token, routes, route_of, run_handler,
  serve_request, serve_all,
}
use podman_swarm.Api.Server.Revocation.{IsUnauthorized, Presents, revoked_powerless}

abbrev crypto : Crypto
crypto = record { encode_64 = λ b. b; decode_64 = λ b. some b; digest = λ b. b }

abbrev codec : Codec
codec = record { marshal = λ st. some (str "{}"); unmarshal = λ b. none }

-- Paths that are patterns, and one with a parameter.
abbrev gin : Gin
gin = record {
  params = λ pattern path.
      if pattern == str "/api/v1/tokens/:token" && path == str "/api/v1/tokens/t1"
      then some (λ name. str "t1")
      else if pattern == path
      then some (λ name. [])
      else none;
  decode = λ doc. none;
  whitelist = λ body. none;
  host = λ body. none;
  token = λ body. none;
}

abbrev io : Io
io = record { now = 5; write = written; rename_ok = true; read_ok = true; mkdir_ok = true }

abbrev inputs : Inputs
inputs = record {
  now = 7;
  bytes = none;
  nodes = [];
  io = io;
  io' = io;
  io'' = io;
  updates = λ j e action. panics;
  objects = λ n. record {
    io = io;
    pods = λ j. record {
      id = str "g";
      created_at = pos 1;
      random = λ k. 0;
      container = none;
      start_ok = true;
      state = running;
    };
    clock = λ j. 9;
    updates = λ j e action. panics;
  };
}

abbrev ci : ApiToken
ci = record {
  token = str "t1";
  hash = str "h1";
  name = str "ci";
  created_at = 1;
  expires_at = none;
}

abbrev server : Server
server = record {
  state = record {
    agent = record { deployments = []; storage = empty; disk = []; pods = [] };
    services = [];
    ingresses = [];
    registry = [];
    controller = none;
  };
  tokens = record {
    tokens = (str "t1", ci) ∷ [];
    hashes = (str "h1", str "t1") ∷ [];
    secret = str "s";
  };
  dns = none;
}

abbrev after : Server
after = record server { tokens = forget (str "t1") ci server.tokens }

abbrev revocation : HttpRequest
revocation = record {
  head = record { path = str "/api/v1/tokens/t1"; authorization = str "t1" };
  method = str "DELETE";
  body = none;
}

abbrev deletion : HttpRequest
deletion = record {
  head = record { path = str "/api/v1/manifests/ns/web"; authorization = str "Bearer t1" };
  method = str "DELETE";
  body = none;
}

routed :
    route_of gin revocation.method revocation.head.path routes
    ≡ some (revokes_token, λ name. str "t1")
unfolding route_of ◌==◌
routed = refl

served :
    serve_request crypto codec (str "n1") gin true inputs revocation server
    ≡ (after, tokened revoked)
unfolding serve_request auth_middleware extract_token validate_token has_prefix route_of run_handler
    revoke_api_token revoke_token lookup ◌==◌
served = refl

presented : extract_token deletion.head.authorization ≡ str "t1"
unfolding extract_token has_prefix trim_prefix ◌==◌
presented = refl

deletion-Presents : Presents (str "t1") (inputs, deletion)
deletion-Presents = ((λ e. cc), inr presented)

revoked_powerless_example :
    ((serve_all crypto codec (str "n1") gin true ((inputs, deletion) ∷ []) after).0 ≡ after)
    × All IsUnauthorized
        (serve_all crypto codec (str "n1") gin true ((inputs, deletion) ∷ []) after).1
revoked_powerless_example =
    revoked_powerless crypto codec (str "n1") gin inputs revocation server after (λ name. str "t1")
      ((inputs, deletion) ∷ []) routed served (deletion-Presents, tt)
