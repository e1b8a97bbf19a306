-- ===== src/Agent/Tokens.antt =====
-- The API token of the configuration.
use podman_swarm.Base.{ℕ, ◌≡◌, ◌≢◌, ap, ◌∙◌, true, none, some, [], ◌∷◌, ◌++◌, arith}
use podman_swarm.Base.Text.{Text, str, eq_iff}
use podman_swarm.Base.Map.{lookup, insert, lookup-insert, lookup-nil}
use podman_swarm.Config.{Config}
use podman_swarm.Security.{Crypto}
use podman_swarm.Security.ApiTokens.{
  ApiToken, ApiTokenManager, new_manager, generate_token, validate_token,
}
use podman_swarm.Api.Middleware.{
  Request, auth_middleware, invalid_token, health_path, extract_token,
}
use podman_swarm.Agent.{start_api_tokens}

abbrev sole : Crypto → Text → ℕ → Text → ApiToken
sole c secret now b = record {
  token = c.encode_64 b;
  hash = c.digest (secret ++ b);
  name = str "default";
  created_at = now;
  expires_at = none;
}

-- The table that the agent starts with.
started_tokens :
    (c : Crypto) (cfg : Config) (key : Text) (now : ℕ) (b random : Text) (tm : ApiTokenManager)
    → cfg.api_token ≢ []
    → start_api_tokens c cfg key now (some b) random ≡ some tm
    → tm.tokens ≡ insert (c.encode_64 b) (sole c tm.secret now b) []
unfolding start_api_tokens generate_token new_manager
started_tokens c cfg [] now b random tm given e = ground (arith, eq_iff cfg.api_token [])
started_tokens c cfg (k ∷ key) now b random tm given e = ground (arith, eq_iff cfg.api_token [])

-- An agent that is given an API token does not accept it: a request that presents it is refused with
-- status 401 at any time, unless the random token that the agent makes instead is the same. The path
-- is not the health path, the header is not empty, and authentication is on.
configured_token_refused :
    (c : Crypto) (cfg : Config) (key : Text) (now later : ℕ) (b random : Text)
    (tm : ApiTokenManager) (r : Request)
    → cfg.api_token ≢ []
    → cfg.api_token ≢ c.encode_64 b
    → start_api_tokens c cfg key now (some b) random ≡ some tm
    → r.path ≢ health_path
    → r.authorization ≢ str ""
    → extract_token r.authorization ≡ cfg.api_token
    → auth_middleware tm true later r ≡ invalid_token
unfolding auth_middleware validate_token
configured_token_refused c cfg key now later b random tm r given other e path header presents =
    let unknown : lookup (extract_token r.authorization) tm.tokens ≡ none =
      ap (lookup (extract_token r.authorization)) (started_tokens c cfg key now b random tm given e)
      ∙ lookup-insert (c.encode_64 b) (extract_token r.authorization) (sole c tm.secret now b) []
      ∙ ground (
        arith,
        eq_iff (c.encode_64 b) (extract_token r.authorization),
        lookup-nil ApiToken (extract_token r.authorization),
      ) in
    ground (arith, eq_iff r.path health_path, eq_iff r.authorization (str ""))
