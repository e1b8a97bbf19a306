-- ===== src/Api/Middleware.antt =====
-- internal/api/middleware.go: who may call the HTTP interface.
use podman_swarm.Base.{
  ℕ, ◌≡◌, ◌≢◌, ◌↔◌, ◌⊎◌, refl, ◌++◌, Bool, true, false, ok, arith, if◌then◌else◌, not,
}
use podman_swarm.Base.Text.{Text, str, ◌==◌, eq_iff, eq_refl}
use podman_swarm.Base.Text.Affix.{has_prefix, trim_prefix, has_prefix-append, trim_prefix-append}
use podman_swarm.Security.ApiTokens.{ApiTokenManager, validate_token, revoke_token}
use podman_swarm.Security.ApiTokens.Validity.{validate-revoke}

-- c.Request.URL.Path and c.GetHeader("Authorization"), which is empty when the header is missing.
pub record Request : Type 0 where
  pub path : Text
  pub authorization : Text

-- c.Next(), or the two answers with status 401.
pub data Verdict : Type 0 where
  next missing_header invalid_token : Verdict

abbrev pub health_path : Text
health_path = str "/api/v1/health"

abbrev pub bearer : Text
bearer = str "Bearer "

unfoldable pub extract_token : Text → Text
extract_token header = if has_prefix header bearer then trim_prefix header bearer else header

unfoldable pub auth_middleware : ApiTokenManager → Bool → ℕ → Request → Verdict
auth_middleware tm enabled now r =
    if not enabled
    then next
    else if r.path == health_path
    then next
    else if r.authorization == str ""
    then missing_header
    else if not (validate_token now (extract_token r.authorization) tm)
    then invalid_token
    else next

-- Exactly when a request goes through: with authentication off, on the health path, or with a header
-- that is not empty and holds a token that the manager accepts.
pub next_iff :
    (tm : ApiTokenManager) (enabled : Bool) (now : ℕ) (r : Request)
    → (auth_middleware tm enabled now r ≡ next) ↔ (
        (enabled ≡ false)
        ⊎ ((r.path ≡ health_path)
            ⊎ ((r.authorization ≢ str "")
                × (validate_token now (extract_token r.authorization) tm ≡ true))))
unfolding auth_middleware
next_iff tm enabled now r = (
  λ h. ground (arith, eq_iff r.path health_path, eq_iff r.authorization (str "")),
  λ h. ground (arith, eq_iff r.path health_path, eq_iff r.authorization (str "")),
)

pub extract-bearer : (token : Text) → extract_token (bearer ++ token) ≡ token
unfolding extract_token
extract-bearer token =
    ground (arith, has_prefix-append bearer token, trim_prefix-append bearer token)

bearer_not_empty : (token : Text) → (bearer ++ token == str "") ≡ false
unfolding ◌==◌
bearer_not_empty token = refl

-- Once a token is revoked, a request whose header presents it, plainly or after "Bearer ", is refused
-- with status 401 at any later time, when authentication is on and the path is not the health path.
pub revoked_is_refused :
    (token : Text) (tm tm' : ApiTokenManager) (later : ℕ) (r : Request)
    → revoke_token token tm ≡ ok tm'
    → r.path ≢ health_path
    → r.authorization ≢ str ""
    → extract_token r.authorization ≡ token
    → auth_middleware tm' true later r ≡ invalid_token
unfolding auth_middleware
revoked_is_refused token tm tm' later r e other present presents = ground (
  arith,
  eq_iff r.path health_path,
  eq_iff r.authorization (str ""),
  presents,
  validate-revoke token tm tm' e later token,
  eq_refl token,
)
