-- ===== src/Api/Tokens.antt =====
-- internal/api/api.go: the handlers of the API tokens.
pub mod Access
use podman_swarm.Base.{
  ℕ, zero, suc, ◌+◌, ◌-◌, ◌*◌, ◌%◌, ltb, Bool, true, false, Option, none, some, List, [], ◌∷◌,
  Result, ok, err, length, if◌then◌else◌,
}
use podman_swarm.Base.Text.{Text, str, ◌==◌}
use podman_swarm.Base.Int.{ℤ, pos, negsuc}
use podman_swarm.Security.{Crypto}
use podman_swarm.Security.ApiTokens.{
  ApiToken, ApiTokenManager, generate_token, revoke_token, list_tokens,
}

pub record TokenRequest : Type 0 where
  pub name : Text
  pub expires_in : ℤ

pub data Answer : Type 0 where
  bad_request name_required generate_failed token_required token_not_found revoked : Answer
  created : (token name : Text) (expires_at : Option ℕ) → Answer
  listed : List ApiToken → ℕ → Answer

-- time.Now().Add(d), where the nanoseconds of the duration d have wrapped to a signed word of 64 bits:
-- those from 2^63 on stand for a negative one. Times are in nanoseconds; one before 1970 reads as 0.
abbrev pub add_duration : ℕ → ℕ → ℕ
add_duration now d =
    if ltb d 9_223_372_036_854_775_808 then now + d else now - (18_446_744_073_709_551_616 - d)

-- No time, or that many seconds from now, if they are few enough not to wrap.
abbrev pub expiry : ℕ → ℤ → Option ℕ
expiry now (pos zero) = none
expiry now (pos (suc n)) =
    some (add_duration now (suc n * 1_000_000_000 % 18_446_744_073_709_551_616))
expiry now (negsuc n) = none

-- The body that does not bind is `none`, and so are random bytes that cannot be read.
unfoldable pub generate_api_token :
    Crypto → ℕ → Option Text → Option TokenRequest → ApiTokenManager → Answer × ApiTokenManager
generate_api_token c now bytes none tm = (bad_request, tm)
generate_api_token c now bytes (some r) tm =
    if r.name == str ""
    then (name_required, tm)
    else elim (generate_token c now bytes r.name (expiry now r.expires_in) tm) [
      | err e ↦ (generate_failed, tm)
      | ok made ↦ (created made.0 r.name (expiry now r.expires_in), made.1)
    ]

unfoldable pub list_api_tokens : ApiTokenManager → Answer
list_api_tokens tm = listed (list_tokens tm) (length (list_tokens tm))

unfoldable pub revoke_api_token : Text → ApiTokenManager → Answer × ApiTokenManager
revoke_api_token token tm =
    if token == str ""
    then (token_required, tm)
    else elim (revoke_token token tm) [ err e ↦ (token_not_found, tm) | ok tm' ↦ (revoked, tm') ]
