-- ===== src/Security/JoinTokens.antt =====
-- internal/security/token.go: the tokens by which nodes join a cluster.
pub mod Laws
use podman_swarm.Base.{
  is_empty, ℕ, Bool, true, false, Option, none, some, List, [], ◌∷◌, ◌++◌, ◌||◌, Result, ok, err,
  map, any, if◌then◌else◌, ltb,
}
use podman_swarm.Base.Text.{Text, ◌==◌}
use podman_swarm.Base.Map.{Map, lookup, insert, delete, values}
use podman_swarm.Security.{Crypto}

pub record Token : Type 0 where
  pub value : Text
  pub hash : Text
  pub created_at : ℕ
  pub expires_at : Option ℕ

pub record TokenManager : Type 0 where
  pub tokens : Map Token
  pub secret : Text

pub data Error : Type 0 where
  no_randomness : Error

unfoldable pub get_secret : TokenManager → Text
get_secret tm = tm.secret

-- NewTokenManager; the last argument is the random secret that an absent one is replaced by.
unfoldable pub new_manager : Text → Text → TokenManager
new_manager [] random = record { tokens = []; secret = random }
new_manager (b ∷ secret) random = record { tokens = []; secret = b ∷ secret }

unfoldable pub generate_token :
    Crypto → ℕ → Option Text → TokenManager → Result Error (Text × TokenManager)
generate_token c now none tm = err no_randomness
generate_token c now (some bytes) tm =
    let token = c.encode_64 bytes in
    ok (
      token,
      record tm {
        tokens =
            insert token
              (record {
                value = token;
                hash = c.digest (tm.secret ++ bytes);
                created_at = now;
                expires_at = none;
              })
              tm.tokens;
      },
    )

-- The branch of ValidateToken for a token that is not in the table.
validate_unknown : Crypto → Option Text → TokenManager → Bool
validate_unknown c none tm = false
validate_unknown c (some bytes) tm =
    if any (λ e. e.1.hash == c.digest (tm.secret ++ bytes)) tm.tokens
    then true
    else is_empty tm.tokens

-- A token that has expired is deleted as it is refused.
abbrev validate_known : ℕ → Text → Option ℕ → TokenManager → Bool × TokenManager
validate_known now token none tm = (true, tm)
validate_known now token (some t) tm =
    if ltb t now then (false, record tm { tokens = delete token tm.tokens }) else (true, tm)

abbrev validate_found : Crypto → ℕ → Text → Option Token → TokenManager → Bool × TokenManager
unfolding validate_unknown
validate_found c now token none tm = (validate_unknown c (c.decode_64 token) tm, tm)
validate_found c now token (some t) tm = validate_known now token t.expires_at tm

unfoldable pub validate_token : Crypto → ℕ → Text → TokenManager → Bool × TokenManager
unfolding validate_unknown
validate_token c now token tm = validate_found c now token (lookup token tm.tokens) tm

unfoldable pub revoke_token : Text → TokenManager → TokenManager
revoke_token token tm = record tm { tokens = delete token tm.tokens }

unfoldable pub list_tokens : TokenManager → List Text
list_tokens tm = map (λ e. e.0) tm.tokens
