-- ===== src/Security/ApiTokens.antt =====
-- internal/security/auth.go: the tokens of the HTTP interface.
pub mod Validity
pub mod Index
use podman_swarm.Base.{
  ℕ, Bool, true, false, Option, none, some, List, [], ◌∷◌, ◌++◌, map, Result, ok, err, ltb,
  if◌then◌else◌,
}
use podman_swarm.Base.Text.{Text, str}
use podman_swarm.Base.Map.{Map, lookup, insert, delete, values}
use podman_swarm.Security.{Crypto}

pub record ApiToken : Type 0 where
  pub token : Text
  pub hash : Text
  pub name : Text
  pub created_at : ℕ
  pub expires_at : Option ℕ

pub record ApiTokenManager : Type 0 where
  pub tokens : Map ApiToken
  pub hashes : Map Text
  pub secret : Text

pub data Error : Type 0 where
  no_randomness token_not_found : Error

-- NewAPITokenManager; the last argument is the random secret that an absent one is replaced by.
unfoldable pub new_manager : Text → Text → ApiTokenManager
new_manager [] random = record { tokens = []; hashes = []; secret = random }
new_manager (b ∷ secret) random = record { tokens = []; hashes = []; secret = b ∷ secret }

-- GenerateToken; rand.Read gives 32 bytes or fails.
unfoldable pub generate_token :
    Crypto
    → ℕ
    → Option Text
    → Text
    → Option ℕ
    → ApiTokenManager
    → Result Error (Text × ApiTokenManager)
generate_token c now none name expires_at tm = err no_randomness
generate_token c now (some bytes) name expires_at tm =
    let token = c.encode_64 bytes in
    let hash = c.digest (tm.secret ++ bytes) in
    ok (
      token,
      record tm {
        tokens =
            insert token
              (record {
                token = token;
                hash = hash;
                name = name;
                created_at = now;
                expires_at = expires_at;
              })
              tm.tokens;
        hashes = insert hash token tm.hashes;
      },
    )

-- `t.ExpiresAt != nil && now.After(*t.ExpiresAt)`
abbrev pub has_expired : ℕ → Option ℕ → Bool
has_expired now none = false
has_expired now (some t) = ltb t now

abbrev is_live : ℕ → Option ApiToken → Bool
is_live now none = false
is_live now (some t) = if has_expired now t.expires_at then false else true

unfoldable pub validate_token : ℕ → Text → ApiTokenManager → Bool
validate_token now token tm = is_live now (lookup token tm.tokens)

-- The two deletions that revoking and the clean-up share.
abbrev pub forget : Text → ApiToken → ApiTokenManager → ApiTokenManager
forget token t tm = record tm { hashes = delete t.hash tm.hashes; tokens = delete token tm.tokens }

abbrev revoked : Text → Option ApiToken → ApiTokenManager → Result Error ApiTokenManager
revoked token none tm = err token_not_found
revoked token (some t) tm = ok (forget token t tm)

unfoldable pub revoke_token : Text → ApiTokenManager → Result Error ApiTokenManager
revoke_token token tm = revoked token (lookup token tm.tokens) tm

masked : ApiToken → ApiToken
masked t = record t { token = str "***" }

unfoldable pub list_tokens : ApiTokenManager → List ApiToken
unfolding masked
list_tokens tm = map masked (values tm.tokens)

-- The loop of CleanupExpiredTokens over the entries that it meets.
pub cleanup_entries : ℕ → Map ApiToken → ApiTokenManager → ApiTokenManager
cleanup_entries now [] tm = tm
cleanup_entries now ((token, t) ∷ rest) tm =
    cleanup_entries now rest (if has_expired now t.expires_at then forget token t tm else tm)

unfoldable pub cleanup_expired_tokens : ℕ → ApiTokenManager → ApiTokenManager
unfolding cleanup_entries
cleanup_expired_tokens now tm = cleanup_entries now tm.tokens tm
