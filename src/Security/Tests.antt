-- ===== src/Security/Tests.antt =====
-- Concrete tokens and messages: the theorems at inputs where their hypotheses hold.
use podman_swarm.Base.{ℕ, ◌≤◌, ◌≡◌, ◌↔◌, refl, true, false, some, [], ◌∷◌, ok}
use podman_swarm.Base.Text.{Text, str, ◌==◌}
use podman_swarm.Base.Map.{lookup, insert}
use podman_swarm.Base.Map.Distinct.{IsDistinct}
use podman_swarm.Security.{Crypto}
use podman_swarm.Security.ApiTokens as Api
use podman_swarm.Security.ApiTokens.{ApiToken, ApiTokenManager}
use podman_swarm.Security.ApiTokens.Validity.{validate-cleanup}
use podman_swarm.Security.ApiTokens.Index.{IsIndexed, operations-IsIndexed}
use podman_swarm.Security.JoinTokens as Join
use podman_swarm.Security.JoinTokens.{Token, TokenManager}
use podman_swarm.Security.JoinTokens.Laws.{Accepted, validate_iff}

abbrev crypto : Crypto
crypto = record { encode_64 = λ b. b; decode_64 = λ b. some b; digest = λ b. b }

abbrev ci : ApiToken
ci = record {
  token = str "t1";
  hash = str "st1";
  name = str "ci";
  created_at = 1;
  expires_at = some 5;
}

abbrev one_token : ApiTokenManager
one_token = record {
  tokens = (str "t1", ci) ∷ [];
  hashes = (str "st1", str "t1") ∷ [];
  secret = str "s";
}

one_token_distinct : IsDistinct one_token.tokens
unfolding lookup
one_token_distinct = (refl, tt)

made_again :
    Api.generate_token crypto 1 (some (str "t1")) (str "ci") (some 5) (Api.new_manager (str "s") [])
    ≡ ok (str "t1", one_token)
unfolding Api.generate_token Api.new_manager insert
made_again = refl

accepted_then_expired :
    (Api.validate_token 5 (str "t1") one_token ≡ true)
    × (Api.validate_token 6 (str "t1") one_token ≡ false)
unfolding Api.validate_token lookup ◌==◌
accepted_then_expired = (refl, refl)

validate-cleanup_example :
    ((later : ℕ) (token : Text)
      → 9 ≤ later
      → Api.validate_token later token (Api.cleanup_expired_tokens 9 one_token)
        ≡ Api.validate_token later token one_token)
    × ((token : Text) (t : ApiToken)
        → lookup token (Api.cleanup_expired_tokens 9 one_token).tokens ≡ some t
        → Api.has_expired 9 t.expires_at ≡ false)
validate-cleanup_example = validate-cleanup 9 one_token one_token_distinct

empty-IsIndexed : IsIndexed (Api.new_manager (str "s") [])
unfolding Api.new_manager lookup
empty-IsIndexed = record {
  distinct = tt;
  own = λ k t e. cc;
  back = λ k t e. cc;
  forth = λ h k e. cc;
}

operations-IsIndexed_example : IsIndexed one_token
operations-IsIndexed_example =
    (operations-IsIndexed (Api.new_manager (str "s") []) empty-IsIndexed).0 crypto 1 (str "t1")
      (str "ci") (some 5) (str "t1") one_token (unfold Api.new_manager lookup in refl)
      (unfold Api.new_manager lookup in refl) made_again

abbrev joiner : Token
joiner = record { value = str "j1"; hash = str "sj1"; created_at = 1; expires_at = some 5 }

abbrev sole : TokenManager
sole = record { tokens = (str "j1", joiner) ∷ []; secret = str "s" }

validate_iff_example :
    ((Join.validate_token crypto 3 (str "j1") sole).0 ≡ true) ↔ Accepted crypto 3 (str "j1") sole
validate_iff_example = validate_iff crypto 3 (str "j1") sole cc
