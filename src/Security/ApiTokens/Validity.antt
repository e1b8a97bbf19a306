-- ===== src/Security/ApiTokens/Validity.antt =====
-- When a token is accepted: through every operation of the manager.
use podman_swarm.Base.{
  ℕ, ◌≡◌, refl, ◌≤◌, Bool, true, false, Option, none, some, [], ◌∷◌, ◌++◌, ◌&&◌, ◌||◌, ◌∙◌, ok,
  arith, if◌then◌else◌, sym,
}
use podman_swarm.Base.Text.{Text, ◌==◌, eq_iff}
use podman_swarm.Base.Map.{Map, lookup, lookup-insert, lookup-delete}
use podman_swarm.Base.Map.Distinct.{IsDistinct}
use podman_swarm.Security.{Crypto}
use podman_swarm.Security.ApiTokens.{
  ApiToken, ApiTokenManager, generate_token, validate_token, revoke_token, is_live, has_expired,
  forget, cleanup_entries, cleanup_expired_tokens,
}

made : Crypto → ℕ → Text → Text → Option ℕ → ApiTokenManager → ApiToken
made c now bytes name expires_at tm = record {
  token = c.encode_64 bytes;
  hash = c.digest (tm.secret ++ bytes);
  name = name;
  created_at = now;
  expires_at = expires_at;
}

-- A new token is accepted until its time has passed; the others are accepted as before.
pub validate-generate :
    (c : Crypto) (now : ℕ) (bytes name : Text) (expires_at : Option ℕ) (tm tm' : ApiTokenManager)
    (token : Text)
    → generate_token c now (some bytes) name expires_at tm ≡ ok (token, tm')
    → (later : ℕ) (other : Text)
    → validate_token later other tm' ≡ (
        if token == other
        then (if has_expired later expires_at then false else true)
        else validate_token later other tm)
unfolding generate_token validate_token made
validate-generate c now bytes name expires_at tm tm' token e later other =
    ground (
      arith,
      lookup-insert (c.encode_64 bytes) other (made c now bytes name expires_at tm) tm.tokens,
    )

-- Revoking fails exactly when the token is unknown; a revoked token is never accepted again, and the
-- others are accepted as before.
pub validate-revoke :
    (token : Text) (tm tm' : ApiTokenManager)
    → revoke_token token tm ≡ ok tm'
    → (later : ℕ) (other : Text)
    → validate_token later other tm'
      ≡ (if token == other then false else validate_token later other tm)
unfolding revoke_token validate_token
validate-revoke token tm tm' e later other = ground (arith, lookup-delete token other tm.tokens)

-- Some entry of this key has expired.
expired_key : ℕ → Text → Map ApiToken → Bool
expired_key now j [] = false
expired_key now j ((k, t) ∷ es) = (k == j && has_expired now t.expires_at) || expired_key now j es

lookup-cleanup_entries :
    (now : ℕ) (j : Text) (es : Map ApiToken) (tm : ApiTokenManager)
    → lookup j (cleanup_entries now es tm).tokens
      ≡ (if expired_key now j es then none else lookup j tm.tokens)
unfolding cleanup_entries expired_key
lookup-cleanup_entries now j [] tm = refl
lookup-cleanup_entries now j ((k, t) ∷ es) tm = ground (
  arith,
  lookup-cleanup_entries now j es tm,
  lookup-cleanup_entries now j es (forget k t tm),
  lookup-delete k j tm.tokens,
)

abbrev pub unless_expired : ℕ → Option ApiToken → Option ApiToken
unless_expired now none = none
unless_expired now (some t) = if has_expired now t.expires_at then none else some t

expired_key_absent :
    (now : ℕ) (j : Text) (es : Map ApiToken) → lookup j es ≡ none → expired_key now j es ≡ false
unfolding expired_key lookup
expired_key_absent now j [] h = refl
expired_key_absent now j ((k, t) ∷ es) h = ground (arith, expired_key_absent now j es)

expired_key_iff :
    (now : ℕ) (j : Text) (es : Map ApiToken)
    → IsDistinct es
    → (if expired_key now j es then none else lookup j es) ≡ unless_expired now (lookup j es)
unfolding expired_key lookup
expired_key_iff now j [] h = refl
expired_key_iff now j ((k, t) ∷ es) h =
    ground (arith, eq_iff k j, expired_key_iff now j es h.1, expired_key_absent now j es)

-- After a clean-up the table holds just the entries that had not expired.
lookup-cleanup :
    (now : ℕ) (j : Text) (tm : ApiTokenManager)
    → IsDistinct tm.tokens
    → lookup j (cleanup_expired_tokens now tm).tokens ≡ unless_expired now (lookup j tm.tokens)
unfolding cleanup_expired_tokens
lookup-cleanup now j tm h =
    lookup-cleanup_entries now j tm.tokens tm ∙ expired_key_iff now j tm.tokens h

still_expired :
    (now later : ℕ) (e : Option ℕ)
    → now ≤ later
    → has_expired now e ≡ true
    → has_expired later e ≡ true
still_expired now later none h e = e
still_expired now later (some t) h e = ground arith

-- A clean-up leaves no expired entry, and changes no answer from then on.
pub validate-cleanup :
    (now : ℕ) (tm : ApiTokenManager)
    → IsDistinct tm.tokens
    → ((later : ℕ) (token : Text)
        → now ≤ later
        → validate_token later token (cleanup_expired_tokens now tm)
          ≡ validate_token later token tm)
      × ((token : Text) (t : ApiToken)
          → lookup token (cleanup_expired_tokens now tm).tokens ≡ some t
          → has_expired now t.expires_at ≡ false)
unfolding validate_token
validate-cleanup now tm h = (
  λ later token k. rw (lookup-cleanup now token tm h) (same later k (lookup token tm.tokens)),
  λ token t e. kept (lookup token tm.tokens) t (sym (lookup-cleanup now token tm h) ∙ e),
)
  where
    same :
        (later : ℕ)
        → now ≤ later
        → (o : Option ApiToken) → is_live later (unless_expired now o) ≡ is_live later o
    same later k none = refl
    same later k (some t) = ground (arith, still_expired now later t.expires_at k)

    kept :
        (o : Option ApiToken) (t : ApiToken)
        → unless_expired now o ≡ some t
        → has_expired now t.expires_at ≡ false
    kept none t e = cc
    kept (some u) t e = ground arith
