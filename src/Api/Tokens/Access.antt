-- ===== src/Api/Tokens/Access.antt =====
-- A token that the interface makes opens the interface.
use podman_swarm.Base.{
  Result, ℕ, zero, suc, ◌+◌, ◌*◌, ◌%◌, ◌<◌, ◌≤◌, ◌≡◌, refl, true, false, inr, Option, some, ◌++◌,
  ok, err, arith,
}
use podman_swarm.Base.Text.{Text, eq_refl}
use podman_swarm.Base.Int.{ℤ, pos, negsuc}
use podman_swarm.Security.{Crypto}
use podman_swarm.Security.ApiTokens.{
  Error, ApiTokenManager, generate_token, validate_token, has_expired,
}
use podman_swarm.Security.ApiTokens.Validity.{validate-generate}
use podman_swarm.Api.Middleware.{auth_middleware, bearer, next, next_iff, extract-bearer}
use podman_swarm.Api.Tokens.{TokenRequest, expiry, created, generate_api_token}

-- A token is answered with only if the manager made it, with the time of expiry that was asked for.
created_made :
    (c : Crypto) (now : ℕ) (bytes : Text) (r : TokenRequest) (tm after : ApiTokenManager)
    (token name : Text) (expires_at : Option ℕ)
    → generate_api_token c now (some bytes) (some r) tm ≡ (created token name expires_at, after)
    → (generate_token c now (some bytes) r.name (expiry now r.expires_in) tm ≡ ok (token, after))
      × (expiry now r.expires_in ≡ expires_at)
unfolding generate_api_token
created_made c now bytes r tm after token name expires_at e =
    by_result (generate_token c now (some bytes) r.name (expiry now r.expires_in) tm) refl
  where
    by_result :
        (o : Result Error (Text × ApiTokenManager))
        → generate_token c now (some bytes) r.name (expiry now r.expires_in) tm ≡ o
        → (o ≡ ok (token, after)) × (expiry now r.expires_in ≡ expires_at)
    by_result (err x) at = absurd (ground arith)
    by_result (ok (t, m)) at = ground arith

-- The request asks for no time of expiry, or for one that has not passed; its nanoseconds are less
-- than 2^63.
abbrev pub InTime : ℕ → ℕ → ℤ → Type 0
InTime now later (pos zero) = Unit {0}
InTime now later (pos (suc n)) =
    (suc n * 1_000_000_000 < 9_223_372_036_854_775_808) × (later ≤ now + suc n * 1_000_000_000)
InTime now later (negsuc n) = Unit {0}

not_expired :
    (now later : ℕ) (seconds : ℤ)
    → InTime now later seconds
    → has_expired later (expiry now seconds) ≡ false
not_expired now later (pos zero) h = refl
not_expired now later (pos (suc n)) (small, soon) =
    let d = suc n * 1_000_000_000 in
    let same : d % 18_446_744_073_709_551_616 ≡ d = omega (arith, small) in
    rw same (ground (arith, small, soon))
not_expired now later (negsuc n) h = refl

-- A token that the handler has just answered with lets requests pass that present it after "Bearer ",
-- on every path, until as many seconds have passed as the request asked for, or for ever if it asked
-- for none or less. The nanoseconds of that time are less than 2^63: more would wrap.
pub created_token_passes :
    (c : Crypto) (now later : ℕ) (bytes : Text) (r : TokenRequest) (tm after : ApiTokenManager)
    (token name : Text) (expires_at : Option ℕ) (path : Text)
    → generate_api_token c now (some bytes) (some r) tm ≡ (created token name expires_at, after)
    → InTime now later r.expires_in
    → auth_middleware after true later (record { path = path; authorization = bearer ++ token })
      ≡ next
created_token_passes c now later bytes r tm after token name expires_at path e h =
    let (made, same) = created_made c now bytes r tm after token name expires_at e in
    let live = not_expired now later r.expires_in h in
    let valid : validate_token later token after ≡ true = ground (
      arith,
      validate-generate c now bytes r.name (expiry now r.expires_in) tm after token made later
          token,
      eq_refl token,
    ) in
    (next_iff after true later (record { path = path; authorization = bearer ++ token })).1
      (inr (inr ((λ x. cc), rw (extract-bearer token) valid)))
