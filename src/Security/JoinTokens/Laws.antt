-- ===== src/Security/JoinTokens/Laws.antt =====
-- Which join tokens are accepted, and what happens when the table runs empty.
use podman_swarm.Base.{
  is_empty, ℕ, ◌≡◌, ◌≢◌, ◌↔◌, ◌⊎◌, inl, inr, refl, true, false, Option, none, some, [], ◌∷◌, ◌++◌,
  arith, ◌<◌, any, In, In-any, any_of_In,
}
use podman_swarm.Base.Text.{Text, ◌==◌, eq_iff, eq_refl}
use podman_swarm.Base.Map.{Map, lookup, delete}
use podman_swarm.Security.{Crypto}
use podman_swarm.Security.JoinTokens.{
  Token, TokenManager, new_manager, validate_token, validate_found, validate_known,
  validate_unknown, revoke_token,
}

-- `t.ExpiresAt` is absent or not before `now`.
abbrev pub InTime : ℕ → Token → Type 0
InTime now t = (t.expires_at ≡ none) ⊎ ((e : ℕ) × (t.expires_at ≡ some e) × (¬ (e < now)))

-- The text decodes to bytes whose hash with the secret is that of a stored token.
abbrev pub HashStored : Crypto → Text → TokenManager → Type 0
HashStored c token tm =
    (bytes : Text) × (e : Text × Token) × (c.decode_64 token ≡ some bytes)
    × In e tm.tokens
    × (e.1.hash ≡ c.digest (tm.secret ++ bytes))

-- The accepted tokens of a table that is not empty.
abbrev pub Accepted : Crypto → ℕ → Text → TokenManager → Type 0
Accepted c now token tm =
    ((t : Token) × (lookup token tm.tokens ≡ some t) × InTime now t)
    ⊎ ((lookup token tm.tokens ≡ none) × HashStored c token tm)

unknown_sound :
    (c : Crypto) (token : Text) (o : Option Text) (tm : TokenManager)
    → c.decode_64 token ≡ o
    → tm.tokens ≢ []
    → validate_unknown c o tm ≡ true
    → HashStored c token tm
unfolding validate_unknown
unknown_sound c token none tm d n h = cc
unknown_sound c token (some bytes) tm d n h =
    let hit : any (λ e. e.1.hash == c.digest (tm.secret ++ bytes)) tm.tokens ≡ true =
      ground (arith, not_empty tm.tokens n) in
    let (e, m, q) =
      In-any (λ (e : Text × Token). e.1.hash == c.digest (tm.secret ++ bytes)) tm.tokens hit in
    (bytes, e, d, m, (eq_iff e.1.hash (c.digest (tm.secret ++ bytes))).0 q)
  where
    not_empty : (m : Map Token) → m ≢ [] → is_empty m ≡ false
    not_empty [] n = absurd (n refl)
    not_empty (x ∷ m) n = refl

unknown_complete :
    (c : Crypto) (token : Text) (tm : TokenManager)
    → HashStored c token tm
    → validate_unknown c (c.decode_64 token) tm ≡ true
unfolding validate_unknown
unknown_complete c token tm (bytes, e, d, m, q) = rw d (
    ground (
      arith,
      any_of_In (λ (e : Text × Token). e.1.hash == c.digest (tm.secret ++ bytes)) tm.tokens e m
          ((eq_iff e.1.hash (c.digest (tm.secret ++ bytes))).1 q),
    ))

-- With a table that is not empty: a known token is accepted exactly while it has not expired, an
-- unknown one exactly when its decoded bytes hash to a stored hash.
pub validate_iff :
    (c : Crypto) (now : ℕ) (token : Text) (tm : TokenManager)
    → tm.tokens ≢ []
    → ((validate_token c now token tm).0 ≡ true) ↔ Accepted c now token tm
unfolding validate_token
validate_iff c now token tm n = by_entry (lookup token tm.tokens) refl
  where
    by_entry :
        (o : Option Token)
        → lookup token tm.tokens ≡ o
        → ((validate_found c now token o tm).0 ≡ true) ↔ Accepted c now token tm
    by_entry none at = (
      λ h. inr (at, unknown_sound c token (c.decode_64 token) tm refl n h),
      λ h. elim h [ inl (t, e, w) ↦ cc | inr (_, stored) ↦ unknown_complete c token tm stored ],
    )
    by_entry (some t) at = by_time t.expires_at refl
      where
        by_time :
            (e : Option ℕ)
            → t.expires_at ≡ e
            → ((validate_known now token e tm).0 ≡ true) ↔ Accepted c now token tm
        by_time none f = (λ h. inl (t, at, inl f), λ h. refl)
        by_time (some e) f = (λ h. inl (t, at, inr (e, f, ground arith)), λ h. ground arith)

empty_accepts :
    (c : Crypto) (now : ℕ) (secret token : Text)
    → ((validate_token c now token (record { tokens = []; secret = secret })).0 ≡ true)
      ↔ ((bytes : Text) × (c.decode_64 token ≡ some bytes))
unfolding validate_token lookup
empty_accepts c now secret token = by_decoding (c.decode_64 token) refl
  where
    tm : TokenManager
    tm = record { tokens = []; secret = secret }

    by_decoding :
        (o : Option Text)
        → c.decode_64 token ≡ o
        → (validate_unknown c o tm ≡ true) ↔ ((bytes : Text) × (c.decode_64 token ≡ some bytes))
    by_decoding none e = (λ h. cc, λ h. cc (h.1))
    by_decoding (some bytes) e = (λ h. (bytes, e), λ h. refl)

-- A manager with no token, such as the one that a joining node makes for itself, accepts every text
-- that base64 decodes, and no other.
pub new_manager_accepts :
    (c : Crypto) (now : ℕ) (secret random token : Text)
    → ((validate_token c now token (new_manager secret random)).0 ≡ true)
      ↔ ((bytes : Text) × (c.decode_64 token ≡ some bytes))
unfolding new_manager
new_manager_accepts c now [] random token = empty_accepts c now random token
new_manager_accepts c now (b ∷ secret) random token = empty_accepts c now (b ∷ secret) token

abbrev pub only : Text → Text → Token → TokenManager
only secret token t = record { tokens = (token, t) ∷ []; secret = secret }

forgotten_sole :
    (token secret : Text) (t : Token)
    → revoke_token token (only secret token t) ≡ record { tokens = []; secret = secret }
unfolding revoke_token delete
forgotten_sole token secret t = ground (arith, eq_refl token)

expired_sole :
    (c : Crypto) (now : ℕ) (token secret : Text) (t : Token) (e : ℕ)
    → t.expires_at ≡ some e
    → e < now
    → validate_token c now token (only secret token t)
      ≡ (false, record { tokens = []; secret = secret })
unfolding validate_token lookup delete
expired_sole c now token secret t e x h = ground (arith, eq_refl token)

-- The only token of a table, once revoked, or refused because it has expired, leaves the table empty,
-- and from then on every text that base64 decodes is accepted, that token among them.
sole_token_returns :
    (c : Crypto) (now later : ℕ) (token secret other decoded : Text) (t : Token) (e : ℕ)
    → t.expires_at ≡ some e
    → e < now
    → c.decode_64 other ≡ some decoded
    → let tm = only secret token t in
      ((validate_token c now token tm).0 ≡ false)
      × ((validate_token c later other (validate_token c now token tm).1).0 ≡ true)
      × ((validate_token c later other (revoke_token token tm)).0 ≡ true)
sole_token_returns c now later token secret other decoded t e x h d =
    let open_door = (empty_accepts c later secret other).1 (decoded, d) in
    let refused = expired_sole c now token secret t e x h in
    (rw refused refl, rw refused open_door, rw (forgotten_sole token secret t) open_door)
