-- ===== src/Security/ApiTokens/Index.antt =====
-- The index `hashes` of the manager agrees with its table of tokens.
use podman_swarm.Base.{
  ℕ, ◌≡◌, refl, subst, Option, none, some, [], ◌∷◌, ◌++◌, ok, arith, All, Bool-cases, inl, inr,
}
use podman_swarm.Base.Text.{Text, ◌==◌, eq_iff, eq_refl}
use podman_swarm.Base.Map.{Map, lookup, insert, delete, lookup-insert, lookup-delete}
use podman_swarm.Base.Map.Distinct.{IsDistinct, insert-IsDistinct, delete-IsDistinct}
use podman_swarm.Security.{Crypto}
use podman_swarm.Security.ApiTokens.{
  ApiToken, ApiTokenManager, generate_token, revoke_token, has_expired, forget, revoked,
  cleanup_entries, cleanup_expired_tokens,
}

pub record IsIndexed (tm : ApiTokenManager) : Type 0 where
  pub distinct : IsDistinct tm.tokens
  -- every token stands under its own text, and its hash leads back to it
  pub own : (k : Text) (t : ApiToken) → lookup k tm.tokens ≡ some t → t.token ≡ k
  pub back :
      (k : Text) (t : ApiToken) → lookup k tm.tokens ≡ some t → lookup t.hash tm.hashes ≡ some k
  -- every hash is that of a token of the table
  pub forth :
      (h k : Text)
      → lookup h tm.hashes ≡ some k
      → (t : ApiToken) × (lookup k tm.tokens ≡ some t) × (t.hash ≡ h)

forget-IsIndexed :
    (k : Text) (t : ApiToken) (tm : ApiTokenManager)
    → IsIndexed tm
    → lookup k tm.tokens ≡ some t
    → IsIndexed (forget k t tm)
forget-IsIndexed k t tm v e = record {
  distinct = delete-IsDistinct k tm.tokens v.distinct;
  own = λ j u f. ground (arith, lookup-delete k j tm.tokens, v.own j u);
  back = λ j u f. ground (
    arith,
    lookup-delete k j tm.tokens,
    lookup-delete t.hash u.hash tm.hashes,
    v.back j u,
    v.back k t e,
    eq_iff t.hash u.hash,
    eq_iff k j,
  );
  forth = λ h j f. found h j f;
}
  where
    found :
        (h j : Text)
        → lookup h (delete t.hash tm.hashes) ≡ some j
        → (u : ApiToken) × (lookup j (delete k tm.tokens) ≡ some u) × (u.hash ≡ h)
    found h j f =
        let g : lookup h tm.hashes ≡ some j = ground (arith, lookup-delete t.hash h tm.hashes) in
        let (u, at, own) = v.forth h j g in
        (
          u,
          ground (
            arith,
            lookup-delete k j tm.tokens,
            lookup-delete t.hash h tm.hashes,
            eq_iff k j,
            eq_iff t.hash h,
          ),
          own,
        )

-- A new token keeps the index, when its text and its hash are new.
generate-IsIndexed :
    (c : Crypto) (now : ℕ) (bytes name : Text) (expires_at : Option ℕ) (tm tm' : ApiTokenManager)
    (token : Text)
    → lookup (c.encode_64 bytes) tm.tokens ≡ none
    → lookup (c.digest (tm.secret ++ bytes)) tm.hashes ≡ none
    → generate_token c now (some bytes) name expires_at tm ≡ ok (token, tm')
    → IsIndexed tm
    → IsIndexed tm'
unfolding generate_token
generate-IsIndexed c now bytes name expires_at tm tm' token new_token new_hash e v =
    subst IsIndexed (ground arith) indexed
  where
    key : Text
    key = c.encode_64 bytes

    hash : Text
    hash = c.digest (tm.secret ++ bytes)

    made : ApiToken
    made = record {
      token = key;
      hash = hash;
      name = name;
      created_at = now;
      expires_at = expires_at;
    }

    next : ApiTokenManager
    next = record tm { tokens = insert key made tm.tokens; hashes = insert hash key tm.hashes }

    indexed : IsIndexed next
    indexed = record {
      distinct = insert-IsDistinct key made tm.tokens v.distinct;
      own = λ j u f. ground (arith, lookup-insert key j made tm.tokens, eq_iff key j, v.own j u);
      back = λ j u f. ground (
        arith,
        lookup-insert key j made tm.tokens,
        eq_iff key j,
        lookup-insert hash u.hash key tm.hashes,
        eq_iff hash u.hash,
        v.back j u,
      );
      forth = λ h j f. elim (Bool-cases (hash == h)) [
        | inl hit ↦ (
          made,
          ground (
            arith,
            lookup-insert hash h key tm.hashes,
            lookup-insert key j made tm.tokens,
            eq_iff key j,
          ),
          (eq_iff hash h).0 hit,
        )
        | inr miss ↦
            let old : lookup h tm.hashes ≡ some j =
              ground (arith, lookup-insert hash h key tm.hashes) in
            let (u, at, own) = v.forth h j old in
            (u, ground (arith, lookup-insert key j made tm.tokens, eq_iff key j), own)
      ];
    }

revoke-IsIndexed :
    (token : Text) (tm tm' : ApiTokenManager)
    → revoke_token token tm ≡ ok tm'
    → IsIndexed tm
    → IsIndexed tm'
unfolding revoke_token
revoke-IsIndexed token tm tm' e v = from (lookup token tm.tokens) refl e
  where
    from :
        (o : Option ApiToken)
        → lookup token tm.tokens ≡ o
        → revoked token o tm ≡ ok tm'
        → IsIndexed tm'
    from none at f = cc
    from (some t) at f = subst IsIndexed (ground arith) (forget-IsIndexed token t tm v at)

-- The entries that the loop still has to meet stand in the table.
abbrev Present : Map ApiToken → ApiTokenManager → Type 0
Present es tm = All (λ e. lookup e.0 tm.tokens ≡ some e.1) es

forget-Present :
    (k : Text) (t : ApiToken) (es : Map ApiToken) (tm : ApiTokenManager)
    → lookup k es ≡ none
    → Present es tm
    → Present es (forget k t tm)
unfolding lookup
forget-Present k t [] tm h p = tt
forget-Present k t ((j, u) ∷ es) tm h p = (
  ground (arith, lookup-delete k j tm.tokens, eq_iff k j, eq_iff j k),
  forget-Present k t es tm (ground arith) p.1,
)

cleanup_entries-IsIndexed :
    (now : ℕ) (es : Map ApiToken) (tm : ApiTokenManager)
    → IsDistinct es
    → Present es tm
    → IsIndexed tm
    → IsIndexed (cleanup_entries now es tm)
unfolding cleanup_entries
cleanup_entries-IsIndexed now [] tm d p v = v
cleanup_entries-IsIndexed now ((k, t) ∷ es) tm d p v =
    elim (Bool-cases (has_expired now t.expires_at)) [
      | inl over ↦
          rw (over, cleanup_entries)
            (cleanup_entries-IsIndexed now es (forget k t tm) d.1 (forget-Present k t es tm d.0 p.1)
              (forget-IsIndexed k t tm v p.0))
      | inr live ↦ rw (live, cleanup_entries) (cleanup_entries-IsIndexed now es tm d.1 p.1 v)
    ]

Present-self :
    (es : Map ApiToken) (tm : ApiTokenManager)
    → IsDistinct es
    → ((k : Text) (t : ApiToken) → lookup k es ≡ some t → lookup k tm.tokens ≡ some t)
    → Present es tm
unfolding lookup
Present-self [] tm d h = tt
Present-self ((k, t) ∷ es) tm d h = (
  h k t (ground (arith, eq_refl k)),
  Present-self es tm d.1 (λ j u e. h j u (ground (arith, eq_iff k j))),
)

-- Every operation keeps the index: making a token whose text and hash are new, revoking one, and
-- the clean-up.
pub operations-IsIndexed :
    (tm : ApiTokenManager)
    → IsIndexed tm
    → ((c : Crypto) (now : ℕ) (bytes name : Text) (expires_at : Option ℕ) (token : Text)
          (tm' : ApiTokenManager)
        → lookup (c.encode_64 bytes) tm.tokens ≡ none
        → lookup (c.digest (tm.secret ++ bytes)) tm.hashes ≡ none
        → generate_token c now (some bytes) name expires_at tm ≡ ok (token, tm')
        → IsIndexed tm')
      × ((token : Text) (tm' : ApiTokenManager) → revoke_token token tm ≡ ok tm' → IsIndexed tm')
      × ((now : ℕ) → IsIndexed (cleanup_expired_tokens now tm))
unfolding cleanup_expired_tokens
operations-IsIndexed tm v = (
  λ c now bytes name expires_at token tm' a b e.
      generate-IsIndexed c now bytes name expires_at tm tm' token a b e v,
  λ token tm' e. revoke-IsIndexed token tm tm' e v,
  λ now.
      cleanup_entries-IsIndexed now tm.tokens tm v.distinct
        (Present-self tm.tokens tm v.distinct (λ k t e. e)) v,
)
