-- ===== src/Api/Server/Revocation.antt =====
-- Requests without a token that is accepted.
use podman_swarm.Base.{
  ◌≡◌, ◌≢◌, ◌⊎◌, inl, inr, refl, sym, subst, true, false, List, [], ◌∷◌, All, arith,
}
use podman_swarm.Base.Text.{Text, str, eq_iff}
use podman_swarm.Storage.{Codec}
use podman_swarm.Security.{Crypto}
use podman_swarm.Security.ApiTokens.{ApiTokenManager, validate_token}
use podman_swarm.Api.Middleware.{
  Verdict, next, missing_header, invalid_token, auth_middleware, extract_token, health_path,
}
use podman_swarm.Base.{ap, ◌∙◌, some, ok}
use podman_swarm.Security.ApiTokens.{revoke_token}
use podman_swarm.Security.ApiTokens.Validity.{validate-revoke}
use podman_swarm.Api.Tokens.{revoked, revoke_api_token}
use podman_swarm.Api.Server.{
  tokened, revokes_token, routes, run_handler, route_of, dispatch, Server, Gin, Inputs, HttpRequest,
  Response, unauthorized, admitted, serve_request, serve_all,
}

-- The request is not for the health path, and its header is empty or its token not accepted.
abbrev pub IsOutside : ApiTokenManager → Inputs × HttpRequest → Type 0
IsOutside tm (i, r) =
    (r.head.path ≢ health_path)
    × ((r.head.authorization ≡ [])
        ⊎ (validate_token i.now (extract_token r.head.authorization) tm ≡ false))

abbrev pub IsUnauthorized : Response → Type 0
IsUnauthorized answer = (v : Verdict) × (answer ≡ unauthorized v) × (v ≢ next)

outside-ne-next :
    (tm : ApiTokenManager) (i : Inputs) (r : HttpRequest)
    → IsOutside tm (i, r)
    → auth_middleware tm true i.now r.head ≢ next
unfolding auth_middleware
outside-ne-next tm i r (p, inl e) h =
    ground (arith, eq_iff r.head.path health_path, eq_iff r.head.authorization (str ""))
outside-ne-next tm i r (p, inr e) h =
    ground (arith, eq_iff r.head.path health_path, eq_iff r.head.authorization (str ""))

-- A request that presents no token but this one.
abbrev pub Presents : Text → Inputs × HttpRequest → Type 0
Presents token (i, r) =
    (r.head.path ≢ health_path)
    × ((r.head.authorization ≡ []) ⊎ (extract_token r.head.authorization ≡ token))

outside :
    (token : Text) (tm tm' : ApiTokenManager) (rest : List (Inputs × HttpRequest))
    → revoke_token token tm ≡ ok tm'
    → All (Presents token) rest
    → All (IsOutside tm') rest
outside token tm tm' [] e h = tt
outside token tm tm' ((i, r) ∷ rest) e ((p, inl empty), hs) =
    ((p, inl empty), outside token tm tm' rest e hs)
outside token tm tm' ((i, r) ∷ rest) e ((p, inr same), hs) = (
  (
    p,
    inr (
        validate-revoke token tm tm' e i.now (extract_token r.head.authorization)
        ∙ ground (arith, eq_iff token (extract_token r.head.authorization))),
  ),
  outside token tm tm' rest e hs,
)

module _ (c : Crypto) (codec : Codec) (local : Text) (g : Gin) where
  admitted-other :
      (v : Verdict) (i : Inputs) (r : HttpRequest) (s : Server)
      → v ≢ next
      → admitted c codec local g v i r s ≡ (s, unauthorized v)
  admitted-other next i r s n = absurd (n refl)
  admitted-other missing_header i r s n = refl
  admitted-other invalid_token i r s n = refl

  turned_away :
      (i : Inputs) (r : HttpRequest) (s : Server)
      → IsOutside s.tokens (i, r)
      → (v : Verdict) × (serve_request c codec local g true i r s ≡ (s, unauthorized v))
        × (v ≢ next)
  unfolding serve_request
  turned_away i r s h =
      let v = auth_middleware s.tokens true i.now r.head in
      let n = outside-ne-next s.tokens i r h in (v, admitted-other v i r s n, n)

  rest_turned_away :
      (rest : List (Inputs × HttpRequest)) (s : Server)
      → All (IsOutside s.tokens) rest
      → ((serve_all c codec local g true rest s).0 ≡ s)
        × All IsUnauthorized (serve_all c codec local g true rest s).1
  unfolding serve_all
  rest_turned_away [] s h = (refl, tt)
  rest_turned_away ((i, r) ∷ rest) s (h, hs) =
      let (v, e, n) = turned_away i r s h in
      let (same, answers) = rest_turned_away rest s hs in
      subst
        (λ (p : Server × Response).
          ((serve_all c codec local g true rest p.0).0 ≡ s)
          × (IsUnauthorized p.1 × All IsUnauthorized (serve_all c codec local g true rest p.0).1))
        (sym e) (same, ((v, refl, n), answers))

  -- An answer that says so has removed the token.
  revoked_tokens :
      (i : Inputs) (r : HttpRequest) (param : Text → Text) (s s' : Server)
      → run_handler c codec local g revokes_token param i r s ≡ (s', tokened revoked)
      → revoke_token (param (str "token")) s.tokens ≡ ok s'.tokens
  unfolding run_handler revoke_api_token
  revoked_tokens i r param s s' e =
      ground
        (arith, ap (λ (p : Server × Response). p.0.tokens) e, ap (λ (p : Server × Response). p.1) e)

  by_verdict :
      (v : Verdict) (i : Inputs) (r : HttpRequest) (s s' : Server) (param : Text → Text)
      → route_of g r.method r.head.path routes ≡ some (revokes_token, param)
      → admitted c codec local g v i r s ≡ (s', tokened revoked)
      → revoke_token (param (str "token")) s.tokens ≡ ok s'.tokens
  by_verdict next i r s s' param found e =
      revoked_tokens i r param s s' (ap (λ o. dispatch c codec local g o i r s) (sym found) ∙ e)
  by_verdict missing_header i r s s' param found e =
      absurd (ground (arith, ap (λ (p : Server × Response). p.1) e))
  by_verdict invalid_token i r s s' param found e =
      absurd (ground (arith, ap (λ (p : Server × Response). p.1) e))

  -- Once the interface has answered that it revoked a token, whoever holds no other is shut out: any
  -- sequence of requests that present that token or none, at any times and for any path but that of
  -- the health check, changes nothing, neither the deployments and services, nor the tokens, nor the
  -- whitelist, and each is answered with status 401. Authentication is on.
  pub revoked_powerless :
      (i : Inputs) (r : HttpRequest) (s s' : Server) (param : Text → Text)
      (rest : List (Inputs × HttpRequest))
      → route_of g r.method r.head.path routes ≡ some (revokes_token, param)
      → serve_request c codec local g true i r s ≡ (s', tokened revoked)
      → All (Presents (param (str "token"))) rest
      → ((serve_all c codec local g true rest s').0 ≡ s')
        × All IsUnauthorized (serve_all c codec local g true rest s').1
  unfolding serve_request
  revoked_powerless i r s s' param rest found e h = rest_turned_away rest s' (
      outside (param (str "token")) s.tokens s'.tokens rest
        (by_verdict (auth_middleware s.tokens true i.now r.head) i r s s' param found e) h)
