-- ===== src/Ingress/Proxies.antt =====
-- The choice of an endpoint and the proxies that are kept.
use mathlib.Core.Option.{some-injective}
use podman_swarm.Base.{
  ℕ, zero, suc, ◌+◌, ◌%◌, ◌<◌, ◌≡◌, refl, ap, sym, ◌∙◌, Bool, Option, none, some, List, [], ◌∷◌,
  length, arith,
}
use podman_swarm.Base.Text.{Text}
use podman_swarm.Base.Map.{lookup, insert, lookup-insert_self}
use podman_swarm.Discovery.{ServiceEndpoint}
use podman_swarm.Ingress.{
  Controller, Response, proxied, endpoint_at, count_of, target_of, serve, selected, proxy_request,
}

endpoint_at-some :
    (i : ℕ) (es : List ServiceEndpoint)
    → i < length es
    → (e : ServiceEndpoint) × (endpoint_at i es ≡ some e)
unfolding endpoint_at
endpoint_at-some i [] h = absurd (omega arith)
endpoint_at-some zero (e ∷ es) h = (e, refl)
endpoint_at-some (suc i) (e ∷ es) h = endpoint_at-some i es (omega arith)

abbrev index : Text → Controller → ℕ
index key ic = count_of (lookup key ic.round_robin_idx)

abbrev advance : Text → ℕ → Controller → Controller
advance key n ic = record ic {
  round_robin_idx = insert key ((index key ic + 1) % n) ic.round_robin_idx;
}

-- The choice never leaves the list of endpoints.
chosen :
    (parses : Text → Bool) (key : Text) (e : ServiceEndpoint) (es : List ServiceEndpoint)
    (ic : Controller)
    → (x : ServiceEndpoint) × (proxy_request parses key (e ∷ es) ic
        ≡ some (
            serve parses key
              (target_of ic.local_node_name x)
              (lookup key ic.proxies)
              (advance key (suc (length es)) ic)))
unfolding proxy_request
chosen parses key e es ic =
    let n = suc (length es) in
    let (x, at) = endpoint_at-some (index key ic % n) (e ∷ es) (omega arith) in
    (x, ap (λ o. selected parses key o (advance key n ic)) at)

kept :
    (parses : Text → Bool) (key t : Text) (e : ServiceEndpoint) (es : List ServiceEndpoint)
    (ic : Controller)
    → lookup key ic.proxies ≡ some t
    → (later : Controller) × (proxy_request parses key (e ∷ es) ic ≡ some (proxied t, later))
kept parses key t e es ic at =
    let (x, f) = chosen parses key e es ic in
    let advanced = advance key (suc (length es)) ic in
    (advanced, f ∙ ap (λ o. some (serve parses key (target_of ic.local_node_name x) o advanced)) at)

stored :
    (parses : Text → Bool) (key target t : Text) (o : Option Text) (ic : Controller)
    → lookup key ic.proxies ≡ o
    → (serve parses key target o ic).0 ≡ proxied t
    → lookup key (serve parses key target o ic).1.proxies ≡ some t
stored parses key target t (some k) ic at h = ground arith
stored parses key target t none ic at h = ground (arith, lookup-insert_self key target ic.proxies)

-- A service has a proxy from the first request that is proxied on, and every later request goes to
-- the target of that proxy: neither the round robin nor the endpoints, if there are any, have a
-- say. No index leaves the list of endpoints.
proxy_sticks :
    (parses : Text → Bool) (key target : Text) (e e' : ServiceEndpoint)
    (es es' : List ServiceEndpoint) (ic after : Controller)
    → proxy_request parses key (e ∷ es) ic ≡ some (proxied target, after)
    → (later : Controller) × (proxy_request parses key (e' ∷ es') after
        ≡ some (proxied target, later))
proxy_sticks parses key target e e' es es' ic after h =
    let (x, f) = chosen parses key e es ic in
    let advanced = advance key (suc (length es)) ic in
    let served =
      serve parses key (target_of ic.local_node_name x) (lookup key ic.proxies) advanced in
    let expected : Response × Controller = (proxied target, after) in
    let same : served ≡ expected = some-injective _ _ (sym f ∙ h) in
    kept parses key target e' es' after (
      ap (λ (r : Response × Controller). lookup key r.1.proxies) (sym same)
      ∙ stored parses key (target_of ic.local_node_name x) target (lookup key ic.proxies) advanced
          refl (ap (λ (r : Response × Controller). r.0) same))
