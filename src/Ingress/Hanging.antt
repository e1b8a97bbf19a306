-- ===== src/Ingress/Hanging.antt =====
-- The locks that a request takes.
use podman_swarm.Base.{
  ℕ, ◌≡◌, refl, ap, ◌∙◌, Bool, false, none, some, List, [], ◌∷◌, Result, ok, err,
}
use podman_swarm.Base.Text.{Text}
use podman_swarm.Base.Map.{values}
use podman_swarm.Types.{Ingress, IngressPath}
use podman_swarm.Discovery
use podman_swarm.Discovery.{ServiceEndpoint, Registry, get_service_endpoints}
use podman_swarm.Ingress.Lock.{Mutex, free, rlock, lock}
use podman_swarm.Ingress.{
  Controller, returned, waits, not_found, service_unavailable, object_key, find_route, on_route,
  on_service, handle_request, add_ingress, remove_ingress,
}

-- One reader that itself waits for the write lock.
abbrev pub hung : Mutex
hung = record { readers = 1; writer = false; waiting = 1 }

-- A request for which there is a route and a fresh endpoint waits for ever for the write lock, as it
-- holds the read lock itself. From then on, every request and every change of the rules waits too.
pub ingress_hangs :
    (parses : Text → Bool) (now : ℕ) (reg : Registry) (host path : Text) (ic : Controller)
    (ingress : Ingress) (p : IngressPath) (e : ServiceEndpoint) (es : List ServiceEndpoint)
    → find_route host path (values ic.rules) ≡ some (ingress, p)
    → get_service_endpoints now p.service_name ingress.namespace reg ≡ ok (e ∷ es)
    → let start = record ic { mu = free } in
      let stuck = record ic { mu = hung } in
      (handle_request parses now reg host path start ≡ waits stuck)
      × ((later : ℕ) (reg' : Registry) (host' path' : Text)
          → handle_request parses later reg' host' path' stuck ≡ waits stuck)
      × ((new : Ingress)
          → (c : Controller) × (add_ingress new stuck ≡ waits c) × (c.rules ≡ ic.rules))
      × ((namespace name : Text)
          → (c : Controller) × (remove_ingress namespace name stuck ≡ waits c)
            × (c.rules ≡ ic.rules))
unfolding handle_request add_ingress remove_ingress rlock lock
ingress_hangs parses now reg host path ic ingress p e es route endpoints = (
  ap
        (λ o.
          on_route parses now reg o
            (record ic { mu = record { readers = 1; writer = false; waiting = 0 } }))
        route
      ∙ ap
          (λ r.
            on_service parses (object_key ingress.namespace p.service_name) r
              (record ic { mu = record { readers = 1; writer = false; waiting = 0 } }))
          endpoints,
  λ later reg' host' path'. refl,
  λ new. (_, refl, refl),
  λ namespace name. (_, refl, refl),
)

-- A request without a route is answered with status 404, one without a fresh endpoint with 503; both
-- leave the controller, its mutex included, as it was.
unrouted_returns :
    (parses : Text → Bool) (now : ℕ) (reg : Registry) (host path : Text) (ic : Controller)
    → let start = record ic { mu = free } in
      (find_route host path (values ic.rules) ≡ none
        → handle_request parses now reg host path start ≡ returned not_found start)
      × ((ingress : Ingress) (p : IngressPath)
          → find_route host path (values ic.rules) ≡ some (ingress, p)
          → ((es : List ServiceEndpoint)
              → get_service_endpoints now p.service_name ingress.namespace reg ≡ ok es
              → es ≡ [])
          → handle_request parses now reg host path start ≡ returned service_unavailable start)
unfolding handle_request rlock
unrouted_returns parses now reg host path ic = (
  λ route. ap (λ o. on_route parses now reg o held) route,
  λ ingress p route empty.
      ap (λ o. on_route parses now reg o held) route
      ∙ by_result ingress p (get_service_endpoints now p.service_name ingress.namespace reg)
          (empty),
)
  where
    held : Controller
    held = record ic { mu = record { readers = 1; writer = false; waiting = 0 } }

    by_result :
        (ingress : Ingress) (p : IngressPath) (r : Result Discovery.Error (List ServiceEndpoint))
        → ((es : List ServiceEndpoint) → r ≡ ok es → es ≡ [])
        → on_service parses (object_key ingress.namespace p.service_name) r held
          ≡ returned service_unavailable (record ic { mu = free })
    by_result ingress p (err e) empty = refl
    by_result ingress p (ok []) empty = refl
    by_result ingress p (ok (e ∷ es)) empty = absurd (cc (empty (e ∷ es) refl))
