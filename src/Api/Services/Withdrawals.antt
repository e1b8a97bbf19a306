-- ===== src/Api/Services/Withdrawals.antt =====
-- How far the deletion of a service gets: to the last pod, or to one whose broadcast panics.
use podman_swarm.Base.{
  ℕ, suc, ◌≡◌, ◌⊎◌, inl, inr, refl, ap, subst, sym, none, ◌∙◌, true, some, Option, List, [], ◌∷◌,
  ◌++◌, Bool-cases,
}
use podman_swarm.Base.Text.{Text, str, eq_refl}
use podman_swarm.Base.Map.{lookup, lookup-delete_self}
use podman_swarm.Storage.{Codec, Io, object_key, delete_service}
use podman_swarm.Scheduler.{get_all_pods}
use podman_swarm.Api.State.{State, Step, done, failed, broadcast_panics}
use podman_swarm.Types.{Pod, Service, Call, returns, panics}
use podman_swarm.Discovery.{
  ServiceEndpoint, Registry, Update, deregister_service, service_key, endpoint_id,
}
use podman_swarm.Discovery.Triples.{Deregisters, deregister_service-Deregisters}
use podman_swarm.Api.Services.{
  matches_selector, deregister_all, delete_cached_service, forget_service, then_call,
}
use podman_swarm.Api.Services.Endpoints.{
  endpoint_of, Deregistered, Deregistered-cons, Deregistered-skip, same_id,
}

module _ (updates : ℕ → Update) (svc : Service) where
  -- The broadcast of the endpoint that the registry has for a pod panics.
  abbrev pub Stuck : Pod → Registry → Type 0
  Stuck pod reg =
      (e : ServiceEndpoint) × (i : ℕ) × (endpoint_of svc pod.id reg ≡ some e)
      × (updates i e (str "deregister") ≡ panics)

  -- The loop gets through, or to a selected pod whose broadcast panics; the endpoints of the pods
  -- before it are gone.
  abbrev pub Withdraws : List Pod → Text → Option ServiceEndpoint → Registry × Call → Type 0
  Withdraws pods id before r =
      ((r.1 ≡ returns) × Deregistered svc pods id before (endpoint_of svc id r.0))
      ⊎ ((r.1 ≡ panics)
          × ((got : List Pod) × (last : Pod) × (rest : List Pod) × (pods ≡ got ++ (last ∷ rest))
              × (matches_selector last.labels svc.selector ≡ true)
              × Stuck last r.0
              × Deregistered svc got id before (endpoint_of svc id r.0)))

  Withdraws-cons :
      (pod : Pod) (pods : List Pod) (id : Text) (before mid : Option ServiceEndpoint)
      (r : Registry × Call)
      → ((ps : List Pod) (after : Option ServiceEndpoint)
          → Deregistered svc ps id mid after
          → Deregistered svc (pod ∷ ps) id before after)
      → Withdraws pods id mid r
      → Withdraws (pod ∷ pods) id before r
  Withdraws-cons pod pods id before mid r more (inl (back, h)) =
      inl (back, more pods (endpoint_of svc id r.0) h)
  Withdraws-cons pod pods id before mid r more
        (inr (broken, (got, last, rest, parts, sel, stuck, h))) =
      inr (
        broken,
        (
          pod ∷ got,
          last,
          rest,
          ap (λ ps. pod ∷ ps) parts,
          sel,
          stuck,
          more got (endpoint_of svc id r.0) h,
        ),
      )

  pub deregister_all-Withdraws :
      (i : ℕ) (pods : List Pod) (id : Text) (reg : Registry)
      → Withdraws pods id (endpoint_of svc id reg) (deregister_all updates i svc pods reg)
  unfolding deregister_all
  deregister_all-Withdraws i [] id reg = inl (refl, inr ((λ p m h. absurd m), refl))
  deregister_all-Withdraws i (pod ∷ pods) id reg =
      elim (Bool-cases (matches_selector pod.labels svc.selector)) [
        | inr out ↦
            rw (out, deregister_all)
              (Withdraws-cons pod pods id (endpoint_of svc id reg) (endpoint_of svc id reg)
                (deregister_all updates (suc i) svc pods reg)
                (λ ps after. Deregistered-skip svc pod ps id _ after out)
                (deregister_all-Withdraws (suc i) pods id reg))
        | inl sel ↦
            rw (sel, deregister_all)
              (by_call (deregister_service (updates i) svc pod reg) sel
                (deregister_service-Deregisters (updates i) svc pod reg)
                (λ reg'. deregister_all-Withdraws (suc i) pods id reg'))
      ]
    where
      by_call :
          (r : Registry × Call)
          → matches_selector pod.labels svc.selector ≡ true
          → Deregisters
              (updates i)
              (service_key svc.name svc.namespace)
              (endpoint_id svc.namespace svc.name pod.id)
              reg
              r
          → ((reg' : Registry)
              → Withdraws pods id
                  (endpoint_of svc id reg')
                  (deregister_all updates (suc i) svc pods reg'))
          → Withdraws
              (pod ∷ pods)
              id
              (endpoint_of svc id reg)
              (then_call r (λ next. deregister_all updates (suc i) svc pods next))
      by_call (reg', panics) sel (inl (back, h)) rest = cc
      by_call (reg', returns) sel (inr (broken, same, found)) rest = cc
      by_call (reg', returns) sel (inl (back, cleared)) rest =
          Withdraws-cons pod pods id (endpoint_of svc id reg) (endpoint_of svc id reg')
            (deregister_all updates (suc i) svc pods reg')
            (λ ps after h. Deregistered-cons svc pod ps id (endpoint_of svc id reg) after sel (
              subst (λ o. Deregistered svc ps id o after)
                (cleared (service_key svc.name svc.namespace)
                    (endpoint_id svc.namespace svc.name id)
                  ∙ rw (eq_refl (service_key svc.name svc.namespace), same_id svc pod.id id) refl)
                h))
            (rest reg')
      by_call (reg', panics) sel (inr (broken, same, (e, at, panicking))) rest = inr (
        refl,
        (
          [],
          pod,
          pods,
          refl,
          sel,
          (e, i, ap (endpoint_of svc pod.id) same ∙ at, panicking),
          inr ((λ p m h. absurd m), ap (endpoint_of svc id) same),
        ),
      )

-- What the deletion of a cached service answers and leaves.
abbrev pub Deletes : (ℕ → Update) → Text → Service → Text → State → State × Step → Type 0
Deletes updates key svc id s (after, step) =
    ((step ≡ done)
      × (lookup key after.services ≡ none)
      × (lookup key after.agent.storage.services ≡ none)
      × Deregistered svc (get_all_pods s.agent.pods) id (endpoint_of svc id s.registry)
          (endpoint_of svc id after.registry))
    ⊎ ((step ≡ failed broadcast_panics)
        × (after.services ≡ s.services)
        × (after.agent ≡ s.agent)
        × ((got : List Pod) × (last : Pod) × (rest : List Pod) × (get_all_pods s.agent.pods
              ≡ got ++ (last ∷ rest))
            × (matches_selector last.labels svc.selector ≡ true)
            × Stuck updates svc last after.registry
            × Deregistered svc got id (endpoint_of svc id s.registry)
                (endpoint_of svc id after.registry)))

-- Deleting a service that the cache holds takes the endpoints of the pods that it selects from the
-- registry: under each id, the registry has no endpoint if a selected pod has that id, and else what
-- it had; the service is then gone from the cache and the storage. Or a selected pod has an endpoint
-- whose broadcast panics: then only the pods before it are treated, the handler fails, and the
-- service stays in the cache and the storage.
pub delete_cached_service-Deregistered :
    (c : Codec) (io : Io) (updates : ℕ → Update) (namespace name : Text) (s : State) (svc : Service)
    (id : Text)
    → lookup (object_key namespace name) s.services ≡ some svc
    → Deletes updates
        (object_key namespace name)
        svc
        id
        s
        (delete_cached_service c io updates namespace name s)
unfolding delete_cached_service delete_service
delete_cached_service-Deregistered c io updates namespace name s svc id e =
    subst (Deletes updates (object_key namespace name) svc id s) (sym found) (
      by_loop (deregister_all updates 0 svc pods s.registry)
        (deregister_all-Withdraws updates svc 0 pods id s.registry))
  where
    pods : List Pod
    pods = get_all_pods s.agent.pods

    found :
        delete_cached_service c io updates namespace name s
        ≡ forget_service c io namespace name s (deregister_all updates 0 svc pods s.registry)
    found = rw (e, delete_cached_service) refl

    by_loop :
        (r : Registry × Call)
        → Withdraws updates svc pods id (endpoint_of svc id s.registry) r
        → Deletes updates
            (object_key namespace name)
            svc
            id
            s
            (forget_service c io namespace name s r)
    by_loop (reg, panics) (inl (back, h)) = cc
    by_loop (reg, returns) (inr (broken, h)) = cc
    by_loop (reg, returns) (inl (back, h)) = inl (
      refl,
      lookup-delete_self (object_key namespace name) s.services,
      lookup-delete_self (object_key namespace name) s.agent.storage.services,
      h,
    )
    by_loop (reg, panics) (inr (broken, h)) = inr (refl, refl, refl, h)
