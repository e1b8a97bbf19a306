-- ===== src/Api/Manifests/Deletion.antt =====
-- What DeleteManifest deletes.
use podman_swarm.Base.{
  ℕ, ◌≡◌, ◌≢◌, ◌⊎◌, ◌<◌, inl, inr, refl, ap, sym, subst, ◌∙◌, Option, none, some, Option-cases,
  arith,
}
use podman_swarm.Base.Text.{Text, str}
use podman_swarm.Base.Map.{lookup, lookup-delete_self}
use podman_swarm.Base.Map.Distinct.{or_else}
use podman_swarm.Types.{Deployment, Service, Call, returns, panics}
use podman_swarm.Scheduler.{get_all_pods}
use podman_swarm.Discovery.{ServiceEndpoint, Registry, Update}
use podman_swarm.Storage.{
  ClusterState, Codec, Io, object_key, delete_deployment, delete_service, delete_ingress, or_empty,
}
use podman_swarm.Storage.Merge.{merge_state}
use podman_swarm.Storage.Merge.Laws.{IsState, merge_state_newer}
use podman_swarm.Ingress.{Controller}
use podman_swarm.Ingress.Free.{removed_rules, remove_ingress-free}
use podman_swarm.Ingress.Lock.{free}
use podman_swarm.Api.Deployments.{Agent, delete_cached_deployment}
use podman_swarm.Api.Services.{deregister_all, forget_service, delete_cached_service}
use podman_swarm.Api.Services.Endpoints.{endpoint_of}
use podman_swarm.Api.Services.Withdrawals.{Withdraws, deregister_all-Withdraws}
use podman_swarm.Api.Ingresses.{delete_cached_ingress}
use podman_swarm.Api.State.{State, Step, stored, done, failed, hangs, broadcast_panics}
use podman_swarm.Api.Manifests.{ingress_deleted, delete_manifest}

-- An object is dropped from a table if the cache has it; else the table keeps what it has.
abbrev pub Dropped {ℓ} : {A B : Type ℓ} → Option A → Option B → Option B → Type ℓ
Dropped cached before after =
    ((cached ≡ none) × (after ≡ before)) ⊎ ((cached ≢ none) × (after ≡ none))

-- The broadcast of a deregistration panics.
abbrev pub Panicking : (ℕ → Update) → Type 0
Panicking updates = (i : ℕ) × (e : ServiceEndpoint) × (updates i e (str "deregister") ≡ panics)

module _ (c : Codec) (io : Io) (namespace name : Text) where
  abbrev key : Text
  key = object_key namespace name

  delete_cached_deployment-Dropped :
      (a : Agent)
      → let a' = delete_cached_deployment c io namespace name a in
        (lookup key a'.deployments ≡ none)
        × Dropped
            (lookup key a.deployments)
            (lookup key a.storage.deployments)
            (lookup key a'.storage.deployments)
        × (a'.storage.services ≡ a.storage.services)
        × (a'.storage.ingresses ≡ a.storage.ingresses)
  unfolding delete_cached_deployment delete_deployment
  delete_cached_deployment-Dropped a = elim (Option-cases (lookup key a.deployments)) [
    | inl e ↦ rw (e, delete_cached_deployment) (e, inl (refl, refl), refl, refl)
    | inr (dep, e) ↦
        rw (e, delete_cached_deployment)
          (
            lookup-delete_self key a.deployments,
            inr ((λ h. cc), lookup-delete_self key a.storage.deployments),
            refl,
            refl,
          )
  ]

  -- The service is gone, or the deletion has stopped at a broadcast that panics.
  abbrev ServiceDropped : (ℕ → Update) → State → State × Step → Type 0
  ServiceDropped updates s (s', step) =
      ((step ≡ done)
        × (lookup key s'.services ≡ none)
        × Dropped (lookup key s.services) (lookup key s.agent.storage.services)
            (lookup key s'.agent.storage.services)
        × (s'.agent.deployments ≡ s.agent.deployments)
        × (s'.agent.storage.deployments ≡ s.agent.storage.deployments)
        × (s'.agent.storage.ingresses ≡ s.agent.storage.ingresses)
        × (s'.ingresses ≡ s.ingresses)
        × (s'.controller ≡ s.controller))
      ⊎ ((step ≡ failed broadcast_panics)
          × (lookup key s.services ≢ none)
          × Panicking updates
          × ((registry : Registry) × (s' ≡ record s { registry = registry })))

  delete_cached_service-Dropped :
      (updates : ℕ → Update) (s : State)
      → ServiceDropped updates s (delete_cached_service c io updates namespace name s)
  unfolding delete_cached_service delete_service
  delete_cached_service-Dropped updates s = elim (Option-cases (lookup key s.services)) [
    | inl e ↦
        rw (e, delete_cached_service)
          (inl (refl, e, inl (refl, refl), refl, refl, refl, refl, refl))
    | inr (svc, e) ↦
        let found : delete_cached_service c io updates namespace name s
            ≡ forget_service c io namespace name s
                (deregister_all updates 0 svc (get_all_pods s.agent.pods) s.registry) =
          rw (e, delete_cached_service) refl in
        subst (ServiceDropped updates s) (sym found) (
          by_loop svc (λ h. cc)
            (deregister_all updates 0 svc (get_all_pods s.agent.pods) s.registry)
            (deregister_all-Withdraws updates svc 0 (get_all_pods s.agent.pods) key s.registry))
  ]
    where
      by_loop :
          (svc : Service)
          → lookup key s.services ≢ none
          → (r : Registry × Call)
          → Withdraws updates svc (get_all_pods s.agent.pods) key (endpoint_of svc key s.registry) r
          → ServiceDropped updates s (forget_service c io namespace name s r)
      by_loop svc there (reg, panics) (inl (back, h)) = cc
      by_loop svc there (reg, returns) (inr (broken, h)) = cc
      by_loop svc there (reg, returns) (inl (back, h)) = inl (
        refl,
        lookup-delete_self key s.services,
        inr (there, lookup-delete_self key s.agent.storage.services),
        refl,
        refl,
        refl,
        refl,
        refl,
      )
      by_loop svc there (reg, panics)
            (inr (broken, (got, last, rest, parts, sel, (e, i, at, panicking), h))) =
          inr (refl, there, (i, e, panicking), (reg, refl))

  delete_cached_ingress-Dropped :
      (s : State) (ic : Controller)
      → s.controller ≡ some ic
      → ic.mu ≡ free
      → let r = delete_cached_ingress c io namespace name s in
        (r.1 ≡ done)
        × (lookup key r.0.ingresses ≡ none)
        × Dropped
            (lookup key s.ingresses)
            (lookup key s.agent.storage.ingresses)
            (lookup key r.0.agent.storage.ingresses)
        × ((ic' : Controller) × (r.0.controller ≡ some ic')
            × Dropped (lookup key s.ingresses) (lookup key ic.rules) (lookup key ic'.rules))
        × (r.0.services ≡ s.services)
        × (r.0.agent.deployments ≡ s.agent.deployments)
        × (r.0.agent.storage.deployments ≡ s.agent.storage.deployments)
        × (r.0.agent.storage.services ≡ s.agent.storage.services)
  unfolding delete_cached_ingress delete_ingress
  delete_cached_ingress-Dropped s ic h m = elim (Option-cases (lookup key s.ingresses)) [
    | inl e ↦
        rw (e, delete_cached_ingress)
          (refl, e, inl (refl, refl), (ic, h, inl (refl, refl)), refl, refl, refl, refl)
    | inr (ing, e) ↦
        rw (e, delete_cached_ingress)
          (rw (h, remove_ingress-free namespace name ic m)
            (
              refl,
              lookup-delete_self key s.ingresses,
              inr ((λ h. cc), lookup-delete_self key s.agent.storage.ingresses),
              (
                removed_rules namespace name ic,
                refl,
                inr ((λ h. cc), lookup-delete_self key ic.rules),
              ),
              refl,
              refl,
              refl,
              refl,
            ))
  ]

-- Each object of the key is gone from its cache, and from its table if the cache had it.
pub record IsDeleted (key : Text) (s : State) (ic : Controller) (s' : State) : Type 0 where
  pub deployment : lookup key s'.agent.deployments ≡ none
  pub service : lookup key s'.services ≡ none
  pub ingress : lookup key s'.ingresses ≡ none
  pub stored_deployment :
      Dropped
        (lookup key s.agent.deployments)
        (lookup key s.agent.storage.deployments)
        (lookup key s'.agent.storage.deployments)
  pub stored_service :
      Dropped
        (lookup key s.services)
        (lookup key s.agent.storage.services)
        (lookup key s'.agent.storage.services)
  pub stored_ingress :
      Dropped
        (lookup key s.ingresses)
        (lookup key s.agent.storage.ingresses)
        (lookup key s'.agent.storage.ingresses)
  pub controller : Controller
  pub kept : s'.controller ≡ some controller
  pub rule : Dropped (lookup key s.ingresses) (lookup key ic.rules) (lookup key controller.rules)

-- Of the deployment of a key: gone from the cache, and from its table if the cache had it.
abbrev pub DeploymentDropped : Text → State → State → Type 0
DeploymentDropped key s s' =
    (lookup key s'.agent.deployments ≡ none)
    × Dropped (lookup key s.agent.deployments) (lookup key s.agent.storage.deployments)
        (lookup key s'.agent.storage.deployments)

-- The deletion stopped at the service, whose broadcast panics: it is kept, and so is the ingress.
abbrev pub StopsAtService : (ℕ → Update) → Text → State → State × Step → Type 0
StopsAtService updates key s (s', step) =
    (step ≡ failed broadcast_panics)
    × (lookup key s.services ≢ none)
    × Panicking updates
    × DeploymentDropped key s s'
    × (s'.services ≡ s.services)
    × (s'.ingresses ≡ s.ingresses)
    × (s'.agent.storage.services ≡ s.agent.storage.services)
    × (s'.agent.storage.ingresses ≡ s.agent.storage.ingresses)
    × (s'.controller ≡ s.controller)

-- What follows the part for services, if that returns.
ingress_deleted-IsDeleted :
    (c : Codec) (io io'' : Io) (updates : ℕ → Update) (namespace name : Text) (s : State)
    (ic : Controller) (r : State × Step)
    → s.controller ≡ some ic
    → ic.mu ≡ free
    → let k = object_key namespace name in
      let s1 = record s { agent = delete_cached_deployment c io namespace name s.agent } in
      ServiceDropped c io namespace name updates s1 r
      → let r' = ingress_deleted c io'' namespace name r in
        ((r'.1 ≡ done) × IsDeleted k s ic r'.0) ⊎ StopsAtService updates k s r'
ingress_deleted-IsDeleted c io io'' updates namespace name s ic (s2, failed e) h m
      (inl (back, v0, v1, v2, v3, v4, v5, v6)) =
    cc
ingress_deleted-IsDeleted c io io'' updates namespace name s ic (s2, hangs) h m
      (inl (back, v0, v1, v2, v3, v4, v5, v6)) =
    cc
ingress_deleted-IsDeleted c io io'' updates namespace name s ic (s2, done) h m
      (inr (broken, there, panicking, same)) =
    cc
ingress_deleted-IsDeleted c io io'' updates namespace name s ic (s2, hangs) h m
      (inr (broken, there, panicking, same)) =
    cc
ingress_deleted-IsDeleted c io io'' updates namespace name s ic (s2, failed e) h m
      (inr (broken, there, panicking, (reg, same))) =
    let s1 = record s { agent = delete_cached_deployment c io namespace name s.agent } in
    let (d0, d1, d2, d3) = delete_cached_deployment-Dropped c io namespace name s.agent in
    inr (
      subst (λ t. StopsAtService updates (object_key namespace name) s (t, failed e)) (sym same)
        (broken, there, panicking, (d0, d1), refl, refl, d2, d3, refl))
ingress_deleted-IsDeleted c io io'' updates namespace name s ic (s2, done) h m
      (inl (back, v0, v1, v2, v3, v4, v5, v6)) =
    let k = object_key namespace name in
    let (d0, d1, d2, d3) = delete_cached_deployment-Dropped c io namespace name s.agent in
    let (r0, g0, g1, (ic', at, g2), g3, g4, g5, g6) =
      delete_cached_ingress-Dropped c io'' namespace name s2 ic (v6 ∙ h) m in
    inl (
      r0,
      record {
        deployment = ap (lookup k) (g4 ∙ v2) ∙ d0;
        service = ap (lookup k) g3 ∙ v0;
        ingress = g0;
        stored_deployment =
            subst
              (λ t.
                Dropped (lookup k s.agent.deployments) (lookup k s.agent.storage.deployments)
                  (lookup k t))
              (sym (g5 ∙ v3)) d1;
        stored_service =
            subst
              (λ t. Dropped (lookup k s.services) (lookup k s.agent.storage.services) (lookup k t))
              (sym g6)
              (subst
                (λ t.
                  Dropped (lookup k s.services) (lookup k t) (lookup k s2.agent.storage.services))
                d2 v1);
        stored_ingress =
            subst
              (λ t. Dropped (lookup k s.ingresses) (lookup k t) (
                lookup k
                  (delete_cached_ingress c io'' namespace name s2).0.agent.storage.ingresses))
              (v4 ∙ d3)
              (subst
                (λ t. Dropped (lookup k t) (lookup k s2.agent.storage.ingresses) (
                  lookup k
                    (delete_cached_ingress c io'' namespace name s2).0.agent.storage.ingresses))
                v5 g1);
        controller = ic';
        kept = at;
        rule = subst (λ t. Dropped (lookup k t) (lookup k ic.rules) (lookup k ic'.rules)) v5 g2;
      },
    )

-- With an ingress controller whose mutex is free, DELETE answers with success, and none of the three
-- caches holds the key any more. An object that its cache had is gone from the storage, an ingress
-- also from the controller's rules; any other object of that key stays where it is. Or DELETE fails
-- since the cache had the service and a broadcast of its deregistration panics: then the deployment is
-- deleted all the same, while the service stays in the cache and the storage, and nothing is done
-- about the ingress. That does not happen if all broadcasts return.
pub delete_manifest-IsDeleted :
    (c : Codec) (io io' io'' : Io) (updates : ℕ → Update) (namespace name : Text) (s : State)
    (ic : Controller)
    → s.controller ≡ some ic
    → ic.mu ≡ free
    → let r = delete_manifest c io io' io'' updates namespace name s in
      ((r.1 ≡ done) × IsDeleted (object_key namespace name) s ic r.0)
      ⊎ StopsAtService updates (object_key namespace name) s r
unfolding delete_manifest
delete_manifest-IsDeleted c io io' io'' updates namespace name s ic h m =
    let s1 = record s { agent = delete_cached_deployment c io namespace name s.agent } in
    ingress_deleted-IsDeleted c io io'' updates namespace name s ic
      (delete_cached_service c io' updates namespace name s1) h m
      (delete_cached_service-Dropped c io' namespace name updates s1)

uncached :
    (c : Codec) (io io' io'' : Io) (updates : ℕ → Update) (namespace name : Text) (s : State)
    → lookup (object_key namespace name) s.agent.deployments ≡ none
    → lookup (object_key namespace name) s.services ≡ none
    → lookup (object_key namespace name) s.ingresses ≡ none
    → delete_manifest c io io' io'' updates namespace name s ≡ (s, done)
unfolding delete_manifest delete_cached_deployment delete_cached_service delete_cached_ingress
uncached c io io' io'' updates namespace name s d v g = ground arith

-- A deployment that a newer state of another node brings into the storage cannot be deleted on this
-- node: with the key in none of the caches, which a merge does not touch, DELETE answers with
-- success and the storage still holds the deployment.
pub merged_not_deleted :
    (c : Codec) (io io' io'' merging : Io) (updates : ℕ → Update) (namespace name : Text)
    (st : ClusterState) (s : State) (dep : Deployment)
    → IsState st
    → s.agent.storage.last_modified < st.last_modified
    → lookup (object_key namespace name) (or_empty st.deployments) ≡ some dep
    → lookup (object_key namespace name) s.agent.deployments ≡ none
    → lookup (object_key namespace name) s.services ≡ none
    → lookup (object_key namespace name) s.ingresses ≡ none
    → let merge = merge_state c merging st s.agent.storage s.agent.disk in
      let s' = record s { agent = stored merge s.agent } in
      let r = delete_manifest c io io' io'' updates namespace name s' in
      (r.1 ≡ done) × (lookup (object_key namespace name) r.0.agent.storage.deployments ≡ some dep)
merged_not_deleted c io io' io'' merging updates namespace name st s dep v newer at d g i =
    let merge = merge_state c merging st s.agent.storage s.agent.disk in
    let s' = record s { agent = stored merge s.agent } in
    let k = object_key namespace name in
    let there : lookup k merge.storage.deployments ≡ some dep =
      (merge_state_newer c merging st s.agent.storage s.agent.disk v newer).0 k
      ∙ ap (λ o. or_else o (lookup k s.agent.storage.deployments)) at in
    subst (λ r. (r.1 ≡ done) × (lookup k r.0.agent.storage.deployments ≡ some dep))
      (sym (uncached c io io' io'' updates namespace name s' d g i)) (refl, there)
