-- ===== src/Api/Listings/Lookups.antt =====
-- What the handlers for one object find.
use podman_swarm.Base.{
  ℕ, zero, suc, ◌≡◌, ◌⊎◌, inl, inr, refl, ap, sym, subst, ◌∙◌, true, Option, none, some, List, [],
  ◌∷◌, length, In, Result, ok, err, Bool-cases, arith,
}
use podman_swarm.Base.Text.{Text, eq_iff}
use podman_swarm.Base.Int.{ℤ, rounds}
use podman_swarm.Base.Map.{Map, lookup, insert, values, lookup-insert_self}
use podman_swarm.Kube.{DeploymentObject, deployment_object}
use podman_swarm.Types.{Pod, Deployment, Node}
use podman_swarm.Storage.{Codec, object_key, save_deployment}
use podman_swarm.Scheduler.{get_all_pods}
use podman_swarm.Parser.{parse_deployment}
use podman_swarm.Api.Deployments.{
  Error, PodIo, make_pod, template_pod, make_pods, apply_deployment, settle, Agent,
}
use podman_swarm.Api.State.{State, done}
use podman_swarm.Api.Manifests.{Inputs, apply_object, deployed}
use podman_swarm.Api.Listings.{
  or_not_found, found, not_found, is_named, first_named, get_pod, get_deployment,
}

abbrev pub Named : Text → Text → Pod → Type 0
Named namespace name pod = (pod.namespace ≡ namespace) × (pod.name ≡ name)

Named-is_named :
    (namespace name : Text) (pod : Pod)
    → is_named namespace name pod ≡ true
    → Named namespace name pod
Named-is_named namespace name pod h =
    ((eq_iff pod.namespace namespace).0 (ground arith), (eq_iff pod.name name).0 (ground arith))

first_named_lem :
    (namespace name : Text) (pods : List Pod)
    → ((pod : Pod) × (first_named namespace name pods ≡ found pod)
        × In pod pods
        × Named namespace name pod)
      ⊎ ((first_named namespace name pods ≡ not_found)
          × ((pod : Pod) → In pod pods → ¬ Named namespace name pod))
unfolding first_named
first_named_lem namespace name [] = inr (refl, λ pod m. absurd m)
first_named_lem namespace name (p ∷ pods) = elim (Bool-cases (is_named namespace name p)) [
  | inl e ↦ inl (p, rw e refl, inl refl, Named-is_named namespace name p e)
  | inr e ↦ elim (first_named_lem namespace name pods) [
    | inl (q, at, m, n) ↦ inl (q, rw e at, inr m, n)
    | inr (at, others) ↦ inr (
      rw e at,
      λ q m. elim m [
        | inl same ↦ λ n. absurd (
            ground (
              arith,
              eq_iff p.namespace namespace,
              eq_iff p.name name,
              ap (λ (x : Pod). x.namespace) same,
              ap (λ (x : Pod). x.name) same,
            ))
        | inr m' ↦ others q m'
      ],
    )
  ]
]

-- GET of a pod answers with a pod of the scheduler's table that has the namespace and the name, if
-- there is one, and else with status 404.
get_pod_lem :
    (namespace name : Text) (s : State)
    → ((pod : Pod) × (get_pod namespace name s ≡ found pod)
        × In pod (get_all_pods s.agent.pods)
        × Named namespace name pod)
      ⊎ ((get_pod namespace name s ≡ not_found)
          × ((pod : Pod) → In pod (get_all_pods s.agent.pods) → ¬ Named namespace name pod))
unfolding get_pod
get_pod_lem namespace name s = first_named_lem namespace name (get_all_pods s.agent.pods)

made_all :
    (local : Text) (nodes : List Node) (ios : ℕ → PodIo) (dep : Deployment) (i n : ℕ)
    (pods : Map Pod)
    → (make_pods local nodes ios dep i n pods).error ≡ none
    → length (make_pods local nodes ios dep i n pods).made ≡ n
unfolding make_pods
made_all local nodes ios dep i zero pods h = refl
made_all local nodes ios dep i (suc n) pods h =
    let step = make_pod local nodes (ios i) (template_pod dep i) pods in
    by_result step.result refl (made_all local nodes ios dep (suc i) n step.pods)
  where
    by_result :
        (o : Result Error Pod)
        → (make_pod local nodes (ios i) (template_pod dep i) pods).result ≡ o
        → ((make_pods local nodes ios dep
                (suc i)
                n
                (make_pod local nodes (ios i) (template_pod dep i) pods).pods).error
              ≡ none
            → length
                (make_pods local nodes ios dep
                  (suc i)
                  n
                  (make_pod local nodes (ios i) (template_pod dep i) pods).pods).made
              ≡ n)
        → length (make_pods local nodes ios dep i (suc n) pods).made ≡ suc n
    by_result (err e) at ih = absurd (ground arith)
    by_result (ok p) at ih = ground (arith, ih (ground arith))

abbrev parsed : DeploymentObject → ℤ → Deployment
parsed o n = record {
  name = o.name;
  namespace = o.namespace;
  replicas = n;
  desired_replicas = n;
  pods = [];
  template = o.template;
  labels = o.labels;
  selector = o.selector;
}

-- The state and the error of applyDeployment for an object that has a number of replicas.
apply_deployment-settle :
    (c : Codec) (local : Text) (nodes : List Node) (i : Inputs) (o : DeploymentObject) (n : ℤ)
    (s : State)
    → o.replicas ≡ some n
    → let dep = parsed o n in
      let saved = save_deployment c i.io dep s.agent.storage s.agent.disk in
      let loop = make_pods local nodes i.pods dep 0 (rounds n) s.agent.pods in
      apply_deployment c i.io local nodes i.pods o s.agent
      ≡ (settle dep saved.storage saved.disk loop s.agent, loop.error)
unfolding apply_deployment parse_deployment
apply_deployment-settle c local nodes i o n s e = rw (e, parse_deployment) refl

-- An agent whose applied deployment has these pods.
settle-found :
    (namespace name : Text) (dep : Deployment) (s : State) (a : Agent)
    → a.deployments ≡ insert (object_key namespace name) dep s.agent.deployments
    → get_deployment namespace name (record s { agent = a }) ≡ found dep
unfolding get_deployment
settle-found namespace name dep s a e =
    ap (λ m. or_not_found (lookup (object_key namespace name) m)) e
    ∙ ap or_not_found (lookup-insert_self (object_key namespace name) dep s.agent.deployments)

-- After a deployment has been applied without an error, GET answers with it, and it has as many pods
-- as it wants.
applied_is_found :
    (c : Codec) (local : Text) (nodes : Map Node) (i : Inputs) (o : DeploymentObject) (n : ℤ)
    (s s' : State)
    → o.replicas ≡ some n
    → apply_object c local nodes i (deployment_object o) s ≡ (s', done)
    → (dep : Deployment) × (get_deployment o.namespace o.name s' ≡ found dep)
      × (dep.template ≡ o.template)
      × (length dep.pods ≡ rounds n)
unfolding apply_object
applied_is_found c local nodes i o n s s' e h =
    let dep = parsed o n in
    let saved = save_deployment c i.io dep s.agent.storage s.agent.disk in
    let loop = make_pods local (values nodes) i.pods dep 0 (rounds n) s.agent.pods in
    let a = settle dep saved.storage saved.disk loop s.agent in
    let same : deployed s (a, loop.error) ≡ (s', done) =
      sym (ap (deployed s) (apply_deployment-settle c local (values nodes) i o n s e)) ∙ h in
    let (ended, left) = by_error a loop.error same in
    (
      record dep { pods = loop.made },
      subst (λ t. get_deployment o.namespace o.name t ≡ found (record dep { pods = loop.made }))
          left (settle-found o.namespace o.name (record dep { pods = loop.made }) s a refl),
      refl,
      made_all local (values nodes) i.pods dep 0 (rounds n) s.agent.pods ended,
    )
  where
    by_error :
        (a : Agent) (x : Option Error)
        → deployed s (a, x) ≡ (s', done)
        → (x ≡ none) × (record s { agent = a } ≡ s')
    by_error a none p = (refl, ap (λ r. r.0) p)
    by_error a (some y) p = absurd (ground (arith, ap (λ r. r.1) p))
