-- ===== src/Api/Deployments/Leaks.antt =====
-- What stays behind when a deployment is deleted.
use podman_swarm.Base.{
  ℕ, zero, suc, ◌≡◌, ◌≢◌, refl, sym, ap, subst, ◌∙◌, none, some, List, [], ◌∷◌, All, In, Result, ok,
  err, arith,
}
use podman_swarm.Base.Text.{Text}
use podman_swarm.Base.Int.{ℤ, pos}
use podman_swarm.Base.Map.{Map, lookup, lookup-insert_self, lookup-delete_self}
use podman_swarm.Kube.{DeploymentObject}
use podman_swarm.Types.{Pod, Deployment, Node}
use podman_swarm.Storage.{save_deployment, Codec, Io, object_key}
use podman_swarm.Parser.{parse_deployment}
use podman_swarm.Api.Deployments.{
  settle, Error, PodIo, Made, make_pod, template_pod, make_pods, Agent, apply_deployment,
  delete_cached_deployment,
}
use podman_swarm.Api.Deployments.Table.{
  Held, scheduled-Held, start_local-Held, start_local-id, make_pod-local, make_pods-Held,
  remove_pods_others,
}

module _ (local : Text) (nodes : List Node)
    (alone : (node : Node) → In node nodes → node.name ≡ local) where
  -- A round that succeeds leaves an entry under the generated id, and its pod has a container's id.
  round :
      (io : PodIo) (template made : Pod) (pods : Map Pod)
      → (make_pod local nodes io template pods).result ≡ ok made
      → Held io.id (make_pod local nodes io template pods).pods
        × ((c : Text) × (io.container ≡ some c) × (made.id ≡ c))
  round io template made pods h =
      let (s, at, same) = make_pod-local local nodes alone io template made pods h in
      let held = (scheduled-Held io.id nodes io template pods s at).1 in
      (
        subst (λ (z : Made). Held io.id z.pods) (sym same)
            (start_local-Held io.id io s.pod s.pods held),
        start_local-id io s.pod made s.pods (sym (ap (λ (z : Made). z.result) same) ∙ h),
      )

  made_ids :
      (k : Text) (ios : ℕ → PodIo) (dep : Deployment) (i n : ℕ) (pods : Map Pod)
      → ((j : ℕ) (c : Text) → (ios j).container ≡ some c → c ≢ k)
      → All (λ p. p.id ≢ k) (make_pods local nodes ios dep i n pods).made
  unfolding make_pods
  made_ids k ios dep i zero pods other = tt
  made_ids k ios dep i (suc n) pods other =
      let step = make_pod local nodes (ios i) (template_pod dep i) pods in
      by_result step.result refl (made_ids k ios dep (suc i) n step.pods other)
    where
      by_result :
          (o : Result Error Pod)
          → (make_pod local nodes (ios i) (template_pod dep i) pods).result ≡ o
          → All
              (λ p. p.id ≢ k)
              (make_pods local nodes ios dep
                (suc i)
                n
                (make_pod local nodes (ios i) (template_pod dep i) pods).pods).made
          → All (λ p. p.id ≢ k) (make_pods local nodes ios dep i (suc n) pods).made
      by_result (err e) at rest =
          let none_made : [] ≡ (make_pods local nodes ios dep i (suc n) pods).made = ground arith in
          subst (All (λ (p : Pod). p.id ≢ k)) none_made tt
      by_result (ok p) at rest =
          let (held, (c, made, same)) = round (ios i) (template_pod dep i) p pods at in
          let here : p.id ≢ k = λ e. other i c made (sym same ∙ e) in
          let both : All (λ (p : Pod). p.id ≢ k)
              (p
                ∷ (make_pods local nodes ios dep (suc i) n
                    (make_pod local nodes (ios i) (template_pod dep i) pods).pods).made) =
            (here, rest) in
          let more_made : p
                ∷ (make_pods local nodes ios dep (suc i) n
                    (make_pod local nodes (ios i) (template_pod dep i) pods).pods).made
              ≡ (make_pods local nodes ios dep i (suc n) pods).made =
            ground arith in
          subst (All (λ (p : Pod). p.id ≢ k)) more_made both

  first-Held :
      (ios : ℕ → PodIo) (dep : Deployment) (n : ℕ) (pods : Map Pod)
      → (make_pods local nodes ios dep 0 (suc n) pods).error ≡ none
      → Held (ios 0).id (make_pods local nodes ios dep 0 (suc n) pods).pods
  unfolding make_pods
  first-Held ios dep n pods h =
      by_result (make_pod local nodes (ios 0) (template_pod dep 0) pods).result refl
    where
      by_result :
          (o : Result Error Pod)
          → (make_pod local nodes (ios 0) (template_pod dep 0) pods).result ≡ o
          → Held (ios 0).id (make_pods local nodes ios dep 0 (suc n) pods).pods
      by_result (err e) at = absurd (ground arith)
      by_result (ok p) at =
          let step = make_pod local nodes (ios 0) (template_pod dep 0) pods in
          let (held, rest) = round (ios 0) (template_pod dep 0) p pods at in
          subst (Held (ios 0).id) (ground arith)
            (make_pods-Held local nodes (ios 0).id ios dep 1 n step.pods held)

abbrev parsed : DeploymentObject → ℤ → Deployment
parsed o m = record {
  name = o.name;
  namespace = o.namespace;
  replicas = m;
  desired_replicas = m;
  pods = [];
  template = o.template;
  labels = o.labels;
  selector = o.selector;
}

applied :
    (c : Codec) (io : Io) (local : Text) (nodes : List Node) (ios : ℕ → PodIo)
    (o : DeploymentObject) (a : Agent) (n : ℕ)
    → o.replicas ≡ some (pos (suc n))
    → let dep = parsed o (pos (suc n)) in
      let saved = save_deployment c io dep a.storage a.disk in
      let loop = make_pods local nodes ios dep 0 (suc n) a.pods in
      apply_deployment c io local nodes ios o a
      ≡ (settle dep saved.storage saved.disk loop a, loop.error)
unfolding apply_deployment parse_deployment
applied c io local nodes ios o a n h = rw h refl

-- On a cluster with a single node, a deployment that was applied without an error and then deleted
-- is gone from the cache, but the scheduler keeps its first pod for ever: the pod stands under the
-- id that was generated for it, and is removed under the id of its container, which is another.
pub local_pods_leak :
    (c : Codec) (io io' : Io) (local : Text) (nodes : List Node) (ios : ℕ → PodIo)
    (o : DeploymentObject) (a : Agent) (n : ℕ)
    → ((node : Node) → In node nodes → node.name ≡ local)
    → o.replicas ≡ some (pos (suc n))
    → ((j : ℕ) (x : Text) → (ios j).container ≡ some x → x ≢ (ios 0).id)
    → (apply_deployment c io local nodes ios o a).1 ≡ none
    → let after =
        delete_cached_deployment c io' o.namespace o.name
          (apply_deployment c io local nodes ios o a).0 in
      (lookup (object_key o.namespace o.name) after.deployments ≡ none)
      × ((p : Pod) × (lookup (ios 0).id after.pods ≡ some p))
unfolding delete_cached_deployment
local_pods_leak c io io' local nodes ios o a n alone replicas other fine =
    let key = object_key o.namespace o.name in
    let dep = parsed o (pos (suc n)) in
    let saved = save_deployment c io dep a.storage a.disk in
    let loop = make_pods local nodes ios dep 0 (suc n) a.pods in
    let done = record dep { pods = loop.made } in
    let result = settle dep saved.storage saved.disk loop a in
    let same = applied c io local nodes ios o a n replicas in
    let (p, held) =
      first-Held local nodes alone ios dep n a.pods (sym (ap (λ x. x.1) same) ∙ fine) in
    let others =
      remove_pods_others (ios 0).id loop.made loop.pods
        (made_ids local nodes alone (ios 0).id ios dep 0 (suc n) a.pods other) in
    let found : lookup key result.deployments ≡ some done =
      lookup-insert_self key done a.deployments in
    let gone = lookup-delete_self key result.deployments in
    subst
      (λ (x : Agent).
        let after = delete_cached_deployment c io' o.namespace o.name x in
        (lookup key after.deployments ≡ none)
        × ((q : Pod) × (lookup (ios 0).id after.pods ≡ some q)))
      (sym (ap (λ x. x.0) same)) (ground arith, (p, ground arith))
