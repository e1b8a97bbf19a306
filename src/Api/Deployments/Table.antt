-- ===== src/Api/Deployments/Table.antt =====
-- The scheduler's table through the loops of the handlers.
use podman_swarm.Base.{
  ℕ, zero, suc, sym, if◌then◌else◌, ◌≡◌, ◌≢◌, refl, ap, subst, ◌∙◌, true, Option, none, some, List,
  [], ◌∷◌, All, In, Bool-cases, Option-cases, inl, inr, Result, ok, err, arith,
}
use podman_swarm.Base.Text.{Text, ◌==◌, eq_iff, eq_refl}
use podman_swarm.Base.Map.{
  Map, lookup, insert, delete, lookup-insert, lookup-insert_self, lookup-delete,
}
use podman_swarm.Types.{Deployment, Pod, Node}
use podman_swarm.Scheduler as Scheduler
use podman_swarm.Scheduler.{Scheduled, schedule_pod, update_pod_state, with_state, remove_pod}
use podman_swarm.Scheduler.Placement.{schedule_pod_lem}
use podman_swarm.Api.Deployments.{
  Error, schedule_failed, Made, make_pods, template_pod, PodIo, renamed, updated, entry_or,
  start_local, with_id, make_pod, remove_pods,
}

abbrev pub Held : Text → Map Pod → Type 0
Held k pods = (p : Pod) × (lookup k pods ≡ some p)

Held-insert : (k j : Text) (p : Pod) (pods : Map Pod) → Held k pods → Held k (insert j p pods)
Held-insert k j p pods (x, at) = elim (Bool-cases (j == k)) [
  | inl e ↦ (p, ground (arith, lookup-insert j k p pods))
  | inr e ↦ (x, ground (arith, lookup-insert j k p pods))
]

Held-updated :
    (k id : Text) (state : _) (pods : Map Pod)
    → Held k pods
    → Held k (updated pods (update_pod_state id state pods))
unfolding update_pod_state
Held-updated k id state pods h = by_entry (lookup id pods)
  where
    by_entry : (o : Option Pod) → Held k (updated pods (with_state id state o pods))
    by_entry none = h
    by_entry (some p) = Held-insert k id (record p { state = state }) pods h

pub start_local-Held :
    (k : Text) (io : PodIo) (pod : Pod) (pods : Map Pod)
    → Held k pods
    → Held k (start_local io pod pods).pods
unfolding start_local
start_local-Held k io pod pods h = by_container io.container
  where
    by_container :
        (o : Option Text) → Held k (start_local (record io { container = o }) pod pods).pods
    by_container none = h
    by_container (some c) =
        let shared = insert pod.id (renamed c pod) pods in
        let held = Held-insert k pod.id (renamed c pod) pods h in
        elim (Bool-cases io.start_ok) [
          | inl e ↦ subst (Held k) (ground arith) (Held-updated k c io.state shared held)
          | inr e ↦ subst (Held k) (ground arith) held
        ]

-- Whatever UpdatePodState finds, the pod keeps the id of its container.
read_back :
    (c : Text) (state : _) (pod : Pod) (pods : Map Pod)
    → let shared = insert pod.id (renamed c pod) pods in
      (entry_or
        (renamed c pod)
        (lookup pod.id (updated shared (update_pod_state c state shared)))).id
      ≡ c
unfolding update_pod_state
read_back c state pod pods = by_entry (lookup c (insert pod.id (renamed c pod) pods)) refl
  where
    by_entry :
        (o : Option Pod)
        → lookup c (insert pod.id (renamed c pod) pods) ≡ o
        → let shared = insert pod.id (renamed c pod) pods in
          (entry_or
            (renamed c pod)
            (lookup pod.id (updated shared (with_state c state o shared)))).id
          ≡ c
    by_entry none at =
        ap (λ o. (entry_or (renamed c pod) o).id) (lookup-insert_self pod.id (renamed c pod) pods)
    by_entry (some p) at =
        let shared = insert pod.id (renamed c pod) pods in
        ground (
          arith,
          lookup-insert c pod.id (record p { state = state }) shared,
          lookup-insert_self pod.id (renamed c pod) pods,
          eq_iff c pod.id,
        )

-- The pod of a round has the id of its container, if it is local.
pub start_local-id :
    (io : PodIo) (pod made : Pod) (pods : Map Pod)
    → (start_local io pod pods).result ≡ ok made
    → (c : Text) × (io.container ≡ some c) × (made.id ≡ c)
unfolding start_local
start_local-id io pod made pods h = elim (Option-cases io.container) [
  | inl e ↦ absurd (ground arith)
  | inr (c, e) ↦ elim (Bool-cases io.start_ok) [
    | inr f ↦ absurd (ground arith)
    | inl f ↦ (c, e, ground (arith, read_back c io.state pod pods))
  ]
]

module _ (local : Text) (nodes : List Node)
    (alone : (node : Node) → In node nodes → node.name ≡ local) where
  local_name :
      (io : PodIo) (template : Pod) (pods : Map Pod) (s : Scheduled)
      → schedule_pod io.random nodes (with_id io template) pods ≡ ok s
      → (s.node_name == local) ≡ true
  local_name io template pods s h =
      let (node, m, k, name, same, table) =
        schedule_pod_lem io.random nodes (with_id io template) pods s h in
      (eq_iff s.node_name local).1 (name ∙ alone node m)

  pub make_pod-local :
      (io : PodIo) (template made : Pod) (pods : Map Pod)
      → (make_pod local nodes io template pods).result ≡ ok made
      → (s : Scheduled) × (schedule_pod io.random nodes (with_id io template) pods ≡ ok s)
        × (make_pod local nodes io template pods ≡ start_local io s.pod s.pods)
  unfolding make_pod
  make_pod-local io template made pods h =
      by_result (schedule_pod io.random nodes (with_id io template) pods) refl
    where
      by_result :
          (o : Result Scheduler.Error Scheduled)
          → schedule_pod io.random nodes (with_id io template) pods ≡ o
          → (s : Scheduled) × (schedule_pod io.random nodes (with_id io template) pods ≡ ok s)
            × (make_pod local nodes io template pods ≡ start_local io s.pod s.pods)
      by_result (err e) at = absurd (ground arith)
      by_result (ok s) at = (s, at, ground (arith, local_name io template pods s at))

pub remove_pods_others :
    (k : Text) (made : List Pod) (pods : Map Pod)
    → All (λ p. p.id ≢ k) made
    → lookup k (remove_pods made pods) ≡ lookup k pods
unfolding remove_pods remove_pod
remove_pods_others k [] pods h = refl
remove_pods_others k (p ∷ made) pods h =
    remove_pods_others k made (delete p.id pods) h.1
    ∙ ground (arith, lookup-delete p.id k pods, eq_iff p.id k, h.0)

Held-subst : (k : Text) (x y : Made) → x ≡ y → Held k y.pods → Held k x.pods
Held-subst k x y e h = subst (λ (z : Made). Held k z.pods) (sym e) h

-- Scheduling sets the entry of the pod's id and keeps the others.
pub scheduled-Held :
    (k : Text) (nodes : List Node) (io : PodIo) (template : Pod) (pods : Map Pod) (s : Scheduled)
    → schedule_pod io.random nodes (with_id io template) pods ≡ ok s
    → ((Held k pods → Held k s.pods) × Held io.id s.pods)
scheduled-Held k nodes io template pods s h =
    let (node, m, l, name, same, table) =
      schedule_pod_lem io.random nodes (with_id io template) pods s h in
    (
      λ held. elim (Bool-cases (io.id == k)) [
        | inl e ↦ (
          _,
          table k
              ∙ ap
                  (λ b.
                    if b then some (Scheduler.placed (with_id io template) node) else lookup k pods)
                  e,
        )
        | inr e ↦ (
          held.0,
          table k
              ∙ ap
                  (λ b.
                    if b then some (Scheduler.placed (with_id io template) node) else lookup k pods)
                  e
              ∙ held.1,
        )
      ],
      (
        _,
        table io.id
            ∙ ap
                (λ b.
                  if b
                  then some (Scheduler.placed (with_id io template) node)
                  else lookup io.id pods)
                (eq_refl io.id),
      ),
    )

module _ (local : Text) (nodes : List Node) where
  make_pod-Held :
      (k : Text) (io : PodIo) (template : Pod) (pods : Map Pod)
      → Held k pods
      → Held k (make_pod local nodes io template pods).pods
  unfolding make_pod
  make_pod-Held k io template pods h =
      by_result (schedule_pod io.random nodes (with_id io template) pods) refl
    where
      by_result :
          (o : Result Scheduler.Error Scheduled)
          → schedule_pod io.random nodes (with_id io template) pods ≡ o
          → Held k (make_pod local nodes io template pods).pods
      by_result (err e) at =
          Held-subst k (make_pod local nodes io template pods)
            (record { pods = pods; result = err schedule_failed }) (ground arith) h
      by_result (ok s) at =
          let held = (scheduled-Held k nodes io template pods s at).0 h in
          elim (Bool-cases (s.node_name == local)) [
            | inl e ↦
                Held-subst k (make_pod local nodes io template pods) (start_local io s.pod s.pods)
                  (ground arith) (start_local-Held k io s.pod s.pods held)
            | inr e ↦
                Held-subst k (make_pod local nodes io template pods)
                  (record { pods = s.pods; result = ok s.pod }) (ground arith) held
          ]

  pub make_pods-Held :
      (k : Text) (ios : ℕ → PodIo) (dep : Deployment) (i n : ℕ) (pods : Map Pod)
      → Held k pods
      → Held k (make_pods local nodes ios dep i n pods).pods
  unfolding make_pods
  make_pods-Held k ios dep i zero pods h = h
  make_pods-Held k ios dep i (suc n) pods h =
      let step = make_pod local nodes (ios i) (template_pod dep i) pods in
      let held = make_pod-Held k (ios i) (template_pod dep i) pods h in
      by_result step.result refl (make_pods-Held k ios dep (suc i) n step.pods held) held
    where
      by_result :
          (o : Result Error Pod)
          → (make_pod local nodes (ios i) (template_pod dep i) pods).result ≡ o
          → Held k
              (make_pods local nodes ios dep
                (suc i)
                n
                (make_pod local nodes (ios i) (template_pod dep i) pods).pods).pods
          → Held k (make_pod local nodes (ios i) (template_pod dep i) pods).pods
          → Held k (make_pods local nodes ios dep i (suc n) pods).pods
      by_result (err e) at rest held = subst (Held k) (ground arith) held
      by_result (ok p) at rest held = subst (Held k) (ground arith) rest
