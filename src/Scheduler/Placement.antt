-- ===== src/Scheduler/Placement.antt =====
-- Where pods go.
use podman_swarm.Base.{
  ℕ, zero, suc, ◌<◌, ◌≡◌, ◌↔◌, refl, ap, ◌∙◌, inl, inr, true, some, List, [], ◌∷◌, In, Bool-cases,
  length, Result, ok, err, if◌then◌else◌, arith,
}
use podman_swarm.Base.Text.{Text, ◌==◌}
use podman_swarm.Base.Map.{Map, lookup, insert, lookup-insert}
use podman_swarm.Types.{Pod, Node}
use podman_swarm.Scheduler.{
  Error, matches, find_node_by_selector, node_at, select_node, Scheduled, placed, schedule_pod,
}

find_node_sound :
    (selector : Map Text) (nodes : List Node) (node : Node)
    → find_node_by_selector selector nodes ≡ ok node
    → In node nodes × (matches selector node ≡ true)
unfolding find_node_by_selector
find_node_sound selector [] node h = cc
find_node_sound selector (x ∷ nodes) node h = ground (arith, find_node_sound selector nodes node)

find_node_complete :
    (selector : Map Text) (nodes : List Node) (node : Node)
    → In node nodes
    → matches selector node ≡ true
    → (found : Node) × (find_node_by_selector selector nodes ≡ ok found)
unfolding find_node_by_selector
find_node_complete selector [] node m h = elim m [ ]
find_node_complete selector (x ∷ nodes) node m h = elim (Bool-cases (matches selector x)) [
  | inl e ↦ (x, ground arith)
  | inr e ↦ elim m [
    | inl same ↦ absurd (ground (arith, ap (matches selector) same))
    | inr rest ↦
        let (found, f) = find_node_complete selector nodes node rest h in (found, ground arith)
  ]
]

node_at_sound :
    (i : ℕ) (nodes : List Node) (node : Node) → node_at i nodes ≡ ok node → In node nodes
unfolding node_at
node_at_sound i [] node h = cc
node_at_sound zero (x ∷ nodes) node h = ground arith
node_at_sound (suc i) (x ∷ nodes) node h = inr (node_at_sound i nodes node h)

node_at_complete :
    (i : ℕ) (nodes : List Node) → i < length nodes → (node : Node) × (node_at i nodes ≡ ok node)
unfolding node_at
node_at_complete i [] h = absurd (omega arith)
node_at_complete zero (x ∷ nodes) h = (x, refl)
node_at_complete (suc i) (x ∷ nodes) h = node_at_complete i nodes (omega arith)

select_node_sound :
    (random : ℕ → ℕ) (nodes : List Node) (selector : Map Text) (node : Node)
    → select_node random nodes selector ≡ ok node
    → In node nodes × (matches selector node ≡ true)
unfolding select_node node_at
select_node_sound random [] [] node h = absurd (cc)
select_node_sound random (x ∷ nodes) [] node h =
    (node_at_sound (random (suc (length nodes))) (x ∷ nodes) node h, refl)
select_node_sound random nodes (label ∷ labels) node h =
    find_node_sound (label ∷ labels) nodes node h

select_node_complete :
    (random : ℕ → ℕ) (nodes : List Node) (selector : Map Text) (node : Node)
    → ((n : ℕ) → 0 < n → random n < n)
    → In node nodes
    → matches selector node ≡ true
    → (found : Node) × (select_node random nodes selector ≡ ok found)
unfolding select_node node_at
select_node_complete random [] [] node r m h = elim m [ ]
select_node_complete random (x ∷ nodes) [] node r m h =
    node_at_complete (random (suc (length nodes))) (x ∷ nodes)
      (r (suc (length nodes)) (omega arith))
select_node_complete random nodes (label ∷ labels) node r m h =
    find_node_complete (label ∷ labels) nodes node m h

abbrev outcome : Pod → Map Pod → Node → Scheduled
outcome pod pods node = record {
  node_name = node.name;
  pod = placed pod node;
  pods = insert pod.id (placed pod node) pods;
}

-- A pod that was scheduled goes to a node of the cluster that has all labels of its selector. The
-- pod gets the node's name, and the table holds it under its id and else what it held.
pub schedule_pod_lem :
    (random : ℕ → ℕ) (nodes : List Node) (pod : Pod) (pods : Map Pod) (r : Scheduled)
    → schedule_pod random nodes pod pods ≡ ok r
    → (node : Node) × In node nodes
      × (matches pod.node_selector node ≡ true)
      × (r.node_name ≡ node.name)
      × (r.pod ≡ placed pod node)
      × ((id : Text)
          → lookup id r.pods ≡ (if pod.id == id then some (placed pod node) else lookup id pods))
unfolding schedule_pod
schedule_pod_lem random nodes pod pods r h =
    by_result (select_node random nodes pod.node_selector) refl
  where
    by_result :
        (o : Result Error Node)
        → select_node random nodes pod.node_selector ≡ o
        → (node : Node) × In node nodes
          × (matches pod.node_selector node ≡ true)
          × (r.node_name ≡ node.name)
          × (r.pod ≡ placed pod node)
          × ((id : Text)
              → lookup id r.pods
                ≡ (if pod.id == id then some (placed pod node) else lookup id pods))
    by_result (err e) at = absurd (ground arith)
    by_result (ok node) at =
        let (m, s) = select_node_sound random nodes pod.node_selector node at in
        let same : r ≡ outcome pod pods node = ground arith in
        (
          node,
          m,
          s,
          ap (λ x. x.node_name) same,
          ap (λ x. x.pod) same,
          λ id. ap (λ x. lookup id x.pods) same ∙ lookup-insert pod.id id (placed pod node) pods,
        )

-- Scheduling succeeds exactly when some node of the cluster has all labels of the pod's selector;
-- without a selector, when there is a node. The random numbers are in range.
schedules_iff :
    (random : ℕ → ℕ) (nodes : List Node) (pod : Pod) (pods : Map Pod)
    → ((n : ℕ) → 0 < n → random n < n)
    → ((r : Scheduled) × (schedule_pod random nodes pod pods ≡ ok r))
      ↔ ((node : Node) × In node nodes × (matches pod.node_selector node ≡ true))
schedules_iff random nodes pod pods r = (
  λ s.
      let (node, m, h, name, same, table) = schedule_pod_lem random nodes pod pods s.0 s.1 in
      (node, m, h),
  λ s.
      let (found, e) = select_node_complete random nodes pod.node_selector s.0 r s.1 s.2 in
      (outcome pod pods found, unfold schedule_pod in ground arith),
)
