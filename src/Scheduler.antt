-- ===== src/Scheduler.antt =====
-- internal/scheduler/scheduler.go: which node a pod goes to, and the pods by their ids. The nodes are
-- those that the cluster returns at the call. The table holds pointers; a change of a pod through
-- the table is a change of its entry.
pub mod Placement
pub mod Labels
mod Tests
use podman_swarm.Base.{
  ℕ, zero, suc, Bool, true, false, Option, none, some, List, [], ◌∷◌, all, keep, length, Result, ok,
  err, if◌then◌else◌,
}
use podman_swarm.Base.Text.{Text, ◌==◌}
use podman_swarm.Base.Map.{Map, lookup, insert, delete, values}
use podman_swarm.Types.{Pod, PodState, Node}

pub data Error : Type 0 where
  no_match no_nodes out_of_range pod_not_found : Error

-- A missing label reads as the empty text.
abbrev pub text_of : Option Text → Text
text_of none = []
text_of (some t) = t

abbrev pub matches : Map Text → Node → Bool
matches selector node = all (λ e. text_of (lookup e.0 node.labels) == e.1) selector

-- findNodeBySelector over the nodes of GetNodes.
unfoldable pub find_node_by_selector : Map Text → List Node → Result Error Node
find_node_by_selector selector [] = err no_match
find_node_by_selector selector (node ∷ nodes) =
    let rest = find_node_by_selector selector nodes in
    if matches selector node then ok node else rest

-- nodes[i]; an index out of range would be a panic.
unfoldable pub node_at : ℕ → List Node → Result Error Node
node_at i [] = err out_of_range
node_at zero (node ∷ nodes) = ok node
node_at (suc i) (node ∷ nodes) = node_at i nodes

-- nodes[rand.Intn(len(nodes))]; the random number is read if there is a node.
abbrev random_node : (ℕ → ℕ) → List Node → Result Error Node
unfolding node_at
random_node random [] = err no_nodes
random_node random (node ∷ nodes) = node_at (random (suc (length nodes))) (node ∷ nodes)

abbrev pub select_node : (ℕ → ℕ) → List Node → Map Text → Result Error Node
unfolding find_node_by_selector node_at
select_node random nodes [] = random_node random nodes
select_node random nodes (label ∷ labels) = find_node_by_selector (label ∷ labels) nodes

pub record Scheduled : Type 0 where
  pub node_name : Text
  pub pod : Pod
  pub pods : Map Pod

abbrev pub placed : Pod → Node → Pod
placed pod node = record pod { node_name = node.name }

-- SchedulePod: the node's name, with the pod and the table as it leaves them.
unfoldable pub schedule_pod : (ℕ → ℕ) → List Node → Pod → Map Pod → Result Error Scheduled
unfolding find_node_by_selector node_at
schedule_pod random nodes pod pods = elim (select_node random nodes pod.node_selector) [
  | err e ↦ err e
  | ok node ↦ ok (record {
    node_name = node.name;
    pod = placed pod node;
    pods = insert pod.id (placed pod node) pods;
  })
]

abbrev found : Option Pod → Result Error Pod
found none = err pod_not_found
found (some pod) = ok pod

unfoldable pub get_pod : Text → Map Pod → Result Error Pod
get_pod id pods = found (lookup id pods)

unfoldable pub get_pods_by_node : Text → Map Pod → List Pod
get_pods_by_node node_name pods = keep (λ pod. pod.node_name == node_name) (values pods)

unfoldable pub remove_pod : Text → Map Pod → Map Pod
remove_pod id pods = delete id pods

unfoldable pub get_all_pods : Map Pod → List Pod
get_all_pods pods = values pods

abbrev pub with_state : Text → PodState → Option Pod → Map Pod → Result Error (Map Pod)
with_state id state none pods = err pod_not_found
with_state id state (some pod) pods = ok (insert id (record pod { state = state }) pods)

unfoldable pub update_pod_state : Text → PodState → Map Pod → Result Error (Map Pod)
update_pod_state id state pods = with_state id state (lookup id pods) pods
