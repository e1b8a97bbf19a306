-- ===== src/Scheduler/Tests.antt =====
-- Concrete pods and nodes: the theorems at inputs where their hypotheses hold.
use podman_swarm.Base.{ℕ, ◌-◌, ◌≡◌, refl, true, some, List, [], ◌∷◌, In, ok, if◌then◌else◌}
use podman_swarm.Base.Text.{Text, str, ◌==◌}
use podman_swarm.Base.Int.{pos}
use podman_swarm.Base.Map.{Map, lookup, insert}
use podman_swarm.Types.{Node, Pod, pending}
use podman_swarm.Scheduler.{matches, find_node_by_selector, Scheduled, placed, schedule_pod}
use podman_swarm.Scheduler.Placement.{schedule_pod_lem}

abbrev node : Text → Map Text → Node
node name labels = record { name = name; address = name; status = str "Ready"; labels = labels }

abbrev nodes : List Node
nodes = node (str "n1") [] ∷ node (str "n2") ((str "disk", str "ssd") ∷ []) ∷ []

abbrev web : Pod
web = record {
  id = str "p1";
  name = str "web-0";
  namespace = str "default";
  node_name = [];
  state = pending;
  image = str "nginx";
  labels = [];
  annotations = [];
  ports = [];
  env = [];
  volumes = [];
  node_selector = (str "disk", str "ssd") ∷ [];
  created_at = pos 1;
}

abbrev on_n2 : Scheduled
on_n2 = record {
  node_name = str "n2";
  pod = record web { node_name = str "n2" };
  pods = (str "p1", record web { node_name = str "n2" }) ∷ [];
}

abbrev last : ℕ → ℕ
last n = n - 1

goes_to_n2 : schedule_pod last nodes web [] ≡ ok on_n2
unfolding schedule_pod find_node_by_selector lookup insert ◌==◌
goes_to_n2 = refl

schedule_pod_lem_example :
    (x : Node) × In x nodes
    × (matches web.node_selector x ≡ true)
    × (on_n2.node_name ≡ x.name)
    × (on_n2.pod ≡ placed web x)
    × ((id : Text)
        → lookup id on_n2.pods ≡ (if web.id == id then some (placed web x) else lookup id []))
schedule_pod_lem_example = schedule_pod_lem last nodes web [] on_n2 goes_to_n2
