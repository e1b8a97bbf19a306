-- ===== src/Api/Deployments.antt =====
-- internal/api/api.go: applying and deleting deployments. A pod is a pointer that the deployment and
-- the scheduler's table share: what the handler sets on it shows in the table's entry. Container
-- ids and generated ids are taken to differ, so a change by a container id meets no earlier pod.
pub mod Table
pub mod Leaks
use podman_swarm.Base.{
  ℕ, zero, suc, Bool, true, false, Option, none, some, List, [], ◌∷◌, ◌++◌, Result, ok, err,
  if◌then◌else◌,
}
use podman_swarm.Base.Text.{Text, ◌==◌}
use podman_swarm.Base.Text.Decimal.{decimal}
use podman_swarm.Base.Int.{ℤ, rounds}
use podman_swarm.Base.Map.{Map, lookup, insert, delete}
use podman_swarm.Kube.{DeploymentObject, deployment_object, PodTemplateSpec}
use podman_swarm.Types.{Pod, PodState, Deployment, Node}
use podman_swarm.Storage.{Storage, Codec, Io, Disk, object_key, save_deployment, delete_deployment}
use podman_swarm.Scheduler as Scheduler
use podman_swarm.Scheduler.{schedule_pod, update_pod_state, remove_pod}
use podman_swarm.Parser.{parse_deployment, extract_pod_from_template}

-- What the calls for one replica return: the random id, the time, the scheduler's random number,
-- and podman's answers; no container is a failure to create one.
pub record PodIo : Type 0 where
  pub id : Text
  pub created_at : ℤ
  pub random : ℕ → ℕ
  pub container : Option Text
  pub start_ok : Bool
  pub state : PodState

pub data Error : Type 0 where
  parse_failed schedule_failed create_failed start_failed : Error

-- The scheduler's table with the pod, or the error at which the loop returns.
pub record Made : Type 0 where
  pub pods : Map Pod
  pub result : Result Error Pod

abbrev renamed : Text → Pod → Pod
renamed container pod = record pod { id = container }

abbrev updated : Map Pod → Result Scheduler.Error (Map Pod) → Map Pod
updated pods (err e) = pods
updated pods (ok pods') = pods'

abbrev entry_or : Pod → Option Pod → Pod
entry_or pod none = pod
entry_or pod (some p) = p

-- The pod gets the id of its container, is started, and the state is set by that id. The error of
-- UpdatePodState is dropped.
unfoldable pub start_local : PodIo → Pod → Map Pod → Made
start_local io pod pods = elim io.container [
  | none ↦ record { pods = pods; result = err create_failed }
  | some container ↦
      let shared = insert pod.id (renamed container pod) pods in
      let after = updated shared (update_pod_state container io.state shared) in
      if io.start_ok
      then record {
        pods = after;
        result = ok (entry_or (renamed container pod) (lookup pod.id after));
      }
      else record { pods = shared; result = err start_failed }
]

abbrev with_id : PodIo → Pod → Pod
with_id io pod = record pod { id = io.id; created_at = io.created_at }

-- One round of the loop.
unfoldable pub make_pod : Text → List Node → PodIo → Pod → Map Pod → Made
unfolding start_local
make_pod local nodes io template pods =
    elim (schedule_pod io.random nodes (with_id io template) pods) [
      | err e ↦ record { pods = pods; result = err schedule_failed }
      | ok s ↦
          if s.node_name == local
          then start_local io s.pod s.pods
          else record { pods = s.pods; result = ok s.pod }
    ]

pub record Loop : Type 0 where
  pub pods : Map Pod
  pub made : List Pod
  pub error : Option Error

abbrev pub template_pod : Deployment → ℕ → Pod
template_pod dep i =
    extract_pod_from_template dep.template dep.namespace (dep.name ++ (b'-' ∷ decimal i))

-- The loop from the i-th replica on, for as many as are left.
unfoldable pub make_pods : Text → List Node → (ℕ → PodIo) → Deployment → ℕ → ℕ → Map Pod → Loop
unfolding make_pod
make_pods local nodes ios dep i zero pods = record { pods = pods; made = []; error = none }
make_pods local nodes ios dep i (suc n) pods =
    let step = make_pod local nodes (ios i) (template_pod dep i) pods in
    elim step.result [
      | err e ↦ record { pods = step.pods; made = []; error = some e }
      | ok pod ↦
          let rest = make_pods local nodes ios dep (suc i) n step.pods in
          record { pods = rest.pods; made = pod ∷ rest.made; error = rest.error }
    ]

-- What the two handlers read and change: the cache, the storage with its disk, and the scheduler.
pub record Agent : Type 0 where
  pub deployments : Map Deployment
  pub storage : Storage
  pub disk : Disk
  pub pods : Map Pod

abbrev pub key_of : Deployment → Text
key_of dep = object_key dep.namespace dep.name

-- The deployment, which the cache and the storage share, with the pods of the loop.
abbrev pub settle : Deployment → Storage → Disk → Loop → Agent → Agent
settle dep s d loop a =
    let done = record dep { pods = loop.made } in
    record {
      deployments = insert (key_of dep) done a.deployments;
      storage = record s { deployments = insert (key_of dep) done s.deployments };
      disk = d;
      pods = loop.pods;
    }

unfoldable pub apply_deployment :
    Codec → Io → Text → List Node → (ℕ → PodIo) → DeploymentObject → Agent → Agent × Option Error
unfolding make_pods
apply_deployment c io local nodes ios o a = elim (parse_deployment (deployment_object o)) [
  | err e ↦ (a, some parse_failed)
  | ok dep ↦
      let saved = save_deployment c io dep a.storage a.disk in
      let loop = make_pods local nodes ios dep 0 (rounds dep.desired_replicas) a.pods in
      (settle dep saved.storage saved.disk loop a, loop.error)
]

-- The loop of DeleteManifest over the pods; podman is told of the local ones, and its errors are
-- only logged.
pub remove_pods : List Pod → Map Pod → Map Pod
remove_pods [] pods = pods
remove_pods (pod ∷ rest) pods = remove_pods rest (remove_pod pod.id pods)

-- The part of DeleteManifest for deployments.
unfoldable pub delete_cached_deployment : Codec → Io → Text → Text → Agent → Agent
unfolding remove_pods
delete_cached_deployment c io namespace name a =
    let key = object_key namespace name in
    elim (lookup key a.deployments) [
      | none ↦ a
      | some dep ↦
          let deleted = delete_deployment c io namespace name a.storage a.disk in
          record {
            deployments = delete key a.deployments;
            storage = deleted.storage;
            disk = deleted.disk;
            pods = remove_pods dep.pods a.pods;
          }
    ]
