-- ===== src/Storage.antt =====
-- internal/storage/storage.go: the persistent store of the cluster's objects.
-- The data directory is fixed when the store is made, and every file is named relative to it.
-- What the operating system answers to a call, and the clock, come in as `Io`. The JSON encoding of
-- the Kubernetes types is the parameter `Codec`. The mutex is not modelled here: each method holds
-- it from its first line to its last.
pub mod Commands
pub mod Durable
pub mod Merge
mod Tests
use podman_swarm.Base.{
  ℕ, ◌++◌, ◌∷◌, Bool, true, false, Option, none, some, List, [], Result, ok, err, if◌then◌else◌,
}
use podman_swarm.Base.Text.{Text, str, ◌==◌}
use podman_swarm.Base.Map.{Map, lookup, insert, delete, values}
use podman_swarm.Types.{Deployment, Service, Ingress, Pod}

-- fmt.Sprintf("%s/%s", namespace, name)
abbrev pub object_key : Text → Text → Text
object_key namespace name = namespace ++ (b'/' ∷ name)

pub record Storage : Type 0 where
  pub deployments : Map Deployment
  pub services : Map Service
  pub ingresses : Map Ingress
  pub pods : Map Pod
  pub last_modified : ℕ

-- A map of the JSON text may be null.
pub record ClusterState : Type 0 where
  pub deployments : Option (Map Deployment)
  pub services : Option (Map Service)
  pub ingresses : Option (Map Ingress)
  pub pods : Option (Map Pod)
  pub last_modified : ℕ
  pub version : ℕ

pub record Codec : Type 0 where
  pub marshal : ClusterState → Option Text
  pub unmarshal : Text → Option ClusterState

-- The files of the data directory.
abbrev pub Disk : Type 0
Disk = Map Text

-- What os.WriteFile did: a failed call leaves any text, or no file.
pub data Write : Type 0 where
  written : Write
  torn : Option Text → Write

pub record Io : Type 0 where
  pub now : ℕ
  pub write : Write
  pub rename_ok : Bool
  pub read_ok : Bool
  pub mkdir_ok : Bool

pub data Error : Type 0 where
  no_data_dir mkdir_failed marshal_failed write_failed rename_failed : Error
  read_failed unmarshal_failed not_found : Error

-- The store and the disk after a call, and the error that it returned.
pub record Outcome : Type 0 where
  pub storage : Storage
  pub disk : Disk
  pub error : Option Error

abbrev pub state_file : Text
state_file = str "state.json"

abbrev pub tmp_file : Text
tmp_file = str "state.json.tmp"

-- GetState
unfoldable pub get_state : Storage → ClusterState
get_state s = record {
  deployments = some s.deployments;
  services = some s.services;
  ingresses = some s.ingresses;
  pods = some s.pods;
  last_modified = s.last_modified;
  version = 1;
}

abbrev pub put_file : Text → Option Text → Disk → Disk
put_file f none d = delete f d
put_file f (some b) d = insert f b d

-- The steps behind json.MarshalIndent in `persist`.
replace_file : Io → Text → Disk → Disk × Option Error
replace_file io b d = elim io.write [
  | torn left ↦ (put_file tmp_file left d, some write_failed)
  | written ↦
      let d' = insert tmp_file b d in
      if io.rename_ok
      then (insert state_file b (delete tmp_file d'), none)
      else (d', some rename_failed)
]

unfoldable pub persist : Codec → Io → Storage → Disk → Disk × Option Error
unfolding replace_file get_state
persist c io s d = elim (c.marshal (get_state s)) [
  | none ↦ (d, some marshal_failed)
  | some b ↦ replace_file io b d
]

-- `s.lastModified = time.Now(); return s.persist()`
stamp : Codec → Io → Storage → Disk → Outcome
stamp c io s d =
    let s' = record s { last_modified = io.now } in
    let (d', e) = persist c io s' d in record { storage = s'; disk = d'; error = e }

module _ (c : Codec) (io : Io) where
  unfoldable pub save_deployment : Deployment → Storage → Disk → Outcome
  unfolding stamp
  save_deployment x s =
      stamp c io (record s { deployments = insert (object_key x.namespace x.name) x s.deployments })

  unfoldable pub delete_deployment : Text → Text → Storage → Disk → Outcome
  unfolding stamp
  delete_deployment namespace name s =
      stamp c io (record s { deployments = delete (object_key namespace name) s.deployments })

  unfoldable pub save_service : Service → Storage → Disk → Outcome
  unfolding stamp
  save_service x s =
      stamp c io (record s { services = insert (object_key x.namespace x.name) x s.services })

  unfoldable pub delete_service : Text → Text → Storage → Disk → Outcome
  unfolding stamp
  delete_service namespace name s =
      stamp c io (record s { services = delete (object_key namespace name) s.services })

  unfoldable pub save_ingress : Ingress → Storage → Disk → Outcome
  unfolding stamp
  save_ingress x s =
      stamp c io (record s { ingresses = insert (object_key x.namespace x.name) x s.ingresses })

  unfoldable pub delete_ingress : Text → Text → Storage → Disk → Outcome
  unfolding stamp
  delete_ingress namespace name s =
      stamp c io (record s { ingresses = delete (object_key namespace name) s.ingresses })

  unfoldable pub save_pod : Pod → Storage → Disk → Outcome
  unfolding stamp
  save_pod x s = stamp c io (record s { pods = insert (object_key x.namespace x.name) x s.pods })

  unfoldable pub delete_pod : Text → Text → Storage → Disk → Outcome
  unfolding stamp
  delete_pod namespace name s =
      stamp c io (record s { pods = delete (object_key namespace name) s.pods })

abbrev found : {V : Type 0} → Option V → Result Error V
found none = err not_found
found (some v) = ok v

unfoldable pub get_deployment : Text → Text → Storage → Result Error Deployment
get_deployment namespace name s = found (lookup (object_key namespace name) s.deployments)

unfoldable pub get_service : Text → Text → Storage → Result Error Service
get_service namespace name s = found (lookup (object_key namespace name) s.services)

unfoldable pub get_ingress : Text → Text → Storage → Result Error Ingress
get_ingress namespace name s = found (lookup (object_key namespace name) s.ingresses)

unfoldable pub get_pod : Text → Text → Storage → Result Error Pod
get_pod namespace name s = found (lookup (object_key namespace name) s.pods)

unfoldable pub list_deployments : Storage → List Deployment
list_deployments s = values s.deployments

unfoldable pub list_services : Storage → List Service
list_services s = values s.services

unfoldable pub list_ingresses : Storage → List Ingress
list_ingresses s = values s.ingresses

unfoldable pub list_pods : Storage → List Pod
list_pods s = values s.pods

abbrev pub or_empty : {V : Type 0} → Option (Map V) → Map V
or_empty none = []
or_empty (some m) = m

-- The assignments at the end of `Load`.
restore : ClusterState → Storage
restore st = record {
  deployments = or_empty st.deployments;
  services = or_empty st.services;
  ingresses = or_empty st.ingresses;
  pods = or_empty st.pods;
  last_modified = st.last_modified;
}

abbrev decoded : Option ClusterState → Result Error Storage
unfolding restore
decoded none = err unmarshal_failed
decoded (some st) = ok (restore st)

-- `Load`: the store that it leaves, or the error. A missing file is no error, and changes nothing.
unfoldable pub load : Codec → Io → Disk → Storage → Result Error Storage
unfolding restore decoded
load c io d s =
    if io.read_ok
    then elim (lookup state_file d) [ none ↦ ok s | some b ↦ decoded (c.unmarshal b) ]
    else err read_failed

abbrev pub empty : Storage
empty = record { deployments = []; services = []; ingresses = []; pods = []; last_modified = 0 }

-- A state that cannot be loaded is dropped with a warning.
abbrev or_start_empty : Result Error Storage → Storage
or_start_empty (ok s) = s
or_start_empty (err e) = empty

unfoldable pub new_storage : Codec → Io → Text → Disk → Result Error Storage
unfolding load
new_storage c io data_dir d =
    if data_dir == str ""
    then err no_data_dir
    else if io.mkdir_ok
    then ok (or_start_empty (load c io d empty))
    else err mkdir_failed

-- fmt.Sprintf("state-backup-%s.json", timestamp): the formatted time is an argument.
abbrev backup_file : Text → Text
backup_file timestamp = str "state-backup-" ++ (timestamp ++ str ".json")

unfoldable pub backup : Codec → Io → Text → Storage → Disk → Disk × Option Error
unfolding get_state
backup c io timestamp s d = elim (c.marshal (get_state s)) [
  | none ↦ (d, some marshal_failed)
  | some b ↦ elim io.write [
    | torn left ↦ (put_file (backup_file timestamp) left d, some write_failed)
    | written ↦ (insert (backup_file timestamp) b d, none)
  ]
]
