-- ===== src/Storage/Merge.antt =====
-- `MergeState` of internal/storage/storage.go, and internal/storage/sync.go. The periodic loops of
-- sync.go call `backup` and `broadcast_state` at each tick of their timers. A null object in a
-- message's map is left out: Go's loop over the pods would fault on it.
pub mod Laws
pub mod Gossip
pub mod Validity
use podman_swarm.Base.{
  ℕ, Bool, true, false, Option, none, some, Result, ok, err, [], ◌∷◌, if◌then◌else◌, ltb,
}
use podman_swarm.Base.Text.{Text, str, ◌==◌}
use podman_swarm.Base.Map.{Map, lookup, insert}
use podman_swarm.Base.Map.Distinct.{insert_all}
use podman_swarm.Base.Int.{lt_int}
use podman_swarm.Types.{Pod}
use podman_swarm.Storage.{
  Storage, ClusterState, Codec, Io, Disk, Error, Outcome, stamp, or_empty, get_state,
  unmarshal_failed, marshal_failed,
}

-- `existing, ok := s.pods[key]; !ok || pod.CreatedAt > existing.CreatedAt`
replaces : Pod → Option Pod → Bool
replaces pod none = true
replaces pod (some existing) = lt_int existing.created_at pod.created_at

-- The loop over the incoming pods.
unfoldable pub merge_pods : Map Pod → Map Pod → Map Pod
unfolding replaces
merge_pods [] pods = pods
merge_pods ((key, pod) ∷ incoming) pods =
    merge_pods incoming (if replaces pod (lookup key pods) then insert key pod pods else pods)

unfoldable pub merged : ClusterState → Storage → Storage
merged st s = record s {
  deployments = insert_all (or_empty st.deployments) s.deployments;
  services = insert_all (or_empty st.services) s.services;
  ingresses = insert_all (or_empty st.ingresses) s.ingresses;
  pods = merge_pods (or_empty st.pods) s.pods;
}

unfoldable pub merge_state : Codec → Io → ClusterState → Storage → Disk → Outcome
unfolding stamp merged
merge_state c io st s d =
    if ltb s.last_modified st.last_modified
    then stamp c io (merged st s) d
    else record { storage = s; disk = d; error = none }

pub record StateSyncMessage : Type 0 where
  pub type : Text
  pub state : Option ClusterState
  pub timestamp : ℕ
  pub node_name : Text

pub record MessageCodec : Type 0 where
  pub encode : StateSyncMessage → Option Text
  pub decode : Text → Option StateSyncMessage

-- The two messages of sync.go.
abbrev pub state_message : Io → Text → Storage → StateSyncMessage
state_message io node s = record {
  type = str "state_sync";
  state = some (get_state s);
  timestamp = io.now;
  node_name = node;
}

abbrev pub request_message : Io → Text → StateSyncMessage
request_message io node = record {
  type = str "state_request";
  state = none;
  timestamp = io.now;
  node_name = node;
}

abbrev encoded : Option Text → Result Error Text
encoded none = err marshal_failed
encoded (some b) = ok b

-- What `BroadcastState` hands to its `broadcast` argument, if the encoding succeeds.
unfoldable pub broadcast_state : MessageCodec → Io → Text → Storage → Result Error Text
broadcast_state mc io node s = encoded (mc.encode (state_message io node s))

-- What `RequestState` hands to its `broadcast` argument.
unfoldable pub request_state : MessageCodec → Io → Text → Result Error Text
request_state mc io node = encoded (mc.encode (request_message io node))

unfoldable pub unchanged : Option Error → Storage → Disk → Outcome
unchanged e s d = record { storage = s; disk = d; error = e }

-- The switch of `HandleStateSyncMessage`: a request is only logged.
handle_message : Codec → Io → StateSyncMessage → Storage → Disk → Outcome
unfolding unchanged
handle_message c io msg s d =
    if msg.type == str "state_sync"
    then elim msg.state [ none ↦ unchanged none s d | some st ↦ merge_state c io st s d ]
    else unchanged none s d

unfoldable pub handle_state_sync_message :
    Codec → MessageCodec → Io → Text → Storage → Disk → Outcome
unfolding handle_message unchanged
handle_state_sync_message c mc io bytes s d = elim (mc.decode bytes) [
  | none ↦ unchanged (some unmarshal_failed) s d
  | some msg ↦ handle_message c io msg s d
]
