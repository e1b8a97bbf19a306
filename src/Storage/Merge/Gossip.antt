-- ===== src/Storage/Merge/Gossip.antt =====
-- Two nodes that send each other their states, as `StartPeriodicSync` and the message handler make
-- them do.
use podman_swarm.Base.{ℕ, none, some, ◌≡◌, refl, [], ◌∷◌, List, ◌<◌, arith}
use podman_swarm.Base.Text.{Text}
use podman_swarm.Base.Map.{lookup, lookup-delete_self}
use podman_swarm.Base.Map.Distinct.{IsDistinct, delete-IsDistinct, insert_all-IsDistinct, or_else}
use podman_swarm.Types.{Deployment}
use podman_swarm.Storage.{Storage, Codec, Io, Disk, get_state, delete_deployment, object_key}
use podman_swarm.Storage.Merge.{merge_state}
use podman_swarm.Storage.Merge.Laws.{IsState, merge_state_newer, merge_pods-IsDistinct}

-- The tables of a store are Go maps.
pub record IsStore (s : Storage) : Type 0 where
  pub deployments : IsDistinct s.deployments
  pub services : IsDistinct s.services
  pub ingresses : IsDistinct s.ingresses
  pub pods : IsDistinct s.pods

get_state-IsState : {s : Storage} → IsStore s → IsState (get_state s)
unfolding get_state
get_state-IsState v = record {
  deployments = v.deployments;
  services = v.services;
  ingresses = v.ingresses;
  pods = v.pods;
}

merge_deployments :
    (c : Codec) (io : Io) (from into : Storage) (d : Disk) (k : Text)
    → IsStore from
    → into.last_modified < from.last_modified
    → lookup k (merge_state c io (get_state from) into d).storage.deployments
      ≡ or_else (lookup k from.deployments) (lookup k into.deployments)
unfolding get_state
merge_deployments c io from into d k v h =
    (merge_state_newer c io (get_state from) into d (get_state-IsState v) h).0 k

merged_time :
    (c : Codec) (io : Io) (from into : Storage) (d : Disk)
    → into.last_modified < from.last_modified
    → (merge_state c io (get_state from) into d).storage.last_modified ≡ io.now
unfolding merge_state get_state
merged_time c io from into d h = ground arith

merge_state-IsStore :
    (c : Codec) (io : Io) (from into : Storage) (d : Disk)
    → IsStore into
    → IsStore (merge_state c io (get_state from) into d).storage
unfolding merge_state get_state
merge_state-IsStore c io from into d v = ground (
  arith,
  insert_all-IsDistinct from.deployments into.deployments v.deployments,
  insert_all-IsDistinct from.services into.services v.services,
  insert_all-IsDistinct from.ingresses into.ingresses v.ingresses,
  merge_pods-IsDistinct from.pods into.pods v.pods,
)

module _ (c : Codec) (io : Io) (namespace name : Text) (s : Storage) (d : Disk) where
  deleted :
      lookup
        (object_key namespace name)
        (delete_deployment c io namespace name s d).storage.deployments
      ≡ none
  unfolding delete_deployment
  deleted = lookup-delete_self (object_key namespace name) s.deployments

  deleted_time : (delete_deployment c io namespace name s d).storage.last_modified ≡ io.now
  unfolding delete_deployment
  deleted_time = refl

  delete_deployment-IsStore :
      IsStore s → IsStore (delete_deployment c io namespace name s d).storage
  unfolding delete_deployment
  delete_deployment-IsStore v = record {
    deployments = delete-IsDistinct (object_key namespace name) s.deployments v.deployments;
    services = v.services;
    ingresses = v.ingresses;
    pods = v.pods;
  }

restored :
    (c : Codec) (io io' : Io) (k : Text) (x : Deployment) (node peer : Storage) (d d' : Disk)
    → IsStore node
    → IsStore peer
    → lookup k node.deployments ≡ none
    → lookup k peer.deployments ≡ some x
    → peer.last_modified < node.last_modified
    → node.last_modified < io.now
    → let peer' = (merge_state c io (get_state node) peer d).storage in
      lookup k (merge_state c io' (get_state peer') node d').storage.deployments ≡ some x
restored c io io' k x node peer d d' vn vp gone has h l =
    let peer' = (merge_state c io (get_state node) peer d).storage in
    let e = merge_deployments c io node peer d k vn h in
    let later : node.last_modified < peer'.last_modified =
      omega (arith, merged_time c io node peer d h) in
    let e' =
      merge_deployments c io' peer' node d' k (merge_state-IsStore c io node peer d vp) later in
    ground (arith, e, e')

-- A deployment that one node deletes comes back: its peer, which still has it, merges the newer
-- state, which only adds; the merge makes the peer's state the newer one, and merging that on the
-- first node restores the deployment.
delete_undone :
    (c : Codec) (deleting peer_merge own_merge : Io) (namespace name : Text) (x : Deployment)
    (node peer : Storage) (d d' d'' : Disk)
    → IsStore node
    → IsStore peer
    → lookup (object_key namespace name) peer.deployments ≡ some x
    → peer.last_modified < deleting.now
    → deleting.now < peer_merge.now
    → let node' = (delete_deployment c deleting namespace name node d).storage in
      let peer' = (merge_state c peer_merge (get_state node') peer d').storage in
      let node'' = (merge_state c own_merge (get_state peer') node' d'').storage in
      (lookup (object_key namespace name) node'.deployments ≡ none)
      × (lookup (object_key namespace name) node''.deployments ≡ some x)
delete_undone c deleting peer_merge own_merge namespace name x node peer d d' d'' vn vp has h k =
    let node' = (delete_deployment c deleting namespace name node d).storage in
    let key = object_key namespace name in
    let gone = deleted c deleting namespace name node d in
    let vn' = delete_deployment-IsStore c deleting namespace name node d vn in
    let t = deleted_time c deleting namespace name node d in
    (
      gone,
      restored c peer_merge own_merge key x node' peer d' d'' vn' vp gone has (rw t h) (rw t k),
    )

-- One message: the receiver merges the sender's state, and speaks next.
unfoldable pub exchange : Codec → Io → Disk → Storage × Storage → Storage × Storage
exchange c io d (sender, receiver) =
    ((merge_state c io (get_state sender) receiver d).storage, sender)

exchanges : Codec → List (Io × Disk) → Storage × Storage → Storage × Storage
exchanges c [] p = p
exchanges c ((io, d) ∷ rest) p = exchanges c rest (exchange c io d p)

-- Each clock reading is later than the one before.
abbrev pub Later : ℕ → List (Io × Disk) → Type 0
Later t [] = Unit {0}
Later t ((io, d) ∷ rest) = (t < io.now) × Later io.now rest

-- However many messages two nodes have exchanged, the state of the node that speaks next is newer
-- than the other's, so the next message is merged and stamped again: the exchange never settles,
-- also when both hold the same objects.
exchanges_never_settle :
    (c : Codec) (rounds : List (Io × Disk)) (sender receiver : Storage)
    → receiver.last_modified < sender.last_modified
    → Later sender.last_modified rounds
    → let (sender', receiver') = exchanges c rounds (sender, receiver) in
      receiver'.last_modified < sender'.last_modified
unfolding exchanges exchange merge_state get_state
exchanges_never_settle c [] s r h l = h
exchanges_never_settle c ((io, d) ∷ rest) s r h l =
    let t = merged_time c io s r d h in exchanges_never_settle c rest _ s (rw t l.0) (rw t l.1)
