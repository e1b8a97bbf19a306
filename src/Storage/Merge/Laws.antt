-- ===== src/Storage/Merge/Laws.antt =====
-- What a merge does to each key, and that a broadcast which a peer handles is a merge.
use podman_swarm.Base.{
  Option, none, some, ◌≡◌, refl, [], ◌∷◌, ◌≤◌, ◌<◌, arith, ltb, ok, if◌then◌else◌, true,
}
use podman_swarm.Base.Text.{Text, ◌==◌, eq_iff}
use podman_swarm.Base.Map.{Map, lookup, insert, lookup-insert}
use podman_swarm.Base.Map.Distinct.{IsDistinct, lookup-insert_all, or_else, insert-IsDistinct}
use podman_swarm.Base.Int.{lt_int}
use podman_swarm.Types.{Pod}
use podman_swarm.Storage.{Storage, ClusterState, Codec, Io, Disk, or_empty, get_state}
use podman_swarm.Storage.Merge.{
  merge_pods, merge_state, StateSyncMessage, MessageCodec, broadcast_state, request_state,
  state_message, request_message, handle_message, handle_state_sync_message, unchanged,
}

-- Of two pods of one key the later made stays, the local one if neither is later.
abbrev pub newest : Option Pod → Option Pod → Option Pod
newest none local = local
newest (some pod) none = some pod
newest (some pod) (some existing) =
    if lt_int existing.created_at pod.created_at then some pod else some existing

pub lookup-merge_pods :
    (j : Text) (incoming pods : Map Pod)
    → IsDistinct incoming
    → lookup j (merge_pods incoming pods) ≡ newest (lookup j incoming) (lookup j pods)
unfolding merge_pods lookup
lookup-merge_pods j [] pods h = refl
lookup-merge_pods j ((k, p) ∷ incoming) pods h = ground (
  arith,
  lookup-merge_pods j incoming (insert k p pods) h.1,
  lookup-merge_pods j incoming pods h.1,
  lookup-insert k j p pods,
  eq_iff k j,
)

pub merge_pods-IsDistinct :
    (incoming pods : Map Pod) → IsDistinct pods → IsDistinct (merge_pods incoming pods)
unfolding merge_pods
merge_pods-IsDistinct [] pods h = h
merge_pods-IsDistinct ((k, p) ∷ incoming) pods h = ground (
  arith,
  merge_pods-IsDistinct incoming (insert k p pods) (insert-IsDistinct k p pods h),
  merge_pods-IsDistinct incoming pods h,
)

-- The maps of a decoded state, and what they need of a Go map.
pub record IsState (st : ClusterState) : Type 0 where
  pub deployments : IsDistinct (or_empty st.deployments)
  pub services : IsDistinct (or_empty st.services)
  pub ingresses : IsDistinct (or_empty st.ingresses)
  pub pods : IsDistinct (or_empty st.pods)

module _ (c : Codec) (io : Io) (st : ClusterState) (s : Storage) (d : Disk) where
  -- A state that is not newer is dropped: neither the store nor the disk changes.
  merge_state_older :
      st.last_modified ≤ s.last_modified → merge_state c io st s d ≡ unchanged none s d
  unfolding merge_state unchanged
  merge_state_older h = ground arith

  -- From a newer state every object is taken that it has; an object that only the local store has
  -- stays; of pods under one key the later made stays; the local time of change is the clock's.
  pub merge_state_newer :
      IsState st
      → s.last_modified < st.last_modified
      → let t = (merge_state c io st s d).storage in
        ((k : Text)
          → lookup k t.deployments
            ≡ or_else (lookup k (or_empty st.deployments)) (lookup k s.deployments))
        × ((k : Text)
            → lookup k t.services ≡ or_else (lookup k (or_empty st.services)) (lookup k s.services))
        × ((k : Text)
            → lookup k t.ingresses
              ≡ or_else (lookup k (or_empty st.ingresses)) (lookup k s.ingresses))
        × ((k : Text) → lookup k t.pods ≡ newest (lookup k (or_empty st.pods)) (lookup k s.pods))
        × (t.last_modified ≡ io.now)
  unfolding merge_state
  merge_state_newer v h = rw newer (
    λ k. lookup-insert_all k (or_empty st.deployments) s.deployments v.deployments,
    λ k. lookup-insert_all k (or_empty st.services) s.services v.services,
    λ k. lookup-insert_all k (or_empty st.ingresses) s.ingresses v.ingresses,
    λ k. lookup-merge_pods k (or_empty st.pods) s.pods v.pods,
    refl,
  )
    where
      newer : ltb s.last_modified st.last_modified ≡ true
      newer = ground arith

-- The encoding of a message decodes to that message.
abbrev pub Decodes : MessageCodec → StateSyncMessage → Type 0
Decodes mc m = (b : Text) → mc.encode m ≡ some b → mc.decode b ≡ some m

pub state_handled :
    (c : Codec) (mc : MessageCodec) (io sender : Io) (node : Text) (peer s : Storage) (d : Disk)
    (bytes : Text)
    → Decodes mc (state_message sender node peer)
    → broadcast_state mc sender node peer ≡ ok bytes
    → handle_state_sync_message c mc io bytes s d ≡ merge_state c io (get_state peer) s d
unfolding broadcast_state handle_state_sync_message handle_message ◌==◌
state_handled c mc io sender node peer s d bytes faithful sent = ground (arith, faithful bytes)

-- A state that is broadcast has on the node that handles it the effect of a merge of the sender's
-- state, and a request has none. Both messages are encoded without error, into bytes that decode to
-- them.
handle-broadcast :
    (c : Codec) (mc : MessageCodec) (io sender : Io) (node : Text) (peer s : Storage) (d : Disk)
    (bytes bytes' : Text)
    → Decodes mc (state_message sender node peer)
    → Decodes mc (request_message sender node)
    → broadcast_state mc sender node peer ≡ ok bytes
    → request_state mc sender node ≡ ok bytes'
    → (handle_state_sync_message c mc io bytes s d ≡ merge_state c io (get_state peer) s d)
      × (handle_state_sync_message c mc io bytes' s d ≡ unchanged none s d)
unfolding broadcast_state request_state handle_state_sync_message handle_message ◌==◌
handle-broadcast c mc io sender node peer s d bytes bytes' faithful faithful' sent sent' = (
  state_handled c mc io sender node peer s d bytes faithful sent,
  ground (arith, faithful' bytes'),
)
