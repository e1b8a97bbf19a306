-- ===== src/Storage/Merge/Validity.antt =====
-- A merge of a well-formed state keeps a store well formed.
use podman_swarm.Base.{◌≡◌, refl, Option, none, some, inl, inr, Bool-cases, arith, ltb}
use podman_swarm.Base.Text.{Text, str, ◌==◌}
use podman_swarm.Base.Map.{Map}
use podman_swarm.Base.Map.Distinct.{insert_all, lookup-insert_all, insert_all-IsDistinct}
use podman_swarm.Types.{Deployment, Service, Ingress, Pod}
use podman_swarm.Storage.{
  Storage, ClusterState, Codec, Io, Disk, Outcome, object_key, or_empty, stamp,
}
use podman_swarm.Storage.Commands.Invariant.{IsKeyed, IsValid}
use podman_swarm.Storage.Merge.{
  MessageCodec, StateSyncMessage, handle_state_sync_message, handle_message, unchanged, merge_pods,
  merged, merge_state,
}
use podman_swarm.Storage.Merge.Laws.{lookup-merge_pods, merge_pods-IsDistinct}

-- Each table of the state has distinct keys, each that of its object.
pub record IsKeyedState (st : ClusterState) : Type 0 where
  pub deployments :
      IsKeyed (λ (x : Deployment). object_key x.namespace x.name) (or_empty st.deployments)
  pub services : IsKeyed (λ (x : Service). object_key x.namespace x.name) (or_empty st.services)
  pub ingresses : IsKeyed (λ (x : Ingress). object_key x.namespace x.name) (or_empty st.ingresses)
  pub pods : IsKeyed (λ (x : Pod). object_key x.namespace x.name) (or_empty st.pods)

pub insert_all-IsKeyed :
    {V : Type 0} (own : V → Text) (from into : Map V)
    → IsKeyed own from
    → IsKeyed own into
    → IsKeyed own (insert_all from into)
insert_all-IsKeyed own from into h k = record {
  distinct = insert_all-IsDistinct from into k.distinct;
  keyed =
      λ j v e. ground (arith, lookup-insert_all j from into h.distinct, h.keyed j v, k.keyed j v);
}

merge_pods-IsKeyed :
    (own : Pod → Text) (incoming pods : Map Pod)
    → IsKeyed own incoming
    → IsKeyed own pods
    → IsKeyed own (merge_pods incoming pods)
merge_pods-IsKeyed own incoming pods h k = record {
  distinct = merge_pods-IsDistinct incoming pods k.distinct;
  keyed = λ j v e.
      ground (arith, lookup-merge_pods j incoming pods h.distinct, h.keyed j v, k.keyed j v);
}

merged-IsValid :
    (st : ClusterState) (s : Storage) → IsKeyedState st → IsValid s → IsValid (merged st s)
unfolding merged
merged-IsValid st s h v = record {
  deployments =
      insert_all-IsKeyed _ (or_empty st.deployments) s.deployments h.deployments v.deployments;
  services = insert_all-IsKeyed _ (or_empty st.services) s.services h.services v.services;
  ingresses = insert_all-IsKeyed _ (or_empty st.ingresses) s.ingresses h.ingresses v.ingresses;
  pods = merge_pods-IsKeyed _ (or_empty st.pods) s.pods h.pods v.pods;
}

stamp-IsValid :
    (c : Codec) (io : Io) (s : Storage) (d : Disk) → IsValid s → IsValid (stamp c io s d).storage
unfolding stamp
stamp-IsValid c io s d v = record {
  deployments = v.deployments;
  services = v.services;
  ingresses = v.ingresses;
  pods = v.pods;
}

merge_state-IsValid :
    (c : Codec) (io : Io) (st : ClusterState) (s : Storage) (d : Disk)
    → IsKeyedState st
    → IsValid s
    → IsValid (merge_state c io st s d).storage
unfolding merge_state
merge_state-IsValid c io st s d h v = elim (Bool-cases (ltb s.last_modified st.last_modified)) [
  | inl e ↦ rw e (stamp-IsValid c io (merged st s) d (merged-IsValid st s h v))
  | inr e ↦ rw e v
]

-- A state that the bytes carry has tables of distinct keys, each that of its object.
abbrev pub IsHonest : MessageCodec → Text → Type 0
IsHonest mc bytes =
    (m : StateSyncMessage) (st : ClusterState)
    → mc.decode bytes ≡ some m
    → m.state ≡ some st
    → IsKeyedState st

pub handle_state_sync_message-IsValid :
    (c : Codec) (mc : MessageCodec) (io : Io) (bytes : Text) (s : Storage) (d : Disk)
    → IsHonest mc bytes
    → IsValid s
    → IsValid (handle_state_sync_message c mc io bytes s d).storage
unfolding handle_state_sync_message unchanged
handle_state_sync_message-IsValid c mc io bytes s d honest v = by_decoded (mc.decode bytes) refl
  where
    by_state :
        (m : StateSyncMessage) (o : Option ClusterState)
        → mc.decode bytes ≡ some m
        → m.state ≡ o
        → IsValid
            (elim o as (λ _. Outcome) [
              | none ↦ unchanged none s d
              | some st ↦ merge_state c io st s d
            ]).storage
    by_state m none e f = v
    by_state m (some st) e f = merge_state-IsValid c io st s d (honest m st e f) v

    by_decoded :
        (o : Option StateSyncMessage)
        → mc.decode bytes ≡ o
        → IsValid (handle_state_sync_message c mc io bytes s d).storage
    by_decoded none e = rw (e, handle_state_sync_message) v
    by_decoded (some m) e = elim (Bool-cases (m.type == str "state_sync")) [
      | inl t ↦
          rw (e, handle_state_sync_message) (rw (t, handle_message) (by_state m m.state e refl))
      | inr t ↦ rw (e, handle_state_sync_message) (rw (t, handle_message) v)
    ]
