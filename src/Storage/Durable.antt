-- ===== src/Storage/Durable.antt =====
-- What is on the disk after a change of the store, and what a restart reads from it.
use podman_swarm.Base.{
  ◌≡◌, ◌≢◌, refl, sym, subst, ◌⊎◌, inl, inr, Option, none, some, Bool, true, false, ok, arith,
  Option-cases, [],
}
use podman_swarm.Base.Text.{Text, ◌==◌}
use podman_swarm.Base.Map.{lookup, insert, delete, lookup-insert, lookup-delete, lookup-insert_self}
use podman_swarm.Storage.Commands.{
  Command, put_deployment, put_service, put_ingress, put_pod, drop_deployment, drop_service,
  drop_ingress, drop_pod, execute,
}
use podman_swarm.Storage.{
  object_key, save_deployment, delete_deployment, save_service, delete_service, save_ingress,
  delete_ingress, save_pod, delete_pod, Storage, ClusterState, Codec, Io, Disk, Error, Write,
  written, torn, marshal_failed, state_file, tmp_file, get_state, put_file, replace_file, persist,
  stamp, new_storage,
}

-- The encoding of a state decodes to that state.
abbrev pub RoundTrips : Codec → ClusterState → Type 0
RoundTrips c st = (b : Text) → c.marshal st ≡ some b → c.unmarshal b ≡ some st

put_tmp_file :
    (left : Option Text) (d : Disk)
    → lookup state_file (put_file tmp_file left d) ≡ lookup state_file d
unfolding ◌==◌
put_tmp_file none d = ground (arith, lookup-delete tmp_file state_file d)
put_tmp_file (some b) d = ground (arith, lookup-insert tmp_file state_file b d)

abbrev Installed : Codec → Storage → Disk × Option Error → Type 0
Installed c s r =
    (r.1 ≡ none)
    × (b : Text) × (c.marshal (get_state s) ≡ some b)
    × (lookup state_file r.0 ≡ some b)

abbrev Kept : Disk → Disk × Option Error → Type 0
Kept d r = (r.1 ≢ none) × (lookup state_file r.0 ≡ lookup state_file d)

-- Either the encoded state is in place and no error is returned, or the file is as it was.
replace_file_atomic :
    (c : Codec) (io : Io) (s : Storage) (b : Text) (d : Disk)
    → c.marshal (get_state s) ≡ some b
    → Installed c s (replace_file io b d) ⊎ Kept d (replace_file io b d)
unfolding replace_file ◌==◌
replace_file_atomic c io s b d e = by_write io.write io.rename_ok
  where
    moved : Disk
    moved = delete tmp_file (insert tmp_file b d)

    by_write :
        (w : Write) (ok? : Bool)
        → Installed c s (replace_file (record io { write = w; rename_ok = ok? }) b d)
          ⊎ Kept d (replace_file (record io { write = w; rename_ok = ok? }) b d)
    by_write written true = inl (refl, b, e, lookup-insert_self state_file b moved)
    by_write written false = inr (cc, put_tmp_file (some b) d)
    by_write (torn left) ok? = inr (cc, put_tmp_file left d)

persist_unencoded :
    (c : Codec) (io : Io) (s : Storage) (d : Disk)
    → c.marshal (get_state s) ≡ none
    → persist c io s d ≡ (d, some marshal_failed)
unfolding persist
persist_unencoded c io s d e = ground arith

persist_encoded :
    (c : Codec) (io : Io) (s : Storage) (d : Disk) (b : Text)
    → c.marshal (get_state s) ≡ some b
    → persist c io s d ≡ replace_file io b d
unfolding persist
persist_encoded c io s d b e = ground arith

persist_atomic :
    (c : Codec) (io : Io) (s : Storage) (d : Disk)
    → Installed c s (persist c io s d) ⊎ Kept d (persist c io s d)
persist_atomic c io s d = elim (Option-cases (c.marshal (get_state s))) [
  | inl e ↦
      subst (λ r. Installed c s r ⊎ Kept d r) (sym (persist_unencoded c io s d e))
        (inr ((λ h. cc), refl))
  | inr (b, e) ↦
      subst (λ r. Installed c s r ⊎ Kept d r) (sym (persist_encoded c io s d b e))
        (replace_file_atomic c io s b d e)
]

-- A restart sees only what the state file holds.
pub new_storage_reads :
    (c : Codec) (io : Io) (dir : Text) (d d' : Disk)
    → lookup state_file d' ≡ lookup state_file d
    → new_storage c io dir d' ≡ new_storage c io dir d
unfolding new_storage
new_storage_reads c io dir d d' e = ground arith

-- The directory is named and can be made and read.
pub record IsReady (io : Io) (dir : Text) : Type 0 where
  pub named : (dir == []) ≡ false
  pub mkdir : io.mkdir_ok ≡ true
  pub read : io.read_ok ≡ true

new_storage-Installed :
    (c : Codec) (io : Io) (dir : Text) (s : Storage) (r : Disk × Option Error)
    → IsReady io dir
    → RoundTrips c (get_state s)
    → Installed c s r
    → new_storage c io dir r.0 ≡ ok s
unfolding new_storage get_state
new_storage-Installed c io dir s r ready faithful (_, b, e, at) = ground (arith, faithful b)

stamp_durable :
    (c : Codec) (io later : Io) (dir : Text) (s : Storage) (d : Disk)
    → IsReady later dir
    → let o = stamp c io s d in
      RoundTrips c (get_state o.storage)
      → ((o.error ≡ none) × (new_storage c later dir o.disk ≡ ok o.storage))
        ⊎ ((o.error ≢ none) × (new_storage c later dir o.disk ≡ new_storage c later dir d))
unfolding stamp
stamp_durable c io later dir s d ready faithful =
    elim (persist_atomic c io (record s { last_modified = io.now }) d) [
      | inl done ↦ inl (done.0, new_storage-Installed c later dir _ _ ready faithful done)
      | inr kept ↦ inr (kept.0, new_storage_reads c later dir d _ kept.1)
    ]

-- What a command does to the tables; the time and the disk are left to `stamp`.
edit : Command → Storage → Storage
edit (put_deployment x) s = record s {
  deployments = insert (object_key x.namespace x.name) x s.deployments;
}
edit (put_service x) s = record s { services = insert (object_key x.namespace x.name) x s.services }
edit (put_ingress x) s = record s {
  ingresses = insert (object_key x.namespace x.name) x s.ingresses;
}
edit (put_pod x) s = record s { pods = insert (object_key x.namespace x.name) x s.pods }
edit (drop_deployment namespace name) s = record s {
  deployments = delete (object_key namespace name) s.deployments;
}
edit (drop_service namespace name) s = record s {
  services = delete (object_key namespace name) s.services;
}
edit (drop_ingress namespace name) s = record s {
  ingresses = delete (object_key namespace name) s.ingresses;
}
edit (drop_pod namespace name) s = record s { pods = delete (object_key namespace name) s.pods }

execute-stamp :
    (c : Codec) (io : Io) (cmd : Command) (s : Storage) (d : Disk)
    → execute c io cmd s d ≡ stamp c io (edit cmd s) d
unfolding edit stamp execute save_deployment save_service save_ingress save_pod delete_deployment
    delete_service delete_ingress delete_pod
execute-stamp c io (put_deployment x) s d = refl
execute-stamp c io _ s d = refl

-- Every command is all or nothing across a restart: either it returns no error and a restart loads
-- exactly the store that it left, or it returns one and a restart loads what it would have loaded
-- before. The encoding of the state it leaves decodes to that state, and the restart can read its
-- directory.
pub execute_durable :
    (c : Codec) (io later : Io) (dir : Text) (cmd : Command) (s : Storage) (d : Disk)
    → IsReady later dir
    → let o = execute c io cmd s d in
      RoundTrips c (get_state o.storage)
      → ((o.error ≡ none) × (new_storage c later dir o.disk ≡ ok o.storage))
        ⊎ ((o.error ≢ none) × (new_storage c later dir o.disk ≡ new_storage c later dir d))
execute_durable c io later dir cmd s d ready =
    rw (execute-stamp c io cmd s d) (stamp_durable c io later dir (edit cmd s) d ready)
