-- ===== src/Agent/Start/Restart.antt =====
-- What an agent finds of its objects when it is started again.
use podman_swarm.Base.{◌≡◌, refl, ap, ◌∙◌, inl, inr, Option, none, some, [], ok, arith}
use podman_swarm.Base.Text.{Text, ◌==◌}
use podman_swarm.Base.Map.{lookup, lookup-insert, lookup-delete, lookup-nil}
use podman_swarm.Base.Map.Distinct.{or_else}
use podman_swarm.Config.{Config}
use podman_swarm.Security.{Crypto}
use podman_swarm.Security.Encryption.{Aead}
use podman_swarm.Types.{Ingress}
use podman_swarm.Api.State.{State}
use podman_swarm.Storage.{
  Storage, Codec, Io, Disk, Write, written, torn, state_file, get_state, new_storage,
}
use podman_swarm.Storage.Commands.{Command, execute}
use podman_swarm.Storage.Commands.Invariant.{IsValid, execute-IsValid}
use podman_swarm.Storage.Durable.{RoundTrips, IsReady, execute_durable, new_storage_reads}
use podman_swarm.Ingress.{Controller, new_ingress_controller}
use podman_swarm.Api.Start.Caches.{new_api-started}
use podman_swarm.Agent.{key_file, write_key, zeros, read_key, encryption_key, file_key}
use podman_swarm.Agent.Start.Success.{Starts, started_with}
use podman_swarm.Agent.Start.{Answers, Running, start}

write_key_keeps :
    (w : Write) (key : Text) (d : Disk)
    → lookup state_file (write_key w key d) ≡ lookup state_file d
unfolding ◌==◌
write_key_keeps written key d = ground (arith, lookup-insert key_file state_file key d)
write_key_keeps (torn none) key d = ground (arith, lookup-delete key_file state_file d)
write_key_keeps (torn (some b)) key d = ground (arith, lookup-insert key_file state_file b d)

file_key_keeps :
    (io : Io) (o : Option Text) (d : Disk)
    → lookup state_file (file_key io o d).1 ≡ lookup state_file d
file_key_keeps io none d = write_key_keeps io.write (zeros 32) d
file_key_keeps io (some b) d = refl

-- Preparing the key leaves the file of the state alone.
encryption_key_keeps :
    (io : Io) (cfg : Config) (d : Disk)
    → lookup state_file (encryption_key io cfg d).1 ≡ lookup state_file d
unfolding encryption_key
encryption_key_keeps io cfg d = ground (arith, file_key_keeps io (read_key io d) d)

-- What a successful change left is loaded.
loaded :
    (codec : Codec) (io later : Io) (dir : Text) (cmd : Command) (s : Storage) (d : Disk)
    → let o = execute codec io cmd s d in
      o.error ≡ none
      → RoundTrips codec (get_state o.storage)
      → IsReady later dir
      → new_storage codec later dir o.disk ≡ ok o.storage
loaded codec io later dir cmd s d done faithful ready =
    elim (execute_durable codec io later dir cmd s d ready faithful) [
      | inl p ↦ p.1
      | inr p ↦ absurd (p.0 done)
    ]

no_rules :
    (node k : Text) (i : Option Ingress)
    → or_else i (lookup k (new_ingress_controller node).rules) ≡ i
unfolding new_ingress_controller
no_rules node k none = lookup-nil Ingress k
no_rules node k (some i) = refl

-- A change of the storage that reports success survives a restart: a first node without TLS and with
-- the ingress controller, where every call on the way succeeds, starts from the disk that the change
-- left, its storage is the one that the change left, and under every key its caches and the rules of
-- its ingress controller hold what that storage holds. The keys of the storage before were those of
-- its objects, and the encoding of the state decodes to it.
pub restart_keeps :
    (a : Aead) (c : Crypto) (codec : Codec) (io : Io) (ans : Answers) (cfg : Config) (cmd : Command)
    (s : Storage) (d : Disk) (k : Text)
    → IsValid s
    → let o = execute codec io cmd s d in
      o.error ≡ none
      → RoundTrips codec (get_state o.storage)
      → Starts ans cfg
      → (r : Running) × (ic : Controller) × (start a c codec ans cfg o.disk ≡ ok r)
        × (r.state.agent.storage ≡ o.storage)
        × (r.state.controller ≡ some ic)
        × (lookup k r.state.agent.deployments ≡ lookup k o.storage.deployments)
        × (lookup k r.state.services ≡ lookup k o.storage.services)
        × (lookup k r.state.ingresses ≡ lookup k o.storage.ingresses)
        × (lookup k ic.rules ≡ lookup k o.storage.ingresses)
restart_keeps a c codec io ans cfg cmd s d k v done faithful h =
    let o = execute codec io cmd s d in
    let d' = (encryption_key ans.key_io cfg o.disk).1 in
    let loads : new_storage codec ans.storage_io cfg.data_dir d' ≡ ok o.storage =
      new_storage_reads codec ans.storage_io cfg.data_dir o.disk d'
        (encryption_key_keeps ans.key_io cfg o.disk)
      ∙ loaded codec io ans.storage_io cfg.data_dir cmd s d done faithful h.storage in
    let (state, ic, ready, same, controller, deployments, services, ingresses, rules) =
      new_api-started o.storage d' [] [] (new_ingress_controller cfg.node_name) k
        (execute-IsValid codec io cmd s d v) (unfold new_ingress_controller in refl) in
    let (r, starts, is_state) =
      started_with a c codec ans cfg o.disk o.storage state h loads ready in
    (
      r,
      ic,
      starts,
      ap (λ (t : State). t.agent.storage) is_state ∙ same,
      ap (λ (t : State). t.controller) is_state ∙ controller,
      ap (λ (t : State). lookup k t.agent.deployments) is_state ∙ deployments,
      ap (λ (t : State). lookup k t.services) is_state ∙ services,
      ap (λ (t : State). lookup k t.ingresses) is_state ∙ ingresses,
      rules ∙ no_rules cfg.node_name k (lookup k o.storage.ingresses),
    )
