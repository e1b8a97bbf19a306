-- ===== src/Agent.antt =====
-- cmd/agent/main.go: what the agent makes of its configuration when it starts, and the handler that
-- it sets for the messages of the cluster. How it makes one component after the other, its listeners
-- and signals are not modelled.
pub mod Keys
pub mod Messages
pub mod Tokens
pub mod Start
pub mod Steps
mod Tests
use podman_swarm.Base.{
  is_empty, ℕ, zero, suc, Bool, true, false, Option, none, some, List, [], ◌∷◌, ◌&&◌, not, length,
  take, leb, Result, ok, err, if◌then◌else◌,
}
use podman_swarm.Base.Text.{Text, str, ◌==◌}
use podman_swarm.Base.Map.{lookup, insert}
use podman_swarm.Config.{Config}
use podman_swarm.Security.{Crypto}
use podman_swarm.Security.ApiTokens as Api
use podman_swarm.Security.ApiTokens.{ApiTokenManager}
use podman_swarm.Security.JoinTokens as Join
use podman_swarm.Security.JoinTokens.{TokenManager}
use podman_swarm.Discovery.{Registry}
use podman_swarm.Discovery.Messages.{Json, Handled, returned, panicked, handle_service_update}
use podman_swarm.Storage.{Storage, Disk, Codec, Io, Write, written, torn, put_file}
use podman_swarm.Storage.Merge.{MessageCodec, handle_state_sync_message}

-- make([]byte, n)
abbrev pub zeros : ℕ → Text
zeros zero = []
zeros (suc n) = 0 ∷ zeros n

abbrev pub key_file : Text
key_file = str "encryption.key"

-- What os.ReadFile answers for the key file.
abbrev read_key : Io → Disk → Option Text
read_key io d = if io.read_ok then lookup key_file d else none

-- A key from the file, of which 32 bytes are used, or the new one.
abbrev loaded_key : Text → Text
loaded_key bytes = if leb 32 (length bytes) then take 32 bytes else zeros 32

-- os.WriteFile, whose error is dropped.
abbrev write_key : Write → Text → Disk → Disk
write_key written key d = insert key_file key d
write_key (torn left) key d = put_file key_file left d

-- The key of the first node: from the file, or the new one, which is put there.
abbrev file_key : Io → Option Text → Disk → Text × Disk
file_key io (some bytes) d = (loaded_key bytes, d)
file_key io none d = (zeros 32, write_key io.write (zeros 32) d)

-- The encryption key, and the disk after it was prepared.
unfoldable pub encryption_key : Io → Config → Disk → Text × Disk
encryption_key io cfg d =
    if not (cfg.encryption_key == str "")
    then (cfg.encryption_key, d)
    else if not (is_empty cfg.join_addrs) && not (cfg.join_token == str "")
    then (cfg.join_token, d)
    else file_key io (read_key io d) d

-- What the handler of messages changes. A panic in it ends the agent.
pub record Receiver : Type 0 where
  pub registry : Registry
  pub storage : Storage
  pub disk : Disk

pub data Process : Type 0 where
  up : Receiver → Process
  down : Process

-- The second call of the handler.
abbrev synchronized : Codec → MessageCodec → Io → Text → Registry → Receiver → Process
synchronized c mc io bytes registry r =
    let o = handle_state_sync_message c mc io bytes r.storage r.disk in
    up (record { registry = registry; storage = o.storage; disk = o.disk })

abbrev after_update : Codec → MessageCodec → Io → Text → Handled → Receiver → Process
after_update c mc io bytes panicked r = down
after_update c mc io bytes (returned (err e)) r = synchronized c mc io bytes r.registry r
after_update c mc io bytes (returned (ok registry)) r = synchronized c mc io bytes registry r

-- The message handler: the message is given to the discovery, and then to the storage.
unfoldable pub handle_cluster_message :
    Json → Codec → MessageCodec → Io → ℕ → Text → Process → Process
handle_cluster_message j c mc io now bytes down = down
handle_cluster_message j c mc io now bytes (up r) =
    after_update c mc io bytes (handle_service_update j now bytes r.registry) r

-- The managers of tokens when the agent has started; none when it ended with a fatal error. The
-- first node makes a token for others to join.
unfoldable pub start_join_tokens : Crypto → Config → ℕ → Option Text → Text → Option TokenManager
start_join_tokens c cfg now bytes random =
    let tm = Join.new_manager cfg.encryption_key random in
    if is_empty cfg.join_addrs && cfg.join_token == str ""
    then elim (Join.generate_token c now bytes tm) [ err e ↦ none | ok (token, tm') ↦ some tm' ]
    else some tm

-- With a token in the configuration a token is generated too, and an error is dropped.
unfoldable pub start_api_tokens :
    Crypto → Config → Text → ℕ → Option Text → Text → Option ApiTokenManager
start_api_tokens c cfg key now bytes random =
    let tm = Api.new_manager key random in
    let generated = Api.generate_token c now bytes (str "default") none tm in
    if not (cfg.api_token == str "")
    then elim generated [ err e ↦ some tm | ok (token, tm') ↦ some tm' ]
    else if cfg.enable_api_auth
    then elim generated [ err e ↦ none | ok (token, tm') ↦ some tm' ]
    else some tm
