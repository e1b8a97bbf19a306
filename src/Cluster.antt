-- ===== src/Cluster.antt =====
-- internal/cluster/cluster.go: the nodes that an agent knows, and the messages between them. The
-- library memberlist, which finds the nodes and carries the messages, calls the Notify methods.
pub mod Membership
pub mod Messages
pub mod Leader
pub mod Admission
mod Tests
use podman_swarm.Base.{
  is_empty, ℕ, Bool, true, false, Option, none, some, List, [], ◌∷◌, ◌++◌, any, not, length, Result,
  ok, err, if◌then◌else◌,
}
use podman_swarm.Base.Text.{Text, str, ◌==◌}
use podman_swarm.Base.Text.Order.{less}
use podman_swarm.Base.Map.{Map, lookup, insert, delete, values}
use podman_swarm.Types.{Node}
use podman_swarm.Security.{Crypto}
use podman_swarm.Security.JoinTokens as Join
use podman_swarm.Security.JoinTokens.{TokenManager}
use podman_swarm.Security.Encryption as Encryption
use podman_swarm.Security.Encryption.{Aead, Encryptor, new_encryptor, encrypt, decrypt}

pub record Cluster : Type 0 where
  pub nodes : Map Node
  pub encryptor : Option Encryptor

pub data Error : Type 0 where
  create_failed invalid_join_token node_not_found encrypt_failed send_failed : Error

abbrev pub ready_node : Text → Text → Node
ready_node name address = record {
  name = name;
  address = address;
  status = str "Ready";
  labels = [];
}

unfoldable pub notify_join : Text → Text → Map Node → Map Node
notify_join name address nodes = insert name (ready_node name address) nodes

unfoldable pub notify_leave : Text → Map Node → Map Node
notify_leave name nodes = delete name nodes

abbrev pub readdress : Text → Node → Node
readdress address node = record node { address = address }

abbrev pub relabel : Map Text → Node → Node
relabel labels node = record node { labels = labels }

abbrev pub change : Text → (Node → Node) → Option Node → Map Node → Map Node
change name f none nodes = nodes
change name f (some node) nodes = insert name (f node) nodes

unfoldable pub notify_update : Text → Text → Map Node → Map Node
notify_update name address nodes = change name (readdress address) (lookup name nodes) nodes

unfoldable pub update_node_labels : Text → Map Text → Map Node → Map Node
update_node_labels name labels nodes = change name (relabel labels) (lookup name nodes) nodes

-- The calls that change the table of nodes.
pub data Event : Type 0 where
  joined : (name address : Text) → Event
  left : (name : Text) → Event
  updated : (name address : Text) → Event
  labelled : (name : Text) (labels : Map Text) → Event

unfoldable pub handle : Event → Map Node → Map Node
unfolding notify_join notify_leave notify_update update_node_labels
handle (joined name address) = notify_join name address
handle (left name) = notify_leave name
handle (updated name address) = notify_update name address
handle (labelled name labels) = update_node_labels name labels

unfoldable pub handle_all : List Event → Map Node → Map Node
unfolding handle
handle_all [] nodes = nodes
handle_all (e ∷ events) nodes = handle_all events (handle e nodes)

abbrev pub get_nodes : Map Node → List Node
get_nodes = values

abbrev found : Option Node → Result Error Node
found none = err node_not_found
found (some node) = ok node

unfoldable pub get_node : Text → Map Node → Result Error Node
get_node name nodes = found (lookup name nodes)

unfoldable pub get_node_count : Map Node → ℕ
get_node_count nodes = length nodes

-- The bytes that Broadcast is to send; the nonce is random, and absent when reading it failed.
unfoldable pub outgoing : Aead → Cluster → Option Text → Text → Result Error Text
outgoing a c nonce msg = elim c.encryptor [
  | none ↦ ok msg
  | some e ↦ elim (encrypt a e nonce msg) [ err x ↦ err encrypt_failed | ok sent ↦ ok sent ]
]

-- How a call that sends comes back: it returns, with or without an error, or it panics.
pub data Sent : Type 0 where
  sent : Sent
  refused : Error → Sent
  panicked : Sent

-- Broadcast: memberlist's SendBestEffort, which is a parameter, is given nil as the node to send to.
unfoldable pub broadcast : Aead → (Option Node → Text → Sent) → Cluster → Option Text → Text → Sent
unfolding outgoing
broadcast a send c nonce msg = elim (outgoing a c nonce msg) [
  | err x ↦ refused x
  | ok bytes ↦ send none bytes
]

-- The handler is a function on what it changes; its error is only logged.
abbrev delivered : {S : Type 0} → Option (Text → S → S) → Text → S → S
delivered none msg state = state
delivered (some handler) msg state = handler msg state

unfoldable pub notify_msg : {S : Type 0} → Aead → Option (Text → S → S) → Cluster → Text → S → S
notify_msg a handler c msg state = elim c.encryptor [
  | none ↦ delivered handler msg state
  | some e ↦ elim (decrypt a e msg) [ err x ↦ state | ok plain ↦ delivered handler plain state ]
]

-- IsLeader, over the names of memberlist's members.
unfoldable pub is_leader : List Text → Text → Bool
is_leader members local = if is_empty members then false else not (any (λ m. less m local) members)

pub record ClusterConfig : Type 0 where
  pub node_name : Text
  pub bind_addr : Text
  pub join_addrs : List Text
  pub join_token : Text
  pub encryption_key : Text
  pub token_manager : Option TokenManager

-- Setting up encryption if there is a key.
abbrev pub encryptor_for : Aead → Text → Option Encryptor
encryptor_for a [] = none
encryptor_for a (b ∷ key) = some (new_encryptor a (b ∷ key))

-- The check of the join token, with the manager that it leaves.
unfoldable pub admit : Crypto → ℕ → ClusterConfig → Bool × Option TokenManager
admit c now cfg = elim cfg.token_manager [
  | none ↦ (true, none)
  | some tm ↦
      if cfg.join_token == str ""
      then (true, some tm)
      else let (valid, tm') = Join.validate_token c now cfg.join_token tm in (valid, some tm')
]

with_local : ClusterConfig → Map Node → Map Node
with_local cfg nodes = insert cfg.node_name (ready_node cfg.node_name cfg.bind_addr) nodes

-- NewCluster. memberlist creates its list or not, and reports what it finds: `created` are the
-- events of Create, `joining` those of Join.
unfoldable pub new_cluster :
    Aead
    → Crypto
    → ℕ
    → Bool
    → List Event
    → List Event
    → ClusterConfig
    → Result Error Cluster × Option TokenManager
unfolding admit handle_all with_local
new_cluster a c now create_ok created joining cfg =
    let nodes = handle_all created [] in
    let encryptor = encryptor_for a cfg.encryption_key in
    let (valid, tm) = admit c now cfg in
    if not create_ok
    then (err create_failed, cfg.token_manager)
    else if is_empty cfg.join_addrs
    then (ok (record { nodes = with_local cfg nodes; encryptor = encryptor }), cfg.token_manager)
    else if valid
    then (
      ok (record { nodes = with_local cfg (handle_all joining nodes); encryptor = encryptor }),
      tm,
    )
    else (err invalid_join_token, tm)
