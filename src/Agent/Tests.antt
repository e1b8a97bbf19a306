-- ===== src/Agent/Tests.antt =====
-- Concrete agents: runs, and the theorems at inputs where their hypotheses hold.
use mathlib.Core.Option.{some-injective}
use mathlib.Core.List.{head-eq_of_cons-eq, tail-eq_of_cons-eq}
use podman_swarm.Base.{
  ◌∙◌, ℕ, ◌≡◌, inl, refl, ap, true, false, none, some, [], ◌∷◌, arith, ◌==ℕ◌, if◌then◌else◌, Option,
}
use podman_swarm.Base.Text.{Text, str, ◌==◌, eq_iff}
use podman_swarm.Base.Int.{pos}
use podman_swarm.Base.Map.{lookup}
use podman_swarm.Types.{Node, Pod, Service, running}
use podman_swarm.Config.{Config}
use podman_swarm.Security.Encryption.{Aead, IsAead, new_encryptor}
use podman_swarm.Cluster as Cluster
use podman_swarm.Cluster.{Cluster, Sent, encryptor_for, broadcast, notify_msg}
use podman_swarm.Discovery.{register_service, registered_endpoint, endpoint_for}
use podman_swarm.Discovery.Messages.{
  Json, Value, text, Message, service_update, broadcast_service_update, logged,
}
use podman_swarm.Discovery.Messages.Peers.{RoundTrips}
use podman_swarm.Storage.{Storage, Codec, Io, written, empty, get_state}
use podman_swarm.Storage.Merge.{MessageCodec, state_message, broadcast_state, merge_state}
use podman_swarm.Storage.Merge.Laws.{Decodes}
use podman_swarm.Agent.{encryption_key, read_key, Receiver, up, down, handle_cluster_message}
use podman_swarm.Agent.Keys.{Unheard, joiner_deaf}
use podman_swarm.Agent.Messages.{
  IsOther, IsNoUpdate, registration_readable, state_readable, malformed_ends,
}

abbrev io : Io
io = record { now = 5; write = written; rename_ok = true; read_ok = true; mkdir_ok = true }

abbrev first : Config
first = record {
  node_name = str "n1";
  bind_addr = str "0.0.0.0:7946";
  api_addr = str "0.0.0.0:8080";
  podman_socket = [];
  data_dir = str "/data";
  join_addrs = [];
  join_token = [];
  encryption_key = [];
  tls_cert_file = [];
  tls_key_file = [];
  tls_ca_file = [];
  tls_skip_verify = false;
  ingress_port = pos 80;
  enable_ingress = true;
  dns_port = pos 53;
  cluster_domain = str "cluster.local";
  upstream_dns = [];
  api_token = str "mine";
  enable_api_auth = true;
}

abbrev joiner : Config
joiner = record first { join_addrs = str "n1" ∷ []; join_token = str "token" }

unread_key : read_key io [] ≡ none
unfolding lookup
unread_key = refl

-- A cipher that marks what it seals by the first byte of the key.
abbrev first_byte : Text → ℕ
first_byte [] = 0
first_byte (b ∷ key) = b

abbrev opened : Text → Text → Option Text
opened key [] = none
opened key (b ∷ p) = if first_byte key ==ℕ b then some p else none

abbrev cipher : Aead
cipher = record {
  sha_256 = λ p. str "0123456789abcdef0123456789abcdef";
  nonce_size = 2;
  seal = λ key nonce p. first_byte key ∷ p;
  open_sealed = λ key nonce c. opened key c;
}

same_byte : (b : ℕ) (p : Text) → (if b ==ℕ b then some p else none) ≡ some p
same_byte b p = ground arith

cipher-IsAead : IsAead cipher
cipher-IsAead = record {
  open-seal = λ key nonce p. same_byte (first_byte key) p;
  hash_size = λ p. refl;
}

abbrev node_of : Config → Cluster
node_of cfg = record { nodes = []; encryptor = encryptor_for cipher (encryption_key io cfg []).0 }

joiner_deaf_example :
    Unheard cipher
      (str "nn")
      (str "hi")
      (node_of first)
      (node_of joiner)
      (some λ msg log. msg ∷ log)
      []
    × Unheard cipher
        (str "nn")
        (str "hi")
        (node_of joiner)
        (node_of first)
        (some λ msg log. msg ∷ log)
        []
joiner_deaf_example =
    joiner_deaf cipher io io first joiner [] [] (str "token") (str "nn") (str "hi") (node_of first)
      (node_of joiner) (some λ msg log. msg ∷ log) [] cipher-IsAead (refl, inl refl) unread_key refl
      (refl, (λ e. cc), refl, (λ e. cc)) refl refl refl (unfold new_encryptor in refl)
      (unfold new_encryptor in refl)

abbrev keyed : Config
keyed = record first { encryption_key = str "secret" }

abbrev web : Service
web = record {
  name = str "web";
  namespace = str "default";
  type = [];
  selector = [];
  ports = pos 80 ∷ [];
  cluster_ip = [];
  labels = [];
}

abbrev pod : Pod
pod = record {
  id = str "c1";
  name = str "web-0";
  namespace = str "default";
  node_name = str "n1";
  state = running;
  image = str "nginx";
  labels = [];
  annotations = [];
  ports = [];
  env = [];
  volumes = [];
  node_selector = [];
  created_at = pos 1;
}

-- Codecs that know two messages: a registration, and a state.
abbrev message_of : Text → Message
message_of b =
    if b == str "register"
    then service_update (endpoint_for [] 5 web pod) (str "register") 1
    else (str "type", text b) ∷ []

abbrev json : Json
json = record { marshal = λ m. some (str "register"); unmarshal = λ b. some (message_of b) }

abbrev codec : Codec
codec = record { marshal = λ st. some (str "{}"); unmarshal = λ b. none }

abbrev peer : Storage
peer = record empty { last_modified = 7 }

abbrev message_codec : MessageCodec
message_codec = record {
  encode = λ m. some m.type;
  decode = λ b.
      if b == str "state_sync"
      then some (state_message io (str "n1") peer)
      else some
          (record { type = str "service_update"; state = none; timestamp = 1; node_name = [] });
}

abbrev receiver : Receiver
receiver = record { registry = []; storage = empty; disk = [] }

register-RoundTrips :
    RoundTrips json (service_update (endpoint_for [] 5 web pod) (str "register") 1)
unfolding ◌==◌
register-RoundTrips b e = ground (arith, eq_iff (str "register") b)

register-IsOther : IsOther message_codec (str "register")
unfolding ◌==◌
register-IsOther m e same = ground arith

-- A library that has no node to send to.
abbrev send : Option Node → Text → Sent
send none bytes = Cluster.panicked
send (some node) bytes = Cluster.sent

registration_readable_example :
    let update =
      broadcast_service_update json (broadcast cipher send (node_of keyed) (some (str "nn"))) 1 in
    (out : Text) × (register_service update [] 5 web pod []
      ≡ (registered_endpoint [] 5 web pod [], logged (send none out)))
    × (notify_msg cipher
          (some (handle_cluster_message json codec message_codec io 9))
          (node_of keyed)
          out
          (up receiver)
        ≡ up (record receiver { registry = registered_endpoint [] 9 web pod [] }))
registration_readable_example =
    registration_readable cipher json codec message_codec io io io keyed keyed [] [] send [] 5 1 9
      web pod (str "nn") (str "register") (node_of keyed) (node_of keyed) [] receiver cipher-IsAead
      refl (refl, λ e. cc) refl refl register-RoundTrips (unfold endpoint_for in omega arith) refl
      register-IsOther

state-Decodes : Decodes message_codec (state_message io (str "n1") peer)
unfolding ◌==◌
state-Decodes b e = ground (arith, eq_iff (str "state_sync") b)

abbrev tag : Option Value → Text
tag (some (text s)) = s
tag _ = []

state-IsNoUpdate : IsNoUpdate json (str "state_sync")
unfolding lookup ◌==◌
state-IsNoUpdate m e same =
    let tags : str "state_sync" ≡ str "service_update" =
      ap tag (ap (lookup (str "type")) (some-injective _ _ e) ∙ same) in
    let second : ◌≡◌ {A = ℕ} 116 101 = head-eq_of_cons-eq (tail-eq_of_cons-eq tags) in omega arith

state_readable_example :
    let merge = merge_state codec io (get_state peer) receiver.storage receiver.disk in
    (out : Text) × (broadcast cipher send (node_of keyed) (some (str "nn")) (str "state_sync")
      ≡ send none out)
    × (notify_msg cipher
          (some (handle_cluster_message json codec message_codec io 9))
          (node_of keyed)
          out
          (up receiver)
        ≡ up (record { registry = []; storage = merge.storage; disk = merge.disk }))
state_readable_example =
    state_readable cipher json codec message_codec io io io io keyed keyed [] [] send 9 peer
      (str "nn") (str "state_sync") (node_of keyed) (node_of keyed) receiver cipher-IsAead refl
      (refl, λ e. cc) refl refl state-Decodes (unfold broadcast_state in refl) state-IsNoUpdate

-- Any peer can send this message, in a cluster without keys any host.
malformed_ends_example :
    handle_cluster_message json codec message_codec io 9 (str "service_update") (up receiver) ≡ down
malformed_ends_example =
    malformed_ends json codec message_codec io 9 (str "service_update") receiver
      ((str "type", text (str "service_update")) ∷ []) (str "action") (unfold ◌==◌ in refl)
      (unfold lookup ◌==◌ in refl) (inl refl) (unfold lookup ◌==◌ in refl)
