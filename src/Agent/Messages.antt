-- ===== src/Agent/Messages.antt =====
-- Messages from the handlers of one node to the handler of another.
use podman_swarm.Base.{
  ℕ, In, ◌≡◌, ◌≢◌, refl, ap, sym, subst, ◌∙◌, Option, none, some, [], length, ok, arith,
}
use podman_swarm.Base.Text.{Text, str, eq_iff}
use podman_swarm.Base.Map.{Map, lookup}
use podman_swarm.Types.{Node, Pod, Service}
use podman_swarm.Config.{Config}
use podman_swarm.Security.Encryption.{Aead, IsAead}
use podman_swarm.Cluster.{Cluster, Sent, encryptor_for, outgoing, broadcast, notify_msg}
use podman_swarm.Cluster.Messages.{notify-outgoing, broadcast-outgoing}
use podman_swarm.Discovery.{Registry, endpoint_for, register_service, registered_endpoint}
use podman_swarm.Discovery.Messages.{
  Json, Message, text, service_update, broadcast_service_update, handle_service_update, panicked,
  logged, IsInt32,
}
use podman_swarm.Discovery.Messages.Peers.{
  RoundTrips, handle_update-other, handle_update-missing, peer_registered,
  broadcast_service_update-marshal,
}
use podman_swarm.Discovery.Messages.Fields.{fields, unread}
use podman_swarm.Storage.{Storage, Outcome, Codec, Io, Disk, get_state}
use podman_swarm.Storage.Merge.Laws.{Decodes, state_handled}
use podman_swarm.Storage.Merge.{
  MessageCodec, StateSyncMessage, state_message, broadcast_state, handle_state_sync_message,
  merge_state, unchanged,
}
use podman_swarm.Agent.{
  encryption_key, Receiver, up, down, handle_cluster_message, synchronized, after_update,
}

-- The nodes' configurations name one key, which is not empty.
abbrev pub SameKey : Config → Config → Type 0
SameKey cfg cfg' = (cfg.encryption_key ≡ cfg'.encryption_key) × (cfg.encryption_key ≢ [])

configured_key :
    (io : Io) (cfg : Config) (d : Disk)
    → cfg.encryption_key ≢ []
    → encryption_key io cfg d ≡ (cfg.encryption_key, d)
unfolding encryption_key
configured_key io cfg d h = ground (arith, eq_iff cfg.encryption_key [])

-- What the storage's decoder makes of the bytes is no state, as their type says.
abbrev pub IsOther : MessageCodec → Text → Type 0
IsOther mc bytes = (m : StateSyncMessage) → mc.decode bytes ≡ some m → m.type ≢ str "state_sync"

storage_passes_over :
    (c : Codec) (mc : MessageCodec) (io : Io) (bytes : Text) (registry : Registry) (r : Receiver)
    → IsOther mc bytes
    → synchronized c mc io bytes registry r ≡ up (record r { registry = registry })
unfolding handle_state_sync_message unchanged
storage_passes_over c mc io bytes registry r other = by_decoded (mc.decode bytes) refl
  where
    by_decoded :
        (o : Option StateSyncMessage)
        → mc.decode bytes ≡ o
        → synchronized c mc io bytes registry r ≡ up (record r { registry = registry })
    by_decoded none e = ground arith
    by_decoded (some m) e = ground (arith, eq_iff m.type (str "state_sync"), other m e)

module _ {S : Type 0} (a : Aead) (io io' : Io) (cfg cfg' : Config) (d d' : Disk) (nonce msg : Text)
    (handler : Text → S → S) (sender receiver : Cluster) (state : S) where
  -- Between nodes that were started with one key, a message that comes reaches the other handler.
  delivered :
      IsAead a
      → length nonce ≡ a.nonce_size
      → SameKey cfg cfg'
      → sender.encryptor ≡ encryptor_for a (encryption_key io cfg d).0
      → receiver.encryptor ≡ encryptor_for a (encryption_key io' cfg' d').0
      → (sent : Text) × (outgoing a sender (some nonce) msg ≡ ok sent)
        × (notify_msg a (some handler) receiver sent state ≡ handler msg state)
  delivered v n (same, given) hs hr =
      notify-outgoing a cfg.encryption_key nonce msg handler sender receiver state v n
        (hs ∙ ap (λ r. encryptor_for a r.0) (configured_key io cfg d given))
        (hr
          ∙ ap (λ r. encryptor_for a r.0)
              (configured_key io' cfg' d' (subst (λ k. k ≢ []) same given))
          ∙ ap (encryptor_for a) (sym same))

-- What a registration sends is what its handler on another node needs: between nodes that were started
-- with one encryption key, a registration puts the endpoint into
-- the own registry, and its broadcast comes back as the library's sending of some
-- bytes does, to which it names no node; and if these bytes come to another node, they are decrypted,
-- and its handler puts the endpoint into its registry, seen at that node's time, and leaves its storage
-- alone. Whether they come is the library's part. The service's port is an int32, and the message is
-- encoded without error, into bytes that decode to it and that the storage does not take for a state.
pub registration_readable :
    (a : Aead) (j : Json) (c : Codec) (mc : MessageCodec) (io io' handling : Io) (cfg cfg' : Config)
    (d d' : Disk) (send : Option Node → Text → Sent) (nodes : Map Node) (at unix now : ℕ)
    (service : Service) (pod : Pod) (nonce bytes : Text) (sender receiver : Cluster)
    (reg : Registry) (r : Receiver)
    → IsAead a
    → length nonce ≡ a.nonce_size
    → SameKey cfg cfg'
    → sender.encryptor ≡ encryptor_for a (encryption_key io cfg d).0
    → receiver.encryptor ≡ encryptor_for a (encryption_key io' cfg' d').0
    → RoundTrips j (service_update (endpoint_for nodes at service pod) (str "register") unix)
    → IsInt32 (endpoint_for nodes at service pod).port
    → j.marshal (service_update (endpoint_for nodes at service pod) (str "register") unix)
      ≡ some bytes
    → IsOther mc bytes
    → let update = broadcast_service_update j (broadcast a send sender (some nonce)) unix in
      (out : Text) × (register_service update nodes at service pod reg
        ≡ (registered_endpoint nodes at service pod reg, logged (send none out)))
      × (notify_msg a (some (handle_cluster_message j c mc handling now)) receiver out (up r)
          ≡ up (record r { registry = registered_endpoint nodes now service pod r.registry }))
unfolding handle_cluster_message register_service
registration_readable a j c mc io io' handling cfg cfg' d d' send nodes at unix now service pod
      nonce bytes sender receiver reg r v n same hs hr faithful fits given other =
    let (out, e, reached) =
      delivered a io io' cfg cfg' d d' nonce bytes (handle_cluster_message j c mc handling now)
        sender receiver (up r) v n same hs hr in
    let handled =
      peer_registered j nodes at unix now service pod bytes r.registry faithful fits given in
    (
      out,
      ap (λ call. (registered_endpoint nodes at service pod reg, call))
          (broadcast_service_update-marshal j (broadcast a send sender (some nonce)) unix
              (endpoint_for nodes at service pod) (str "register") bytes given
            ∙ ap logged (broadcast-outgoing a send sender (some nonce) bytes out e)),
      reached
          ∙ ap (λ h. after_update c mc handling bytes h r) handled
          ∙ storage_passes_over c mc handling bytes
              (registered_endpoint nodes now service pod r.registry) r other,
    )

-- What the discovery's decoder makes of the bytes is no update of a service, as its type says.
abbrev pub IsNoUpdate : Json → Text → Type 0
IsNoUpdate j bytes =
    (m : Message)
    → j.unmarshal bytes ≡ some m
    → lookup (str "type") m ≢ some (text (str "service_update"))

discovery_passes_over :
    (j : Json) (c : Codec) (mc : MessageCodec) (io : Io) (now : ℕ) (bytes : Text) (r : Receiver)
    → IsNoUpdate j bytes
    → after_update c mc io bytes (handle_service_update j now bytes r.registry) r
      ≡ synchronized c mc io bytes r.registry r
unfolding handle_service_update
discovery_passes_over j c mc io now bytes r other = by_decoded (j.unmarshal bytes) refl
  where
    by_decoded :
        (o : Option Message)
        → j.unmarshal bytes ≡ o
        → after_update c mc io bytes (handle_service_update j now bytes r.registry) r
          ≡ synchronized c mc io bytes r.registry r
    by_decoded none e = rw (e, handle_service_update) refl
    by_decoded (some m) e =
        rw (e, handle_service_update)
          (ap (λ h. after_update c mc io bytes h r)
            (handle_update-other now m r.registry (other m e)))

-- What the synchronization sends is what its handler on another node needs: between nodes that were
-- started with one encryption key, the broadcast of a node's state comes back as the library's sending
-- of some bytes does, to which it names no node; and if these bytes come to another node, they are
-- decrypted, and its handler merges the state into its storage and leaves its registry alone. Whether
-- they come is the library's part. The message is encoded without error, into bytes that decode to it
-- and that the discovery does not take for an update of a service.
pub state_readable :
    (a : Aead) (j : Json) (c : Codec) (mc : MessageCodec) (io io' sending handling : Io)
    (cfg cfg' : Config) (d d' : Disk) (send : Option Node → Text → Sent) (now : ℕ) (peer : Storage)
    (nonce bytes : Text) (sender receiver : Cluster) (r : Receiver)
    → IsAead a
    → length nonce ≡ a.nonce_size
    → SameKey cfg cfg'
    → sender.encryptor ≡ encryptor_for a (encryption_key io cfg d).0
    → receiver.encryptor ≡ encryptor_for a (encryption_key io' cfg' d').0
    → Decodes mc (state_message sending cfg.node_name peer)
    → broadcast_state mc sending cfg.node_name peer ≡ ok bytes
    → IsNoUpdate j bytes
    → let merge = merge_state c handling (get_state peer) r.storage r.disk in
      (out : Text) × (broadcast a send sender (some nonce) bytes ≡ send none out)
      × (notify_msg a (some (handle_cluster_message j c mc handling now)) receiver out (up r)
          ≡ up (record { registry = r.registry; storage = merge.storage; disk = merge.disk }))
unfolding handle_cluster_message
state_readable a j c mc io io' sending handling cfg cfg' d d' send now peer nonce bytes sender
      receiver r v n same hs hr faithful given other =
    let (out, e, reached) =
      delivered a io io' cfg cfg' d d' nonce bytes (handle_cluster_message j c mc handling now)
        sender receiver (up r) v n same hs hr in
    let merged =
      state_handled c mc handling sending cfg.node_name peer r.storage r.disk bytes faithful
        given in
    (
      out,
      broadcast-outgoing a send sender (some nonce) bytes out e,
      reached
          ∙ discovery_passes_over j c mc handling now bytes r other
          ∙ ap
              (λ (o : Outcome).
                up (record { registry = r.registry; storage = o.storage; disk = o.disk }))
              merged,
    )

-- A message that calls itself an update of a service and lacks one of the nine fields ends the agent
-- that receives it.
pub malformed_ends :
    (j : Json) (c : Codec) (mc : MessageCodec) (io : Io) (now : ℕ) (bytes : Text) (r : Receiver)
    (m : Message) (name : Text)
    → j.unmarshal bytes ≡ some m
    → lookup (str "type") m ≡ some (text (str "service_update"))
    → In name fields
    → lookup name m ≡ none
    → handle_cluster_message j c mc io now bytes (up r) ≡ down
unfolding handle_cluster_message handle_service_update
malformed_ends j c mc io now bytes r m name e t i missing =
    let ended : handle_service_update j now bytes r.registry ≡ panicked =
      rw (e, handle_service_update)
        (handle_update-missing now m r.registry t (unread now m name i missing)) in
    ap (λ h. after_update c mc io bytes h r) ended
