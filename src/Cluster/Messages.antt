-- ===== src/Cluster/Messages.antt =====
-- A message from one node to another, through encryption.
use podman_swarm.Base.{[], ◌∷◌, ◌≡◌, refl, Option, none, some, Result, ok, err, length, arith}
use podman_swarm.Base.Text.{Text}
use podman_swarm.Types.{Node}
use podman_swarm.Security.Encryption.{Aead, IsAead, Encryptor, decrypt, decrypt-encrypt}
use podman_swarm.Cluster.{Cluster, Sent, outgoing, broadcast, notify_msg, encryptor_for}

-- Between nodes whose encryptors were made from one key, or that both have none, the bytes that one is
-- to send reach the handler of the other unchanged, if they come to it, and encryption does not fail.
pub notify-outgoing :
    {S : Type 0} (a : Aead) (key nonce msg : Text) (handler : Text → S → S)
    (sender receiver : Cluster) (state : S)
    → IsAead a
    → length nonce ≡ a.nonce_size
    → sender.encryptor ≡ encryptor_for a key
    → receiver.encryptor ≡ encryptor_for a key
    → (sent : Text) × (outgoing a sender (some nonce) msg ≡ ok sent)
      × (notify_msg a (some handler) receiver sent state ≡ handler msg state)
unfolding outgoing notify_msg
notify-outgoing a [] nonce msg handler sender receiver state v n hs hr =
    (msg, ground arith, ground arith)
notify-outgoing a (b ∷ key) nonce msg handler sender receiver state v n hs hr =
    let (sent, e, d) = decrypt-encrypt a (b ∷ key) nonce msg v n in
    (sent, ground arith, ground arith)

-- Broadcast is the sending of the bytes, to no node.
pub broadcast-outgoing :
    (a : Aead) (send : Option Node → Text → Sent) (c : Cluster) (random : Option Text)
    (msg bytes : Text)
    → outgoing a c random msg ≡ ok bytes
    → broadcast a send c random msg ≡ send none bytes
unfolding broadcast
broadcast-outgoing a send c random msg bytes e = rw (e, broadcast) refl

-- A message that does not decrypt changes nothing.
pub bad_message_ignored :
    {S : Type 0} (a : Aead) (handler : Option (Text → S → S)) (receiver : Cluster) (e : Encryptor)
    (msg : Text) (state : S)
    → receiver.encryptor ≡ some e
    → ((plain : Text) → decrypt a e msg ≡ ok plain → ⊥)
    → notify_msg a handler receiver msg state ≡ state
unfolding notify_msg
bad_message_ignored a handler receiver e msg state h bad = by_result (decrypt a e msg) refl
  where
    by_result :
        (r : Result _ Text) → decrypt a e msg ≡ r → notify_msg a handler receiver msg state ≡ state
    by_result (err x) at = ground arith
    by_result (ok plain) at = absurd (bad plain at)
