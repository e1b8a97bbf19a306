-- ===== src/Agent/Keys.antt =====
-- The key of a node without one.
use podman_swarm.Base.{
  ◌≡◌, ◌≢◌, ◌⊎◌, inl, inr, refl, ap, subst, ◌∙◌, false, Option, none, some, [], ◌∷◌, Bool-cases,
  length, take, is_empty, arith, ok, ◌++◌, drop, take-append_left, drop-append_left,
}
use podman_swarm.Base.Text.{Text, eq_iff}
use podman_swarm.Base.Map.{lookup, insert, lookup-insert_self}
use podman_swarm.Config.{Config}
use podman_swarm.Storage.{Disk, Io, written}
use podman_swarm.Security.Encryption.{
  Aead, IsAead, new_encryptor-key, new_encryptor, encrypt, decrypt,
}
use podman_swarm.Cluster.{Cluster, encryptor_for, outgoing, notify_msg}
use podman_swarm.Cluster.Messages.{bad_message_ignored}
use podman_swarm.Agent.{zeros, key_file, file_key, read_key, encryption_key}

-- A node without a key that joins no others, or none by a token.
abbrev pub Keyless : Config → Type 0
Keyless cfg = (cfg.encryption_key ≡ []) × ((cfg.join_addrs ≡ []) ⊎ (cfg.join_token ≡ []))

keyless :
    (io : Io) (cfg : Config) (d : Disk)
    → Keyless cfg
    → encryption_key io cfg d ≡ file_key io (read_key io d) d
unfolding encryption_key
keyless io cfg d (e, inl j) = ground (arith, eq_iff cfg.encryption_key [], ap is_empty j)
keyless io cfg d (e, inr j) = ground (arith, eq_iff cfg.encryption_key [], eq_iff cfg.join_token [])

zeros_read :
    (io : Io) (d : Disk)
    → lookup key_file d ≡ some (zeros 32)
    → (file_key io (read_key io d) d).0 ≡ zeros 32
zeros_read io d e = elim (Bool-cases io.read_ok) [
  | inl ok? ↦ rw (ok?, e) refl
  | inr bad ↦ rw bad refl
]

-- The key of a node that is given none, and that joins no others by a token, is 32 zero bytes when
-- no key file can be read, and so it is at every later start, whether or not the file can be read
-- then.
default_key :
    (io later : Io) (cfg : Config) (d : Disk)
    → Keyless cfg
    → read_key io d ≡ none
    → io.write ≡ written
    → let (key, d') = encryption_key io cfg d in
      (key ≡ zeros 32) × ((encryption_key later cfg d').0 ≡ zeros 32)
default_key io later cfg d k e w =
    let first : encryption_key io cfg d ≡ (zeros 32, insert key_file (zeros 32) d) =
      keyless io cfg d k ∙ rw (e, w) refl in
    (
      ap (λ r. r.0) first,
      ap (λ r. (encryption_key later cfg r.1).0) first
          ∙ ap (λ r. r.0) (keyless later cfg (insert key_file (zeros 32) d) k)
          ∙ zeros_read later (insert key_file (zeros 32) d)
              (lookup-insert_self key_file (zeros 32) d),
    )

-- A node that is given no key and joins others by a token.
abbrev pub JoinsBy : Text → Config → Type 0
JoinsBy token cfg =
    (cfg.encryption_key ≡ []) × (cfg.join_addrs ≢ []) × (cfg.join_token ≡ token) × (token ≢ [])

joiner_key :
    (io : Io) (cfg : Config) (d : Disk) (token : Text)
    → JoinsBy token cfg
    → encryption_key io cfg d ≡ (token, d)
unfolding encryption_key
joiner_key io cfg d token (e, addrs, same, n) =
    ground (
      arith,
      eq_iff cfg.encryption_key [],
      eq_iff cfg.join_token [],
      not_empty cfg.join_addrs addrs,
    )
  where
    not_empty : (xs : _) → xs ≢ [] → is_empty {A = Text} xs ≡ false
    not_empty [] h = absurd (h refl)
    not_empty (x ∷ xs) h = refl

some_encryptor :
    (a : Aead) (key : Text) → key ≢ [] → encryptor_for a key ≡ some (new_encryptor a key)
some_encryptor a [] h = absurd (h refl)
some_encryptor a (b ∷ key) h = refl

-- Under the one key, the cipher does not open what was sealed under the other.
abbrev pub Closed : Aead → Text → Text → Text → Text → Type 0
Closed a opening sealing nonce msg =
    a.open_sealed (new_encryptor a opening).key nonce
      (a.seal (new_encryptor a sealing).key nonce msg)
    ≡ none

-- The sender encrypts the message without error, and the receiver takes no notice of it.
abbrev pub Unheard :
    {S : Type 0} → Aead → Text → Text → Cluster → Cluster → Option (Text → S → S) → S → Type 0
Unheard a nonce msg sender receiver handler state =
    (bytes : Text) × (outgoing a sender (some nonce) msg ≡ ok bytes)
    × (notify_msg a handler receiver bytes state ≡ state)

module _ (a : Aead) (v : IsAead a) (key other nonce msg : Text)
    (sized : length nonce ≡ a.nonce_size) (closed : Closed a other key nonce msg) where
  abbrev sealed : Text
  sealed = a.seal (new_encryptor a key).key nonce msg

  encrypted : encrypt a (new_encryptor a key) (some nonce) msg ≡ ok (nonce ++ sealed)
  unfolding encrypt
  encrypted = ground (arith, new_encryptor-key a v key)

  not_opened : (plain : Text) → decrypt a (new_encryptor a other) (nonce ++ sealed) ≡ ok plain → ⊥
  unfolding decrypt
  not_opened plain h =
      let nonce_taken : take a.nonce_size (nonce ++ sealed) ≡ nonce =
        subst (λ n. take n (nonce ++ sealed) ≡ nonce) sized (take-append_left nonce sealed) in
      let rest_taken : drop a.nonce_size (nonce ++ sealed) ≡ sealed =
        subst (λ n. drop n (nonce ++ sealed) ≡ sealed) sized (drop-append_left nonce sealed) in
      ground (arith, closed)

  -- What the one sends, the handler of the other does not see.
  deaf :
      {S : Type 0} (sender receiver : Cluster) (handler : Option (Text → S → S)) (state : S)
      → sender.encryptor ≡ some (new_encryptor a key)
      → receiver.encryptor ≡ some (new_encryptor a other)
      → Unheard a nonce msg sender receiver handler state
  unfolding outgoing
  deaf sender receiver handler state hs hr = (
    nonce ++ sealed,
    ground (arith, encrypted),
    bad_message_ignored a handler receiver (new_encryptor a other) (nonce ++ sealed) state hr
        not_opened,
  )

-- In a cluster whose nodes are given no key, a node that joins by a token and the first node encrypt
-- with different keys: what the one encrypts does not reach the handler of the other, in either
-- direction. The first node has no key file, and the cipher opens under neither of the two keys, that
-- of the token and that of 32 zero bytes, what was sealed under the other.
pub joiner_deaf :
    {S : Type 0} (a : Aead) (io io' : Io) (cfg cfg' : Config) (d d' : Disk) (token nonce msg : Text)
    (first joiner : Cluster) (handler : Option (Text → S → S)) (state : S)
    → IsAead a
    → Keyless cfg
    → read_key io d ≡ none
    → io.write ≡ written
    → JoinsBy token cfg'
    → first.encryptor ≡ encryptor_for a (encryption_key io cfg d).0
    → joiner.encryptor ≡ encryptor_for a (encryption_key io' cfg' d').0
    → length nonce ≡ a.nonce_size
    → Closed a token (zeros 32) nonce msg
    → Closed a (zeros 32) token nonce msg
    → Unheard a nonce msg first joiner handler state
      × Unheard a nonce msg joiner first handler state
joiner_deaf a io io' cfg cfg' d d' token nonce msg first joiner handler state v k e w j hs hr sized
      closed closed' =
    let key : first.encryptor ≡ some (new_encryptor a (zeros 32)) =
      hs ∙ ap (encryptor_for a) (default_key io io cfg d k e w).0 in
    let other : joiner.encryptor ≡ some (new_encryptor a token) =
      hr
      ∙ ap (λ r. encryptor_for a r.0) (joiner_key io' cfg' d' token j)
      ∙ some_encryptor a token j.3 in
    (
      deaf a v (zeros 32) token nonce msg sized closed first joiner handler state key other,
      deaf a v token (zeros 32) nonce msg sized closed' joiner first handler state other key,
    )
