-- ===== src/Security/Encryption.antt =====
-- internal/security/encryption.go: AES-GCM over whole messages. The cipher is a parameter.
use podman_swarm.Base.{
  ℕ, ◌≡◌, subst, Bool, Option, none, some, ◌++◌, Result, ok, err, arith, if◌then◌else◌, ltb, length,
  take, drop, take-append_left, drop-append_left, length-append, ◌==ℕ◌, ◌||◌,
}
use podman_swarm.Base.Text.{Text}

-- crypto/sha256 and crypto/cipher's GCM: `seal key nonce plaintext`, and `open`, which fails on a
-- text that was not sealed so.
pub record Aead : Type 0 where
  pub sha_256 : Text → Text
  pub nonce_size : ℕ
  pub seal : Text → Text → Text → Text
  pub open_sealed : Text → Text → Text → Option Text

pub record Encryptor : Type 0 where
  pub key : Text

pub data Error : Type 0 where
  bad_key no_randomness too_short not_authentic : Error

unfoldable pub new_encryptor : Aead → Text → Encryptor
new_encryptor a key =
    if length key ==ℕ 32 then record { key = key } else record { key = a.sha_256 key }

-- aes.NewCipher takes keys of 16, 24 or 32 bytes.
is_aes_key : Text → Bool
is_aes_key key = (length key ==ℕ 16) || ((length key ==ℕ 24) || (length key ==ℕ 32))

abbrev sealed : Aead → Text → Option Text → Text → Result Error Text
sealed a key none plaintext = err no_randomness
sealed a key (some nonce) plaintext = ok (nonce ++ a.seal key nonce plaintext)

-- Encrypt; the random nonce is an argument, absent when reading it failed.
unfoldable pub encrypt : Aead → Encryptor → Option Text → Text → Result Error Text
unfolding is_aes_key
encrypt a e nonce plaintext =
    if is_aes_key e.key then sealed a e.key nonce plaintext else err bad_key

abbrev opened : Option Text → Result Error Text
opened none = err not_authentic
opened (some plaintext) = ok plaintext

unfoldable pub decrypt : Aead → Encryptor → Text → Result Error Text
unfolding is_aes_key
decrypt a e ciphertext =
    if is_aes_key e.key
    then (if ltb (length ciphertext) a.nonce_size
        then err too_short
        else opened
            (a.open_sealed e.key (take a.nonce_size ciphertext) (drop a.nonce_size ciphertext)))
    else err bad_key

-- What GCM and SHA-256 promise: opening undoes sealing under the same key and nonce, and a hash has
-- 32 bytes.
pub record IsAead (a : Aead) : Type 0 where
  pub open-seal : (key nonce p : Text) → a.open_sealed key nonce (a.seal key nonce p) ≡ some p
  pub hash_size : (p : Text) → length (a.sha_256 p) ≡ 32

pub new_encryptor-key : (a : Aead) → IsAead a → (key : Text) → length (new_encryptor a key).key ≡ 32
unfolding new_encryptor
new_encryptor-key a v key = ground (arith, v.hash_size key)

-- With encryptors made from one key, of any length, a message that was encrypted with a nonce of
-- the right size decrypts to itself, and encryption never fails for its key.
pub decrypt-encrypt :
    (a : Aead) (key nonce plaintext : Text)
    → IsAead a
    → length nonce ≡ a.nonce_size
    → (b : Text) × (encrypt a (new_encryptor a key) (some nonce) plaintext ≡ ok b)
      × (decrypt a (new_encryptor a key) b ≡ ok plaintext)
unfolding encrypt decrypt
decrypt-encrypt a key nonce plaintext v n = (
  nonce ++ text,
  ground (arith, new_encryptor-key a v key),
  ground (
    arith,
    new_encryptor-key a v key,
    subst (λ m. take m (nonce ++ text) ≡ nonce) n (take-append_left nonce text),
    subst (λ m. drop m (nonce ++ text) ≡ text) n (drop-append_left nonce text),
    length-append nonce text,
    v.open-seal (new_encryptor a key).key nonce plaintext,
  ),
)
  where
    text : Text
    text = a.seal (new_encryptor a key).key nonce plaintext
