-- ===== src/Security.antt =====
-- internal/security: the token managers and the message encryption. Random bytes and the clock are
-- arguments of the calls that read them. The codings and hashes of Go's crypto packages are
-- parameters; what a theorem needs of them it states.
pub mod ApiTokens
pub mod JoinTokens
pub mod Encryption
pub mod Tls
mod Tests
use podman_swarm.Base.{Option, List}
use podman_swarm.Base.Text.{Text}

-- base64.URLEncoding, and sha256.Sum256 followed by hex.EncodeToString.
pub record Crypto : Type 0 where
  pub encode_64 : Text → Text
  pub decode_64 : Text → Option Text
  pub digest : Text → Text
