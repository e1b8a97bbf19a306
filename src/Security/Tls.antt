-- ===== src/Security/Tls.antt =====
-- internal/security/tls.go: the TLS configuration that is loaded from files. Reading a file, loading a
-- pair of key and certificate, parsing PEM and the system's pool are arguments.
pub mod Verification
use podman_swarm.Base.{
  ℕ, Bool, true, false, Option, none, some, Result, ok, err, ◌||◌, if◌then◌else◌,
}
use podman_swarm.Base.Text.{Text, str, ◌==◌}

pub record TlsConfig : Type 0 where
  pub cert_file : Text
  pub key_file : Text
  pub ca_file : Text
  pub skip_verify : Bool

-- What the calls of crypto/tls, crypto/x509 and ioutil answer.
pub record TlsIo : Type 0 where
  pub load_pair : Text → Text → Option Text
  pub read_file : Text → Option Text
  pub is_pem : Text → Bool
  pub has_system_pool : Bool

-- x509.CertPool: the certificates of a text, the system's, or none.
pub data CertPool : Type 0 where
  of_pem : Text → CertPool
  system no_certificates : CertPool

-- tls.VersionTLS12
abbrev pub version_tls_12 : ℕ
version_tls_12 = 0x0303

-- tls.Config: the fields that are set; `require_client_cert` is RequireAndVerifyClientCert.
pub record Loaded : Type 0 where
  pub certificate : Text
  pub min_version : ℕ
  pub root_cas : CertPool
  pub client_cas : Option CertPool
  pub require_client_cert : Bool
  pub insecure_skip_verify : Bool

pub data Error : Type 0 where
  files_required pair_not_loaded ca_not_read ca_not_parsed : Error

abbrev pub system_pool : TlsIo → CertPool
system_pool io = if io.has_system_pool then system else no_certificates

-- The part for the certificates of the other side.
abbrev verified : TlsIo → TlsConfig → Text → Result Error Loaded
verified io cfg cert =
    if cfg.ca_file == str ""
    then ok (record {
      certificate = cert;
      min_version = version_tls_12;
      root_cas = system_pool io;
      client_cas = none;
      require_client_cert = false;
      insecure_skip_verify = cfg.skip_verify;
    })
    else elim (io.read_file cfg.ca_file) [
      | none ↦ err ca_not_read
      | some pem ↦
          if io.is_pem pem
          then ok (record {
            certificate = cert;
            min_version = version_tls_12;
            root_cas = of_pem pem;
            client_cas = some (of_pem pem);
            require_client_cert = true;
            insecure_skip_verify = cfg.skip_verify;
          })
          else err ca_not_parsed
    ]

-- LoadTLSConfig
unfoldable pub load_tls_config : TlsIo → Option TlsConfig → Result Error Loaded
load_tls_config io none = err files_required
load_tls_config io (some cfg) =
    if cfg.cert_file == str "" || cfg.key_file == str ""
    then err files_required
    else elim (io.load_pair cfg.cert_file cfg.key_file) [
      | none ↦ err pair_not_loaded
      | some cert ↦ verified io cfg cert
    ]

-- WrapConn: a connection as it is, or as a TLS server or client.
pub data Wrapped : Type 0 where
  plain : Wrapped
  server client : Loaded → Wrapped

unfoldable pub wrap_conn : Option Loaded → Bool → Wrapped
wrap_conn none is_server = plain
wrap_conn (some cfg) is_server = if is_server then server cfg else client cfg

-- GenerateSelfSignedCert is not implemented: it returns an error.
unfoldable pub generate_self_signed_cert : Text → Option Text
generate_self_signed_cert host = none
