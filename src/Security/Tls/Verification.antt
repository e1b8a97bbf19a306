-- ===== src/Security/Tls/Verification.antt =====
-- What a loaded configuration demands of the other side.
use podman_swarm.Base.{
  ◌≡◌, ◌≢◌, ◌⊎◌, inl, inr, refl, Bool, true, false, Option, none, some, [], ok, arith,
}
use podman_swarm.Base.Text.{Text, str, ◌==◌, eq_iff}
use podman_swarm.Security.Tls.{
  TlsConfig, TlsIo, of_pem, system_pool, version_tls_12, Loaded, load_tls_config,
}

-- Without a file of certificate authorities, the peers of a client are checked by the system's pool and no certificate
-- is asked of clients; with one, that file's certificates check both.
abbrev pub Checks : TlsIo → TlsConfig → Loaded → Type 0
Checks io cfg l =
    ((cfg.ca_file ≡ [])
      × (l.root_cas ≡ system_pool io)
      × (l.client_cas ≡ none)
      × (l.require_client_cert ≡ false))
    ⊎ ((pem : Text) × (io.read_file cfg.ca_file ≡ some pem)
        × (io.is_pem pem ≡ true)
        × (l.root_cas ≡ of_pem pem)
        × (l.client_cas ≡ some (of_pem pem))
        × (l.require_client_cert ≡ true))

-- A configuration that loads has both files, its certificate, TLS 1.2 at least, and skips the check of
-- certificates only when it is told to. Servers demand a certificate of their clients exactly when
-- there is a file of authorities, which then also check servers; else the system's do.
load_tls_config-Checks :
    (io : TlsIo) (cfg : TlsConfig) (l : Loaded)
    → load_tls_config io (some cfg) ≡ ok l
    → (cfg.cert_file ≢ [])
      × (cfg.key_file ≢ [])
      × (io.load_pair cfg.cert_file cfg.key_file ≡ some l.certificate)
      × (l.min_version ≡ version_tls_12)
      × (l.insecure_skip_verify ≡ cfg.skip_verify)
      × Checks io cfg l
unfolding load_tls_config
load_tls_config-Checks io cfg l h = (
  ground (arith, eq_iff cfg.cert_file []),
  ground (arith, eq_iff cfg.key_file []),
  ground arith,
  ground arith,
  ground arith,
  by_ca (cfg.ca_file == str "") refl (io.read_file cfg.ca_file) refl,
)
  where
    by_ca :
        (b : Bool)
        → (cfg.ca_file == str "") ≡ b
        → (o : Option Text) → io.read_file cfg.ca_file ≡ o
        → Checks io cfg l
    by_ca true e o r = inl ((eq_iff cfg.ca_file []).0 e, ground arith, ground arith, ground arith)
    by_ca false e none r = absurd (ground arith)
    by_ca false e (some pem) r =
        inr (pem, r, ground arith, ground arith, ground arith, ground arith)
