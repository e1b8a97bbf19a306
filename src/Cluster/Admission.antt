-- ===== src/Cluster/Admission.antt =====
-- Who may join: NewCluster and the join token.
use podman_swarm.Base.{
  is_empty, ℕ, ◌≡◌, ◌≢◌, ◌⊎◌, inl, inr, refl, true, false, Bool, none, some, Option-cases, Result,
  List, [], ◌∷◌, ok, err, Bool-cases, arith,
}
use podman_swarm.Base.Text.{Text, str, eq_iff}
use podman_swarm.Base.Map.{lookup, lookup-insert_self}
use podman_swarm.Security.{Crypto}
use podman_swarm.Security.JoinTokens as Join
use podman_swarm.Security.JoinTokens.{TokenManager}
use podman_swarm.Security.JoinTokens.Laws.{new_manager_accepts}
use podman_swarm.Security.Encryption.{Aead}
use podman_swarm.Cluster.{
  Cluster, ClusterConfig, Event, Error, create_failed, invalid_join_token, new_cluster, admit,
  handle_all, with_local, ready_node, encryptor_for,
}

some_addrs : (addrs : List Text) → addrs ≢ [] → is_empty addrs ≡ false
some_addrs [] n = absurd (n refl)
some_addrs (x ∷ addrs) n = refl

admit_by_token :
    (c : Crypto) (now : ℕ) (cfg : ClusterConfig) (tm : TokenManager)
    → cfg.join_token ≢ str ""
    → cfg.token_manager ≡ some tm
    → (admit c now cfg).0 ≡ (Join.validate_token c now cfg.join_token tm).0
unfolding admit
admit_by_token c now cfg tm token manager =
    rw manager (ground (arith, eq_iff cfg.join_token (str "")))

-- With a list that the library has created, a node that joins others with a token and a manager starts
-- exactly when the manager accepts the token, and else fails with the error for an invalid token.
new_cluster_lem :
    (a : Aead) (c : Crypto) (now : ℕ) (created joining : List Event) (cfg : ClusterConfig)
    (tm : TokenManager)
    → cfg.join_addrs ≢ []
    → cfg.join_token ≢ str ""
    → cfg.token_manager ≡ some tm
    → let result = (new_cluster a c now true created joining cfg).0 in
      (((Join.validate_token c now cfg.join_token tm).0 ≡ false)
        × (result ≡ err invalid_join_token))
      ⊎ (((Join.validate_token c now cfg.join_token tm).0 ≡ true)
          × ((cl : Cluster) × (result ≡ ok cl)
              × (lookup cfg.node_name cl.nodes ≡ some (ready_node cfg.node_name cfg.bind_addr))
              × (cl.encryptor ≡ encryptor_for a cfg.encryption_key)))
unfolding new_cluster with_local
new_cluster_lem a c now created joining cfg tm addrs token manager =
    let some_addr = some_addrs cfg.join_addrs addrs in
    let same = admit_by_token c now cfg tm token manager in
    let nodes = handle_all joining (handle_all created []) in
    elim (Bool-cases (Join.validate_token c now cfg.join_token tm).0) [
      | inr refused ↦ inl (refused, ground arith)
      | inl valid ↦ inr (
        valid,
        (
          record { nodes = with_local cfg nodes; encryptor = encryptor_for a cfg.encryption_key },
          ground arith,
          lookup-insert_self cfg.node_name (ready_node cfg.node_name cfg.bind_addr) nodes,
          refl,
        ),
      )
    ]

-- What comes of a node that joins with a token, when its manager has made no token.
abbrev pub Admits : Aead → Crypto → ClusterConfig → Bool → Result Error Cluster → Type 0
Admits a c cfg create_ok result =
    ((create_ok ≡ false) × (result ≡ err create_failed))
    ⊎ (((create_ok ≡ true)
          × (c.decode_64 cfg.join_token ≡ none)
          × (result ≡ err invalid_join_token))
        ⊎ ((create_ok ≡ true)
            × ((bytes : Text) × (c.decode_64 cfg.join_token ≡ some bytes))
            × ((cl : Cluster) × (result ≡ ok cl)
                × (lookup cfg.node_name cl.nodes ≡ some (ready_node cfg.node_name cfg.bind_addr))
                × (cl.encryptor ≡ encryptor_for a cfg.encryption_key))))

-- A node that joins others with a token, and whose manager was just made and so has made no token
-- itself, starts exactly when the library creates its list and the token decodes as base64, whoever
-- made it: then it knows itself, ready and at its own address, and encrypts with the given key. If the
-- list is not created it fails with the error for that, and else with that for an invalid token.
pub any_base64_joins :
    (a : Aead) (c : Crypto) (now : ℕ) (create_ok : Bool) (created joining : List Event)
    (cfg : ClusterConfig) (secret random : Text)
    → cfg.join_addrs ≢ []
    → cfg.join_token ≢ str ""
    → cfg.token_manager ≡ some (Join.new_manager secret random)
    → Admits a c cfg create_ok (new_cluster a c now create_ok created joining cfg).0
unfolding new_cluster
any_base64_joins a c now false created joining cfg secret random addrs token manager =
    inl (refl, refl)
any_base64_joins a c now true created joining cfg secret random addrs token manager =
    let tm = Join.new_manager secret random in
    let accepts = new_manager_accepts c now secret random cfg.join_token in
    elim (new_cluster_lem a c now created joining cfg tm addrs token manager) [
      | inl (refused, e) ↦ elim (Option-cases (c.decode_64 cfg.join_token)) [
        | inl undecoded ↦ inr (inl (refl, undecoded, e))
        | inr (bytes, decoded) ↦
            let accepted : (Join.validate_token c now cfg.join_token tm).0 ≡ true =
              accepts.1 (bytes, decoded) in
            absurd (cc)
      ]
      | inr (valid, started) ↦ inr (inr (refl, accepts.0 valid, started))
    ]
