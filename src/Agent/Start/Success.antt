-- ===== src/Agent/Start/Success.antt =====
-- When the agent starts.
use podman_swarm.Base.{
  ℕ, ◌≡◌, refl, ap, ◌∙◌, true, Option, none, some, [], ok, arith, is_empty, ◌≢◌, Result, err,
  if◌then◌else◌,
}
use podman_swarm.Base.Text.{Text, str, ◌==◌, eq_iff}
use podman_swarm.Config.{Config}
use podman_swarm.Security.{Crypto}
use podman_swarm.Security.ApiTokens as Api
use podman_swarm.Security.ApiTokens.{ApiTokenManager}
use podman_swarm.Security.JoinTokens as Join
use podman_swarm.Security.JoinTokens.{TokenManager}
use podman_swarm.Security.Encryption.{Aead}
use podman_swarm.Cluster.{Cluster, ClusterConfig, Error, new_cluster}
use podman_swarm.Dns.{new_server, get_dns_ip}
use podman_swarm.Api.State.{State}
use podman_swarm.Api.Start.{started, new_api}
use podman_swarm.Podman.{Client, new_client, set_dns}
use podman_swarm.Storage.{Storage, Codec, Disk, new_storage}
use podman_swarm.Storage.Durable.{IsReady}
use podman_swarm.Ingress.{new_ingress_controller}
use podman_swarm.Agent.{encryption_key, start_join_tokens, start_api_tokens}
use podman_swarm.Agent.Start.{Answers, Running, start, tls_config_of, cluster_config, controller_of}

-- A first node without TLS and with the ingress controller, where every call succeeds.
pub record Starts (ans : Answers) (cfg : Config) : Type 0 where
  pub first : cfg.join_addrs ≡ []
  pub plain : cfg.tls_cert_file ≡ []
  pub ingress : cfg.enable_ingress ≡ true
  pub join_bytes : Text
  pub join_random : ans.join_bytes ≡ some join_bytes
  pub api_bytes : Text
  pub api_random : ans.api_bytes ≡ some api_bytes
  pub create : ans.create_ok ≡ true
  pub podman : ans.podman_ok ≡ true
  pub storage : IsReady ans.storage_io cfg.data_dir

made {ℓ} : {A : Type ℓ} (o : Option A) → o ≢ none → (a : A) × (o ≡ some a)
made none h = absurd (h refl)
made (some a) h = (a, refl)

succeeded {ℓ κ} :
    {E : Type κ} {A : Type ℓ} (r : Result E A) → ((e : E) → r ≢ err e) → (a : A) × (r ≡ ok a)
succeeded (err e) h = absurd (h e refl)
succeeded (ok a) h = (a, refl)

start_join_tokens-ne-none :
    (c : Crypto) (cfg : Config) (now : ℕ) (o : Option Text) (b random : Text)
    → o ≡ some b
    → start_join_tokens c cfg now o random ≢ none
unfolding start_join_tokens Join.generate_token
start_join_tokens-ne-none c cfg now o b random e h = ground arith

start_api_tokens-ne-none :
    (c : Crypto) (cfg : Config) (key : Text) (now : ℕ) (o : Option Text) (b random : Text)
    → o ≡ some b
    → start_api_tokens c cfg key now o random ≢ none
unfolding start_api_tokens Api.generate_token
start_api_tokens-ne-none c cfg key now o b random e h = ground arith

cluster_made :
    (a : Aead) (c : Crypto) (ans : Answers) (cfg : ClusterConfig) (e : Error)
    → cfg.join_addrs ≡ []
    → ans.create_ok ≡ true
    → (new_cluster a c ans.now ans.create_ok ans.created ans.joining cfg).0 ≢ err e
unfolding new_cluster
cluster_made a c ans cfg e j k h = ground (arith, ap is_empty j)

-- The steps of the start, with what each comes to.
stepped :
    (a : Aead) (c : Crypto) (codec : Codec) (ans : Answers) (cfg : Config) (d : Disk)
    (tm : TokenManager) (cl : Cluster) (client : Client) (st : Storage) (tokens : ApiTokenManager)
    (state : State)
    → let (key, d') = encryption_key ans.key_io cfg d in
      let made_cluster =
        new_cluster a c ans.now ans.create_ok ans.created ans.joining (cluster_config cfg key tm) in
      let dns = new_server cfg.cluster_domain cfg.dns_port ans.local_address cfg.upstream_dns in
      start_join_tokens c cfg ans.now ans.join_bytes ans.join_secret ≡ some tm
      → tls_config_of cfg ≡ none
      → made_cluster.0 ≡ ok cl
      → new_client ans.podman_ok ≡ some client
      → new_storage codec ans.storage_io cfg.data_dir d' ≡ ok st
      → start_api_tokens c cfg key ans.now ans.api_bytes ans.api_secret ≡ some tokens
      → new_api st d' [] [] (controller_of cfg) ≡ started state
      → start a c codec ans cfg d
        ≡ ok (record {
          cluster = cl;
          join_tokens = made_cluster.1;
          tls = none;
          podman = set_dns (get_dns_ip dns) client;
          dns = dns;
          api_tokens = tokens;
          state = state;
        })
unfolding start
stepped a c codec ans cfg d tm cl client st tokens state join tls joined podman loads api ready =
    rw (join, tls, joined, podman, loads, api, ready) refl

pub started_with :
    (a : Aead) (c : Crypto) (codec : Codec) (ans : Answers) (cfg : Config) (d : Disk) (st : Storage)
    (state : State)
    → Starts ans cfg
    → let d' = (encryption_key ans.key_io cfg d).1 in
      new_storage codec ans.storage_io cfg.data_dir d' ≡ ok st
      → new_api st d' [] [] (some (new_ingress_controller cfg.node_name)) ≡ started state
      → (r : Running) × (start a c codec ans cfg d ≡ ok r) × (r.state ≡ state)
started_with a c codec ans cfg d st state h e f =
    let (key, d') = encryption_key ans.key_io cfg d in
    let (tm, join) = made (start_join_tokens c cfg ans.now ans.join_bytes ans.join_secret) (
      start_join_tokens-ne-none c cfg ans.now ans.join_bytes h.join_bytes ans.join_secret
        h.join_random) in
    let (tokens, api) = made (start_api_tokens c cfg key ans.now ans.api_bytes ans.api_secret) (
      start_api_tokens-ne-none c cfg key ans.now ans.api_bytes h.api_bytes ans.api_secret
        h.api_random) in
    let (cl, joined) =
      succeeded
        (new_cluster a c ans.now ans.create_ok ans.created ans.joining
          (cluster_config cfg key tm)).0
        (λ x. cluster_made a c ans (cluster_config cfg key tm) x h.first h.create) in
    let no_file : (cfg.tls_cert_file == str "") ≡ true = (eq_iff cfg.tls_cert_file []).1 h.plain in
    let routed : controller_of cfg ≡ some (new_ingress_controller cfg.node_name) =
      ap (λ b. if b then some (new_ingress_controller cfg.node_name) else none) h.ingress in
    (
      _,
      stepped a c codec ans cfg d tm cl (record { dns_ip = [] }) st tokens state join
          (rw no_file refl) joined (ap new_client h.podman ∙ unfold new_client in refl) e api
          (ap (new_api st d' [] []) routed ∙ f),
      refl,
    )
