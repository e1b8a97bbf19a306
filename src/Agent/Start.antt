-- ===== src/Agent/Start.antt =====
-- cmd/agent/main.go: how the agent makes one component after the other. What the calls of libraries
-- answer on the way is an argument. Listeners, tickers and signals are left out.
pub mod Success
pub mod Restart
mod Tests
use podman_swarm.Base.{
  ℕ, Bool, true, false, Option, none, some, List, [], ◌&&◌, not, Result, ok, err, if◌then◌else◌,
}
use podman_swarm.Base.Text.{Text, str, ◌==◌}
use podman_swarm.Config.{Config}
use podman_swarm.Security.{Crypto}
use podman_swarm.Security.Tls as Tls
use podman_swarm.Security.Tls.{TlsConfig, TlsIo, Loaded, load_tls_config}
use podman_swarm.Security.Encryption.{Aead}
use podman_swarm.Security.JoinTokens.{TokenManager}
use podman_swarm.Security.ApiTokens.{ApiTokenManager}
use podman_swarm.Cluster as Cluster
use podman_swarm.Cluster.{Cluster, ClusterConfig, Event, new_cluster}
use podman_swarm.Podman.{Client, new_client, set_dns}
use podman_swarm.Storage as Storage
use podman_swarm.Storage.{Storage, Codec, Io, Disk, new_storage}
use podman_swarm.Dns as Dns
use podman_swarm.Dns.{new_server, get_dns_ip}
use podman_swarm.Ingress.{Controller, new_ingress_controller}
use podman_swarm.Api.State.{State}
use podman_swarm.Api.Start.{Started, started, crashed, stuck, new_api}
use podman_swarm.Agent.{encryption_key, start_join_tokens, start_api_tokens}

-- The clock and random bytes, the files of the key and of TLS, what memberlist does, the address that
-- it has, whether podman answers, and the data directory.
pub record Answers : Type 0 where
  pub now : ℕ
  pub join_bytes : Option Text
  pub join_secret : Text
  pub tls : TlsIo
  pub key_io : Io
  pub create_ok : Bool
  pub created : List Event
  pub joining : List Event
  pub local_address : Text
  pub podman_ok : Bool
  pub storage_io : Io
  pub api_bytes : Option Text
  pub api_secret : Text

-- The calls of logger.Fatalf, a panic, and a call that waits for ever.
pub data Fatal : Type 0 where
  no_join_token no_podman no_api_token : Fatal
  tls_failed : Tls.Error → Fatal
  cluster_failed : Cluster.Error → Fatal
  storage_failed : Storage.Error → Fatal
  panics hangs : Fatal

pub record Running : Type 0 where
  pub cluster : Cluster
  pub join_tokens : Option TokenManager
  pub tls : Option Loaded
  pub podman : Client
  pub dns : Dns.Server
  pub api_tokens : ApiTokenManager
  pub state : State

infixl 5 ◌>>=◌
abbrev ◌>>=◌ {ℓ κ} :
    {A : Type ℓ} {B : Type κ} → Result Fatal A → (A → Result Fatal B) → Result Fatal B
ok a >>= f = f a
err e >>= f = err e

abbrev or_fatal : {A : Type 0} → Fatal → Option A → Result Fatal A
or_fatal e none = err e
or_fatal e (some a) = ok a

abbrev as_fatal : {E A : Type 0} → (E → Fatal) → Result E A → Result Fatal A
as_fatal f (err e) = err (f e)
as_fatal f (ok a) = ok a

-- TLS is configured by a certificate and a key.
abbrev pub tls_config_of : Config → Option TlsConfig
tls_config_of cfg =
    if not (cfg.tls_cert_file == str "") && not (cfg.tls_key_file == str "")
    then some (record {
      cert_file = cfg.tls_cert_file;
      key_file = cfg.tls_key_file;
      ca_file = cfg.tls_ca_file;
      skip_verify = cfg.tls_skip_verify;
    })
    else none

abbrev loaded_tls : TlsIo → Option TlsConfig → Result Fatal (Option Loaded)
loaded_tls io none = ok none
loaded_tls io (some t) = elim (load_tls_config io (some t)) [
  | err e ↦ err (tls_failed e)
  | ok l ↦ ok (some l)
]

-- The TLS configuration is passed too, and is not used.
abbrev pub cluster_config : Config → Text → TokenManager → ClusterConfig
cluster_config cfg key tm = record {
  node_name = cfg.node_name;
  bind_addr = cfg.bind_addr;
  join_addrs = cfg.join_addrs;
  join_token = cfg.join_token;
  encryption_key = key;
  token_manager = some tm;
}

abbrev pub controller_of : Config → Option Controller
controller_of cfg = if cfg.enable_ingress then some (new_ingress_controller cfg.node_name) else none

abbrev ready : Started State → Result Fatal State
ready (started s) = ok s
ready crashed = err panics
ready stuck = err hangs

-- main, up to the state recovery and the API server.
unfoldable pub start : Aead → Crypto → Codec → Answers → Config → Disk → Result Fatal Running
start a c codec ans cfg d = do
  tm ← or_fatal no_join_token (start_join_tokens c cfg ans.now ans.join_bytes ans.join_secret)
  tls ← loaded_tls ans.tls (tls_config_of cfg)
  let prepared = encryption_key ans.key_io cfg d
  let made =
      new_cluster a c ans.now ans.create_ok ans.created ans.joining
        (cluster_config cfg prepared.0 tm)
  cluster ← as_fatal cluster_failed made.0
  podman ← or_fatal no_podman (new_client ans.podman_ok)
  storage ← as_fatal storage_failed (new_storage codec ans.storage_io cfg.data_dir prepared.1)
  let dns = new_server cfg.cluster_domain cfg.dns_port ans.local_address cfg.upstream_dns
  api_tokens ←
      or_fatal no_api_token (start_api_tokens c cfg prepared.0 ans.now ans.api_bytes ans.api_secret)
  state ← ready (new_api storage prepared.1 [] [] (controller_of cfg))
  ok (record {
    cluster = cluster;
    join_tokens = made.1;
    tls = tls;
    podman = set_dns (get_dns_ip dns) podman;
    dns = dns;
    api_tokens = api_tokens;
    state = state;
  })
