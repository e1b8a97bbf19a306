-- ===== src/Dns.antt =====
-- internal/dns/dns.go: the DNS server of a node.
pub mod Names
pub mod Hosts
pub mod Messages
pub mod Forward
pub mod Cluster
mod Tests
use podman_swarm.Base.{Bool, false, List, [], ◌∷◌, ◌++◌, if◌then◌else◌}
use podman_swarm.Base.Text.{Text, str, ◌==◌}
use podman_swarm.Base.Text.Decimal.{format_int}
use podman_swarm.Base.Int.{ℤ, pos, is_zero}
use podman_swarm.Base.Map.{Map}

-- DNSWhitelist
pub record Whitelist : Type 0 where
  pub enabled : Bool
  pub hosts : Map Bool

-- The fields of Server that its queries read. The discovery is an argument of those that use it.
pub record Server : Type 0 where
  pub cluster_domain : Text
  pub port : ℤ
  pub local_node_ip : Text
  pub upstream_dns : List Text
  pub whitelist : Whitelist

or_default_port : ℤ → ℤ
or_default_port port = if is_zero port then pos 53 else port

or_default_upstream : List Text → List Text
or_default_upstream [] = str "8.8.8.8:53" ∷ str "8.8.4.4:53" ∷ []
or_default_upstream (u ∷ us) = u ∷ us

unfoldable pub new_server : Text → ℤ → Text → List Text → Server
unfolding or_default_port or_default_upstream
new_server cluster_domain port local_node_ip upstream_dns = record {
  cluster_domain = if cluster_domain == str "" then str "cluster.local" else cluster_domain;
  port = or_default_port port;
  local_node_ip = local_node_ip;
  upstream_dns = or_default_upstream upstream_dns;
  whitelist = record { enabled = false; hosts = [] };
}

unfoldable pub get_dns_ip : Server → Text
get_dns_ip s = if s.local_node_ip == str "" then str "127.0.0.1" else s.local_node_ip

unfoldable pub get_dns_address : Server → Text
get_dns_address s =
    if s.local_node_ip == str ""
    then str "127.0.0.1:" ++ format_int s.port
    else s.local_node_ip ++ (b':' ∷ format_int s.port)
