-- ===== src/Podman.antt =====
-- internal/podman/podman.go: the containers of the local node. The bindings of podman, the parsing of
-- network flags and of addresses are parameters: what they answer is an argument of what asks.
pub mod Ports
pub mod Logs
mod Tests
use podman_swarm.Base.{
  ℕ, Bool, true, false, Option, none, some, List, [], ◌∷◌, Result, ok, err, map, if◌then◌else◌,
}
use podman_swarm.Base.Text.{Text, str, ◌==◌}
use podman_swarm.Base.Int.{ℤ, pos, negsuc, low_16, is_zero}
use podman_swarm.Base.Map.{Map, insert}
use podman_swarm.Kube.{ContainerPort, EnvVar, VolumeMount}
use podman_swarm.Types.{Pod, PodState, pending, running, succeeded, failed, unknown}

pub record Client : Type 0 where
  pub dns_ip : Text

-- nettypes.PortMapping
pub record PortMapping : Type 0 where
  pub container_port : ℕ
  pub host_port : ℕ
  pub protocol : Text
  pub host_ip : Text

-- specs.Mount
pub record Mount : Type 0 where
  pub type : Text
  pub source : Text
  pub destination : Text
  pub options : List Text

-- specgen.SpecGenerator: the fields that are set. A DNS server that does not parse is a nil address.
pub record Spec : Type 0 where
  pub image : Text
  pub name : Text
  pub env : Map Text
  pub labels : Map Text
  pub net_ns : Text
  pub port_mappings : List PortMapping
  pub mounts : List Mount
  pub dns_servers : List (Option Text)

-- NewClient: the connection, or an error. The address is set later.
unfoldable pub new_client : Bool → Option Client
new_client connected = if connected then some (record { dns_ip = [] }) else none

unfoldable pub set_dns : Text → Client → Client
set_dns dns_ip c = record c { dns_ip = dns_ip }

-- The loop over the environment: a later variable of one name wins.
unfoldable pub env_of : List EnvVar → Map Text → Map Text
env_of [] env = env
env_of (e ∷ vars) env = env_of vars (insert e.name e.value env)

unfoldable pub port_mapping : ContainerPort → PortMapping
port_mapping port = record {
  container_port = low_16 port.container_port;
  host_port = low_16 (if is_zero port.host_port then port.container_port else port.host_port);
  protocol = if port.protocol == str "" then str "tcp" else port.protocol;
  host_ip = port.host_ip;
}

-- A mount is bound to the volume's name, or to its own path when it has none.
unfoldable pub mount_of : VolumeMount → Mount
mount_of vol = record {
  type = str "bind";
  source = if vol.name == str "" then vol.mount_path else vol.name;
  destination = vol.mount_path;
  options = if vol.read_only then str "ro" ∷ [] else [];
}

-- The network namespace that the flag "bridge" parses to, or the fallback.
abbrev net_ns_or : Option Text → Text
net_ns_or (some ns) = ns
net_ns_or none = str "bridge"

abbrev dns_servers_of : (Text → Option Text) → Text → List (Option Text)
dns_servers_of parse_ip [] = []
dns_servers_of parse_ip (b ∷ ip) = parse_ip (b ∷ ip) ∷ []

-- The specification that CreatePod makes.
unfoldable pub spec_of : Option Text → (Text → Option Text) → Client → Pod → Spec
unfolding env_of port_mapping mount_of
spec_of bridge parse_ip c pod = record {
  image = pod.image;
  name = pod.name;
  env = env_of pod.env [];
  labels = pod.labels;
  net_ns = net_ns_or bridge;
  port_mappings = map port_mapping pod.ports;
  mounts = map mount_of pod.volumes;
  dns_servers = dns_servers_of parse_ip c.dns_ip;
}

-- CreatePod: the id that CreateWithSpec answers, if it does not fail.
unfoldable pub create_pod :
    Option Text → (Text → Option Text) → (Spec → Option Text) → Client → Pod → Option Text
unfolding spec_of
create_pod bridge parse_ip create_with_spec c pod = create_with_spec (spec_of bridge parse_ip c pod)

-- data.State of an inspected container.
pub record ContainerState : Type 0 where
  pub status : Text
  pub exit_code : ℤ

-- The state that GetPodStatus returns, and whether it returns an error beside it. Inspecting fails
-- (`none`), or answers data whose state may be missing.
abbrev state_of : ContainerState → PodState
state_of s =
    if s.status == str "running"
    then running
    else if s.status == str "exited"
    then (if is_zero s.exit_code then succeeded else failed)
    else if s.status == str "created"
    then pending
    else if s.status == str "configured"
    then pending
    else unknown

unfoldable pub get_pod_status : Option (Option ContainerState) → PodState × Bool
get_pod_status none = (unknown, true)
get_pod_status (some none) = (unknown, false)
get_pod_status (some (some s)) = (state_of s, false)

-- Exec is not implemented: it returns an error.
unfoldable pub exec : Text → List Text → Option Text
exec container_id command = none
