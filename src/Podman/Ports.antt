-- ===== src/Podman/Ports.antt =====
-- The ports and the environment that a container gets.
use podman_swarm.Base.{
  ℕ, ◌≡◌, ◌<◌, Option, List, [], ◌∷◌, map, All, In, ap, ◌∙◌, subst, In-map, arith, ◌==ℕ◌,
  if◌then◌else◌,
}
use podman_swarm.Base.Text.{Text, str, ◌==◌}
use podman_swarm.Base.Int.{ℤ, pos, negsuc, low_16, is_zero}
use podman_swarm.Kube.{ContainerPort}
use podman_swarm.Types.{Pod}
use podman_swarm.Podman.{Client, PortMapping, port_mapping, spec_of}

low_16-lt : (v : ℤ) → low_16 v < 65536
low_16-lt (pos n) = omega arith
low_16-lt (negsuc n) = omega arith

-- The value is a port number.
abbrev pub IsPort : ℤ → ℕ → Type 0
IsPort v n = (v ≡ pos n) × (n < 65536)

low_16-IsPort : (v : ℤ) (n : ℕ) → IsPort v n → low_16 v ≡ n
low_16-IsPort v n (e, h) = ap low_16 e ∙ omega arith

abbrev pub InRange : PortMapping → Type 0
InRange p = (p.container_port < 65536) × (p.host_port < 65536)

port_mapping-InRange : (port : ContainerPort) → InRange (port_mapping port)
unfolding port_mapping
port_mapping-InRange port = (
  low_16-lt port.container_port,
  low_16-lt (if is_zero port.host_port then port.container_port else port.host_port),
)

-- The mapping that a pod asks for: the host's port is the container's when it is not given, and so
-- is TCP.
abbrev pub wanted : ContainerPort → ℕ → ℕ → PortMapping
wanted port n m = record {
  container_port = n;
  host_port = if m ==ℕ 0 then n else m;
  protocol = if port.protocol == str "" then str "tcp" else port.protocol;
  host_ip = port.host_ip;
}

port_mapping-wanted :
    (port : ContainerPort) (n m : ℕ)
    → IsPort port.container_port n
    → IsPort port.host_port m
    → port_mapping port ≡ wanted port n m
unfolding port_mapping
port_mapping-wanted port n m a b =
    ground (arith, low_16-IsPort port.container_port n a, low_16-IsPort port.host_port m b)

All-mapped : (ports : List ContainerPort) → All InRange (map port_mapping ports)
All-mapped [] = tt
All-mapped (port ∷ ports) = (port_mapping-InRange port, All-mapped ports)

-- Every mapping of a new container has ports below 65536, and for every port of the pod in that
-- range there is the mapping that it asks for: to the host's port, or to its own when that is 0,
-- by its protocol, or TCP.
pub spec-ports :
    (bridge : Option Text) (parse_ip : Text → Option Text) (c : Client) (pod : Pod)
    (port : ContainerPort) (n m : ℕ)
    → In port pod.ports
    → IsPort port.container_port n
    → IsPort port.host_port m
    → All InRange (spec_of bridge parse_ip c pod).port_mappings
      × In (wanted port n m) (spec_of bridge parse_ip c pod).port_mappings
unfolding spec_of
spec-ports bridge parse_ip c pod port n m at a b = (
  All-mapped pod.ports,
  subst (λ p. In p (map port_mapping pod.ports)) (port_mapping-wanted port n m a b)
      (In-map port_mapping pod.ports port at),
)
