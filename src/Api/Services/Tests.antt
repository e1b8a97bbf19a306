-- ===== src/Api/Services/Tests.antt =====
-- A service that is applied over a running pod, at concrete inputs.
use podman_swarm.Base.{ℕ, ◌++◌, ◌≡◌, refl, true, false, some, none, [], ◌∷◌, In, ok, arith}
use podman_swarm.Base.Text.{Text, str, to_lower, ◌==◌}
use podman_swarm.Base.Text.Split.{Free}
use podman_swarm.Base.Int.{pos}
use podman_swarm.Base.Map.{Map, lookup}
use podman_swarm.Kube.{ServiceObject}
use podman_swarm.Types.{panics, Node, Pod, running}
use podman_swarm.Storage.{Codec, Io, written, empty}
use podman_swarm.Scheduler.{get_all_pods}
use podman_swarm.Discovery.{Update, endpoint_for}
use podman_swarm.Dns.{Server, new_server}
use podman_swarm.Dns.Messages.{Msg, Dns, type_a}
use podman_swarm.Dns.Names.Forms.{fqdn, short_name}
use podman_swarm.Dns.Cluster.{a_record, handle_dns}
use podman_swarm.Api.State.{State}
use podman_swarm.Api.Services.{matches_selector, apply_service}
use podman_swarm.Api.Services.Endpoints.{parsed}
use podman_swarm.Api.Services.Resolution.{Sole, applied_resolves}

abbrev nodes : Map Node
nodes =
    (
      str "n1",
      record { name = str "n1"; address = str "10.0.0.1"; status = str "Ready"; labels = [] },
    )
    ∷ []

abbrev web : ServiceObject
web = record {
  name = str "web";
  namespace = str "ns";
  labels = [];
  type = [];
  selector = (str "app", str "web") ∷ [];
  ports = pos 80 ∷ [];
  cluster_ip = [];
}

abbrev pod : Pod
pod = record {
  id = str "c1";
  name = str "web-0";
  namespace = str "ns";
  node_name = str "n1";
  state = running;
  image = str "nginx";
  labels = (str "app", str "web") ∷ [];
  annotations = [];
  ports = [];
  env = [];
  volumes = [];
  node_selector = [];
  created_at = pos 1;
}

abbrev codec : Codec
codec = record { marshal = λ st. some (str "{}"); unmarshal = λ b. none }

abbrev io : Io
io = record { now = 5; write = written; rename_ok = true; read_ok = true; mkdir_ok = true }

abbrev start : State
start = record {
  agent = record { deployments = []; storage = empty; disk = []; pods = (str "c1", pod) ∷ [] };
  services = [];
  ingresses = [];
  registry = [];
  controller = none;
}

abbrev domain : Text
domain = str "cluster.local"

abbrev server : Server
server = record (new_server domain (pos 53) (str "10.0.0.1") []) { cluster_domain = domain }

abbrev dns : Dns Text
dns = record {
  cname_target = λ rr. none;
  reply_to = λ m. record m { answer = []; extra = []; rcode = 0 };
  new_rr = λ t. some t;
  nil_rr = [];
  exchange = λ i net upstream m. ok none;
}

abbrev name : Text
name = fqdn domain (short_name (str "web") (str "ns"))

abbrev query : Msg Text
query = record {
  questions = record { name = name; qtype = type_a } ∷ [];
  rcode = 0;
  authoritative = false;
  answer = [];
  extra = [];
}

alone : get_all_pods start.agent.pods ≡ [] ++ (pod ∷ [])
unfolding get_all_pods
alone = refl

-- The broadcast of the pod itself panics.
abbrev broken : ℕ → Update
broken i e action = panics

pod-Sole : Sole pod []
pod-Sole p m same = absurd m

selected : matches_selector pod.labels web.selector ≡ true
unfolding lookup ◌==◌
selected = refl

web-Free : Free b'.' (str "web")
web-Free = (omega arith, (omega arith, (omega arith, tt)))

ns-Free : Free b'.' (str "ns")
ns-Free = (omega arith, (omega arith, tt))

low : to_lower domain ≡ domain
unfolding to_lower
low = refl

applied_resolves_example :
    In
      (a_record name (endpoint_for nodes 12 (parsed web) pod).address)
      (handle_dns dns server 12
        (apply_service codec io broken nodes (λ i. 9) web start).0.registry
        query).answer
applied_resolves_example =
    applied_resolves dns server codec io broken nodes (λ i. 9) 12 web start [] [] pod query
      (a_record name (endpoint_for nodes 12 (parsed web) pod).address) alone pod-Sole tt selected
      (λ i. omega arith) web-Free ns-Free low refl refl
