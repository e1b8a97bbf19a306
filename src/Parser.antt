-- ===== src/Parser.antt =====
-- internal/parser/parser.go: manifests, and what the agent takes from their objects. Decoding one
-- document is a parameter. White space is that of ASCII.
pub mod Documents
mod Tests
use podman_swarm.Base.{
  ℕ, zero, suc, ◌-◌, Bool, true, false, Option, none, some, List, [], ◌∷◌, ◌++◌, ◌||◌, map, length,
  Result, ok, err, ◌==ℕ◌, if◌then◌else◌,
}
use podman_swarm.Base.Text.{Text, str, ◌==◌}
use podman_swarm.Base.Text.Affix.{has_prefix}
use podman_swarm.Base.Text.Space.{trim_space}
use podman_swarm.Base.Int.{ℤ, pos, negsuc}
use podman_swarm.Kube.{
  Object, deployment_object, service_object, ingress_object, other_object, DeploymentObject,
  RuleObject, HttpPath, BackendService, PodTemplateSpec, Container, VolumeMount,
}
use podman_swarm.Types.{Pod, pending, Deployment, Service, Ingress, IngressRule, IngressPath}

pub data Error : Type 0 where
  decode_failed wrong_type nil_replicas : Error

-- strings.Split at a separator that is not empty; `skip` bytes of one that was met are still to pass.
push : ℕ → List Text → List Text
push c [] = (c ∷ []) ∷ []
push c (piece ∷ pieces) = (c ∷ piece) ∷ pieces

pub split_at : Text → ℕ → Text → List Text
unfolding push
split_at sep skip [] = [] ∷ []
split_at sep (suc skip) (c ∷ s) = split_at sep skip s
split_at sep zero (c ∷ s) = elim (has_prefix (c ∷ s) sep) [
  | true ↦ [] ∷ split_at sep (length sep - 1) s
  | false ↦ push c (split_at sep zero s)
]

abbrev separator : Text
separator = str "---"

-- The loop over the documents.
pub decode_all : (Text → Option Object) → List Text → Result Error (List Object)
decode_all decode [] = ok []
decode_all decode (piece ∷ pieces) =
    let rest = decode_all decode pieces in
    let doc = trim_space piece in
    if doc == str "" then rest else elim (decode doc) [
      | none ↦ err decode_failed
      | some object ↦ elim rest [ err e ↦ err e | ok objects ↦ ok (object ∷ objects) ]
    ]

unfoldable pub parse_manifest : (Text → Option Object) → Text → Result Error (List Object)
unfolding split_at decode_all
parse_manifest decode bytes = decode_all decode (split_at separator 0 bytes)

-- A missing number of replicas is dereferenced, a panic: the error nil_replicas.
unfoldable pub parse_deployment : Object → Result Error Deployment
parse_deployment (deployment_object o) = elim o.replicas [
  | none ↦ err nil_replicas
  | some n ↦ ok (record {
    name = o.name;
    namespace = o.namespace;
    replicas = n;
    desired_replicas = n;
    pods = [];
    template = o.template;
    labels = o.labels;
    selector = o.selector;
  })
]
parse_deployment o = err wrong_type

unfoldable pub parse_service : Object → Result Error Service
parse_service (service_object o) = ok (record {
  name = o.name;
  namespace = o.namespace;
  type = o.type;
  selector = o.selector;
  ports = o.ports;
  cluster_ip = o.cluster_ip;
  labels = o.labels;
})
parse_service o = err wrong_type

-- A port given by name, whose number is 0, becomes 80.
port_or_80 : ℤ → ℤ
port_or_80 (pos zero) = pos 80
port_or_80 (pos (suc n)) = pos (suc n)
port_or_80 (negsuc n) = negsuc n

parse_path : HttpPath → IngressPath
unfolding port_or_80
parse_path p = elim p.backend_service [
  | none ↦ record {
    path = p.path;
    path_type = p.path_type;
    service_name = [];
    service_port = pos 0;
  }
  | some s ↦ record {
    path = p.path;
    path_type = p.path_type;
    service_name = s.name;
    service_port = port_or_80 s.port_number;
  }
]

abbrev paths_of : Option (List HttpPath) → List HttpPath
paths_of none = []
paths_of (some paths) = paths

parse_rule : RuleObject → IngressRule
unfolding parse_path
parse_rule r = record { host = r.host; paths = map parse_path (paths_of r.http) }

unfoldable pub parse_ingress : Object → Result Error Ingress
unfolding parse_rule
parse_ingress (ingress_object o) = ok (record {
  name = o.name;
  namespace = o.namespace;
  rules = map parse_rule o.rules;
  labels = o.labels;
  annotations = o.annotations;
})
parse_ingress o = err wrong_type

-- A volume mount is copied by its three fields.
abbrev with_container : List Container → Pod → Pod
with_container [] pod = pod
with_container (c ∷ containers) pod = record pod {
  image = c.image;
  ports = c.ports;
  env = c.env;
  volumes =
      map (λ v. record { name = v.name; mount_path = v.mount_path; read_only = v.read_only })
        c.volume_mounts;
}

-- ExtractPodFromTemplate; the fields that it leaves unset are zero.
unfoldable pub extract_pod_from_template : PodTemplateSpec → Text → Text → Pod
extract_pod_from_template template namespace pod_name = with_container template.containers (record {
  id = [];
  name = pod_name;
  namespace = namespace;
  node_name = [];
  state = pending;
  image = [];
  labels = template.labels;
  annotations = template.annotations;
  ports = [];
  env = [];
  volumes = [];
  node_selector = template.node_selector;
  created_at = pos 0;
})
