-- ===== src/Kube.antt =====
-- The Kubernetes API types (k8s.io/api), which the code imports: of each, the fields that the code
-- reads.
use podman_swarm.Base.{Bool, Option, List}
use podman_swarm.Base.Text.{Text}
use podman_swarm.Base.Map.{Map}
use podman_swarm.Base.Int.{ℤ}

pub record ContainerPort : Type 0 where
  pub container_port : ℤ
  pub host_port : ℤ
  pub protocol : Text
  pub host_ip : Text

pub record EnvVar : Type 0 where
  pub name : Text
  pub value : Text

pub record VolumeMount : Type 0 where
  pub name : Text
  pub mount_path : Text
  pub read_only : Bool

pub record Container : Type 0 where
  pub image : Text
  pub ports : List ContainerPort
  pub env : List EnvVar
  pub volume_mounts : List VolumeMount

pub record PodTemplateSpec : Type 0 where
  pub labels : Map Text
  pub annotations : Map Text
  pub containers : List Container
  pub node_selector : Map Text

-- Selectors and resource lists are only passed on.
pub record LabelSelector : Type 0 where
  pub match_labels : Map Text

pub data PathType : Type 0 where
  exact prefix implementation_specific : PathType
  other_type : Text → PathType

-- appsv1.Deployment, with the number of replicas that may be missing.
pub record DeploymentObject : Type 0 where
  pub name : Text
  pub namespace : Text
  pub labels : Map Text
  pub replicas : Option ℤ
  pub template : PodTemplateSpec
  pub selector : Option LabelSelector

-- corev1.Service; of its ports, the numbers.
pub record ServiceObject : Type 0 where
  pub name : Text
  pub namespace : Text
  pub labels : Map Text
  pub type : Text
  pub selector : Map Text
  pub ports : List ℤ
  pub cluster_ip : Text

pub record BackendService : Type 0 where
  pub name : Text
  pub port_number : ℤ

pub record HttpPath : Type 0 where
  pub path : Text
  pub path_type : Option PathType
  pub backend_service : Option BackendService

-- The paths of a rule are missing when it has no HTTP part.
pub record RuleObject : Type 0 where
  pub host : Text
  pub http : Option (List HttpPath)

pub record IngressObject : Type 0 where
  pub name : Text
  pub namespace : Text
  pub labels : Map Text
  pub annotations : Map Text
  pub rules : List RuleObject

-- runtime.Object, by its type.
pub data Object : Type 0 where
  deployment_object : DeploymentObject → Object
  service_object : ServiceObject → Object
  ingress_object : IngressObject → Object
  other_object : Object
