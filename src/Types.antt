-- ===== src/Types.antt =====
-- internal/types/types.go: the data that the components share.
use podman_swarm.Base.{Option, List}
use podman_swarm.Base.Text.{Text}
use podman_swarm.Base.Map.{Map}
use podman_swarm.Base.Int.{ℤ}
use podman_swarm.Kube.{ContainerPort, EnvVar, VolumeMount, PodTemplateSpec, LabelSelector, PathType}

pub data PodState : Type 0 where
  pending running succeeded failed unknown : PodState

pub record Pod : Type 0 where
  pub id : Text
  pub name : Text
  pub namespace : Text
  pub node_name : Text
  pub state : PodState
  pub image : Text
  pub labels : Map Text
  pub annotations : Map Text
  pub ports : List ContainerPort
  pub env : List EnvVar
  pub volumes : List VolumeMount
  pub node_selector : Map Text
  pub created_at : ℤ

pub record Deployment : Type 0 where
  pub name : Text
  pub namespace : Text
  pub replicas : ℤ
  pub desired_replicas : ℤ
  pub pods : List Pod
  pub template : PodTemplateSpec
  pub labels : Map Text
  pub selector : Option LabelSelector

-- A service port: the code reads its number.
pub record Service : Type 0 where
  pub name : Text
  pub namespace : Text
  pub type : Text
  pub selector : Map Text
  pub ports : List ℤ
  pub cluster_ip : Text
  pub labels : Map Text

pub record IngressPath : Type 0 where
  pub path : Text
  pub path_type : Option PathType
  pub service_name : Text
  pub service_port : ℤ

pub record IngressRule : Type 0 where
  pub host : Text
  pub paths : List IngressPath

pub record Ingress : Type 0 where
  pub name : Text
  pub namespace : Text
  pub rules : List IngressRule
  pub labels : Map Text
  pub annotations : Map Text

pub record Node : Type 0 where
  pub name : Text
  pub address : Text
  pub status : Text
  pub labels : Map Text

-- How a call comes back that returns nothing the caller reads: it returns, or it panics.
pub data Call : Type 0 where
  returns panics : Call
