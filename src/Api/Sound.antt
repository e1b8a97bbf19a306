-- ===== src/Api/Sound.antt =====
-- internal/api: what holds of the state of the handlers between any two calls.
pub mod Deployments
pub mod Services
pub mod Ingresses
pub mod Manifests
pub mod Recovery
pub mod Start
use podman_swarm.Base.{◌≡◌, some}
use podman_swarm.Storage.Commands.Invariant.{IsKeyed, IsValid}
use podman_swarm.Discovery.Registry.{IsRegistry}
use podman_swarm.Ingress.{Controller}
use podman_swarm.Ingress.Lock.{free}
use podman_swarm.Api.Deployments.{Agent}
use podman_swarm.Api.Start.{deployment_key, service_key, ingress_key}
use podman_swarm.Api.State.{State}

-- The rules of a controller have their own keys, and its mutex is free.
pub record IsIdle (ic : Controller) : Type 0 where
  pub rules : IsKeyed ingress_key ic.rules
  pub mutex : ic.mu ≡ free

-- The cache of deployments and the tables of the storage have distinct keys, each that of its object.
pub record IsAgent (a : Agent) : Type 0 where
  pub deployments : IsKeyed deployment_key a.deployments
  pub storage : IsValid a.storage

-- And so do the other caches, and the registry is well formed.
pub record IsSound (s : State) : Type 0 where
  pub agent : IsAgent s.agent
  pub services : IsKeyed service_key s.services
  pub ingresses : IsKeyed ingress_key s.ingresses
  pub registry : IsRegistry s.registry
  pub controller : (ic : Controller) → s.controller ≡ some ic → IsIdle ic
