-- ===== src/Api/State.antt =====
-- internal/api/api.go: what the handlers for manifests read and change, as a whole.
use podman_swarm.Base.{Option}
use podman_swarm.Base.Map.{Map}
use podman_swarm.Types.{Service, Ingress}
use podman_swarm.Storage.{Outcome}
use podman_swarm.Discovery.{Registry}
use podman_swarm.Ingress.{Controller}
use podman_swarm.Api.Deployments as Deployments
use podman_swarm.Api.Deployments.{Agent}

-- The caches of deployments, services and ingresses, the storage with its disk, the scheduler's
-- pods, the registry of the discovery, and the ingress controller, which is nil when the agent
-- starts with it disabled.
pub record State : Type 0 where
  pub agent : Agent
  pub services : Map Service
  pub ingresses : Map Ingress
  pub registry : Registry
  pub controller : Option Controller

-- Errors of saving are only logged.
abbrev pub stored : Outcome → Agent → Agent
stored o a = record a { storage = o.storage; disk = o.disk }

-- The error that a handler for one object returns. A call of a method of a nil controller panics, and
-- so may a broadcast, which gin's recovery turns into the same status 500.
pub data Error : Type 0 where
  deployment_failed : Deployments.Error → Error
  service_failed ingress_failed no_controller broadcast_panics : Error

-- What the handler for one object does: it returns, with or without an error, or waits for the
-- mutex of the ingress controller for ever.
pub data Step : Type 0 where
  done : Step
  failed : Error → Step
  hangs : Step
