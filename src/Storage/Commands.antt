-- ===== src/Storage/Commands.antt =====
-- The eight methods of internal/storage/storage.go that change the store, seen as commands on four
-- tables that a client reads through the `Get` methods.
pub mod Refinement
pub mod Invariant
use podman_swarm.Base.{ℕ, Option, none, some, List, [], ◌∷◌, if◌then◌else◌}
use podman_swarm.Base.Text.{Text, ◌==◌}
use podman_swarm.Base.Map.{lookup}
use podman_swarm.Types.{Deployment, Service, Ingress, Pod}
use podman_swarm.Storage.{
  Storage, Codec, Io, Disk, Outcome, object_key, save_deployment, delete_deployment, save_service,
  delete_service, save_ingress, delete_ingress, save_pod, delete_pod,
}

pub data Command : Type 0 where
  put_deployment : Deployment → Command
  put_service : Service → Command
  put_ingress : Ingress → Command
  put_pod : Pod → Command
  drop_deployment drop_service drop_ingress drop_pod : Text → Text → Command

unfoldable pub execute : Codec → Io → Command → Storage → Disk → Outcome
execute c io (put_deployment x) = save_deployment c io x
execute c io (put_service x) = save_service c io x
execute c io (put_ingress x) = save_ingress c io x
execute c io (put_pod x) = save_pod c io x
execute c io (drop_deployment namespace name) = delete_deployment c io namespace name
execute c io (drop_service namespace name) = delete_service c io namespace name
execute c io (drop_ingress namespace name) = delete_ingress c io namespace name
execute c io (drop_pod namespace name) = delete_pod c io namespace name

-- A history: each command with what the system answers to it.
unfoldable pub run : Codec → List (Io × Command) → Storage → Disk → Storage × Disk
run c [] s d = (s, d)
run c ((io, cmd) ∷ rest) s d = let o = execute c io cmd s d in run c rest o.storage o.disk

-- The specification: four tables from keys to objects.
pub record View : Type 0 where
  pub deployments : Text → Option Deployment
  pub services : Text → Option Service
  pub ingresses : Text → Option Ingress
  pub pods : Text → Option Pod

abbrev pub view : Storage → View
view s = record {
  deployments = λ k. lookup k s.deployments;
  services = λ k. lookup k s.services;
  ingresses = λ k. lookup k s.ingresses;
  pods = λ k. lookup k s.pods;
}

abbrev pub write : {V : Type 0} → Text → Option V → (Text → Option V) → Text → Option V
write k v table j = if k == j then v else table j

pub apply : Command → View → View
apply (put_deployment x) v = record v {
  deployments = write (object_key x.namespace x.name) (some x) v.deployments;
}
apply (put_service x) v = record v {
  services = write (object_key x.namespace x.name) (some x) v.services;
}
apply (put_ingress x) v = record v {
  ingresses = write (object_key x.namespace x.name) (some x) v.ingresses;
}
apply (put_pod x) v = record v { pods = write (object_key x.namespace x.name) (some x) v.pods }
apply (drop_deployment namespace name) v = record v {
  deployments = write (object_key namespace name) none v.deployments;
}
apply (drop_service namespace name) v = record v {
  services = write (object_key namespace name) none v.services;
}
apply (drop_ingress namespace name) v = record v {
  ingresses = write (object_key namespace name) none v.ingresses;
}
apply (drop_pod namespace name) v = record v {
  pods = write (object_key namespace name) none v.pods;
}

pub apply_all : List (Io × Command) → View → View
apply_all [] v = v
apply_all ((io, cmd) ∷ rest) v = apply_all rest (apply cmd v)
