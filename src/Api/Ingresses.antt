-- ===== src/Api/Ingresses.antt =====
-- internal/api/api.go: applying and deleting ingresses.
use podman_swarm.Base.{Option, none, some, ok, err}
use podman_swarm.Base.Text.{Text}
use podman_swarm.Base.Map.{lookup, insert, delete}
use podman_swarm.Kube.{IngressObject, ingress_object}
use podman_swarm.Types.{Ingress}
use podman_swarm.Storage.{Codec, Io, object_key, save_ingress, delete_ingress}
use podman_swarm.Ingress.{
  Controller, Called, returned, panicked, waits, add_ingress, remove_ingress,
}
use podman_swarm.Parser.{parse_ingress}
use podman_swarm.Api.State.{State, stored, Step, done, failed, hangs, ingress_failed, no_controller}

-- What a call of the controller leaves.
abbrev pub after_call : Called Unit → State → State × Step
after_call (returned u ic) s = (record s { controller = some ic }, done)
after_call panicked s = (s, failed ingress_failed)
after_call (waits ic) s = (record s { controller = some ic }, hangs)

-- A call of a method of the controller, which may be nil.
abbrev pub on_controller : (Controller → Called Unit) → Option Controller → State → State × Step
on_controller call none s = (s, failed no_controller)
on_controller call (some ic) s = after_call (call ic) s

-- applyIngress
unfoldable pub apply_ingress : Codec → Io → IngressObject → State → State × Step
apply_ingress c io o s = elim (parse_ingress (ingress_object o)) [
  | err e ↦ (s, failed ingress_failed)
  | ok ing ↦
      let s' = record s {
        agent = stored (save_ingress c io ing s.agent.storage s.agent.disk) s.agent;
        ingresses = insert (object_key ing.namespace ing.name) ing s.ingresses;
      } in
      on_controller (add_ingress ing) s'.controller s'
]

-- What follows the call of RemoveIngress.
abbrev pub forget_ingress : Codec → Io → Text → Text → State × Step → State × Step
forget_ingress c io namespace name (s, done) = (
  record s {
    agent = stored (delete_ingress c io namespace name s.agent.storage s.agent.disk) s.agent;
    ingresses = delete (object_key namespace name) s.ingresses;
  },
  done,
)
forget_ingress c io namespace name (s, failed e) = (s, failed e)
forget_ingress c io namespace name (s, hangs) = (s, hangs)

abbrev pub remove_found : Codec → Io → Text → Text → Option Ingress → State → State × Step
remove_found c io namespace name none s = (s, done)
remove_found c io namespace name (some ing) s =
    forget_ingress c io namespace name
      (on_controller (remove_ingress namespace name) s.controller s)

-- The part of DeleteManifest for ingresses.
unfoldable pub delete_cached_ingress : Codec → Io → Text → Text → State → State × Step
delete_cached_ingress c io namespace name s =
    remove_found c io namespace name (lookup (object_key namespace name) s.ingresses) s
