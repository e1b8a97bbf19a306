-- ===== src/Ingress/Free.antt =====
-- The changes of a controller's rules when its mutex is free.
use podman_swarm.Base.{◌≡◌, arith}
use podman_swarm.Base.Text.{Text}
use podman_swarm.Base.Map.{insert, delete}
use podman_swarm.Types.{Ingress}
use podman_swarm.Storage.{object_key}
use podman_swarm.Ingress.{Controller, returned, add_ingress, remove_ingress}
use podman_swarm.Ingress.Lock.{free, lock}

abbrev pub added_rule : Ingress → Controller → Controller
added_rule ing ic = record ic { rules = insert (object_key ing.namespace ing.name) ing ic.rules }

pub add_ingress-free :
    (ing : Ingress) (ic : Controller)
    → ic.mu ≡ free
    → add_ingress ing ic ≡ returned tt (added_rule ing ic)
unfolding add_ingress lock
add_ingress-free ing ic e = ground arith

abbrev pub removed_rules : Text → Text → Controller → Controller
removed_rules namespace name ic = record ic {
  rules = delete (object_key namespace name) ic.rules;
  proxies = delete (object_key namespace name) ic.proxies;
}

pub remove_ingress-free :
    (namespace name : Text) (ic : Controller)
    → ic.mu ≡ free
    → remove_ingress namespace name ic ≡ returned tt (removed_rules namespace name ic)
unfolding remove_ingress lock
remove_ingress-free namespace name ic e = ground arith
