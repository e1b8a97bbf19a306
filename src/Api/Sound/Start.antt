-- ===== src/Api/Sound/Start.antt =====
-- The state that an API starts with.
use mathlib.Core.Option.{some-injective}
use podman_swarm.Base.{◌≡◌, ap, subst, sym, ◌∙◌, some, []}
use podman_swarm.Base.Text.{Text}
use podman_swarm.Base.Map.{Map, values}
use podman_swarm.Types.{Pod}
use podman_swarm.Storage.{Storage, Disk}
use podman_swarm.Storage.Commands.Invariant.{IsKeyed, IsValid, nil-IsKeyed}
use podman_swarm.Storage.Merge.Validity.{insert_all-IsKeyed}
use podman_swarm.Discovery.{Registry}
use podman_swarm.Discovery.Registry.{IsRegistry}
use podman_swarm.Ingress.{Controller}
use podman_swarm.Api.Start.{
  Started, started, crashed, stuck, new_api, cache_all, deployment_key, service_key, ingress_key,
}
use podman_swarm.Api.Start.Caches.{new_api-loaded, cache_all-insert_all}
use podman_swarm.Api.State.{State}
use podman_swarm.Api.Sound.{IsIdle, IsSound}

cache_all-IsKeyed :
    {V : Type 0} (own : V → Text) (m cache : Map V)
    → IsKeyed own m
    → IsKeyed own cache
    → IsKeyed own (cache_all own (values m) cache)
cache_all-IsKeyed own m cache h k =
    subst (IsKeyed own) (sym (cache_all-insert_all own m cache h))
      (insert_all-IsKeyed own m cache h k)

state_or : {A : Type 0} → A → Started A → A
state_or a (started s) = s
state_or a crashed = a
state_or a stuck = a

-- Over a valid store, a well-formed registry and an idle controller.
pub new_api-IsSound :
    (storage : Storage) (disk : Disk) (pods : Map Pod) (registry : Registry) (ic : Controller)
    (s : State)
    → IsValid storage
    → IsRegistry registry
    → IsIdle ic
    → new_api storage disk pods registry (some ic) ≡ started s
    → IsSound s
unfolding state_or
new_api-IsSound storage disk pods registry ic s v r idle e =
    subst IsSound
      (ap (state_or s) (sym (new_api-loaded storage disk pods registry ic idle.mutex) ∙ e))
      (record {
        agent = record {
          deployments =
              cache_all-IsKeyed deployment_key storage.deployments [] v.deployments (nil-IsKeyed _);
          storage = v;
        };
        services = cache_all-IsKeyed service_key storage.services [] v.services (nil-IsKeyed _);
        ingresses = cache_all-IsKeyed ingress_key storage.ingresses [] v.ingresses (nil-IsKeyed _);
        registry = r;
        controller = λ ic' same. subst IsIdle (some-injective _ _ same) (record {
          rules = cache_all-IsKeyed ingress_key storage.ingresses ic.rules v.ingresses idle.rules;
          mutex = idle.mutex;
        });
      })
