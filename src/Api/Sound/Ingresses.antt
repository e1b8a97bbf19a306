-- ===== src/Api/Sound/Ingresses.antt =====
-- Applying and deleting an ingress.
use mathlib.Core.Option.{some-injective}
use podman_swarm.Base.{
  ◌≡◌, ◌≢◌, refl, ap, sym, subst, some, Result, ok, err, inl, inr, Option-cases,
}
use podman_swarm.Base.Text.{Text}
use podman_swarm.Base.Map.{lookup}
use podman_swarm.Kube.{IngressObject, ingress_object}
use podman_swarm.Types.{Ingress}
use podman_swarm.Storage.{Codec, Io, object_key}
use podman_swarm.Storage.Commands.{put_ingress, drop_ingress, execute}
use podman_swarm.Storage.Commands.Invariant.{insert-IsKeyed, delete-IsKeyed, execute-IsValid}
use podman_swarm.Parser as Parser
use podman_swarm.Parser.{parse_ingress}
use podman_swarm.Ingress.{Controller, Called, add_ingress, remove_ingress, returned}
use podman_swarm.Ingress.Free.{added_rule, add_ingress-free, removed_rules, remove_ingress-free}
use podman_swarm.Api.Ingresses.{
  after_call, on_controller, apply_ingress, delete_cached_ingress, forget_ingress,
}
use podman_swarm.Api.Start.{ingress_key}
use podman_swarm.Api.State.{State, Step, done, failed, hangs}
use podman_swarm.Api.Sound.{IsIdle, IsSound}

-- The state is sound and the call has returned.
abbrev pub Settles : State × Step → Type 0
Settles r = IsSound r.0 × (r.1 ≢ hangs)

-- A call that returns an idle controller from an idle one.
abbrev Idles : (Controller → Called Unit) → Type 0
Idles call =
    (ic : Controller) → IsIdle ic → (ic' : Controller) × (call ic ≡ returned tt ic') × IsIdle ic'

with_controller :
    (s : State) (ic : Controller)
    → IsSound s
    → IsIdle ic
    → IsSound (record s { controller = some ic })
with_controller s ic h idle = record {
  agent = h.agent;
  services = h.services;
  ingresses = h.ingresses;
  registry = h.registry;
  controller = λ ic' e. subst IsIdle (some-injective _ _ e) idle;
}

on_controller-Settles :
    (call : Controller → Called Unit) (s : State)
    → Idles call
    → IsSound s
    → Settles (on_controller call s.controller s)
on_controller-Settles call s idles h = elim (Option-cases s.controller) [
  | inl e ↦ subst Settles (sym (ap (λ o. on_controller call o s) e)) (h, λ p. cc)
  | inr (ic, e) ↦
      let (ic', called, idle) = idles ic (h.controller ic e) in
      subst Settles (sym (ap (λ o. on_controller call o s) e))
        (subst (λ r. Settles (after_call r s)) (sym called) (with_controller s ic' h idle, λ p. cc))
]

add_ingress-Idles : (ing : Ingress) → Idles (add_ingress ing)
add_ingress-Idles ing ic h = (
  added_rule ing ic,
  add_ingress-free ing ic h.mutex,
  record { rules = insert-IsKeyed ingress_key ing ic.rules h.rules; mutex = h.mutex },
)

remove_ingress-Idles : (namespace name : Text) → Idles (remove_ingress namespace name)
remove_ingress-Idles namespace name ic h = (
  removed_rules namespace name ic,
  remove_ingress-free namespace name ic h.mutex,
  record {
    rules = delete-IsKeyed ingress_key (object_key namespace name) ic.rules h.rules;
    mutex = h.mutex;
  },
)

pub apply_ingress-Settles :
    (c : Codec) (io : Io) (o : IngressObject) (s : State)
    → IsSound s
    → Settles (apply_ingress c io o s)
unfolding apply_ingress execute
apply_ingress-Settles c io o s h = by_parsed (parse_ingress (ingress_object o)) refl
  where
    by_parsed :
        (r : Result Parser.Error Ingress)
        → parse_ingress (ingress_object o) ≡ r
        → Settles (apply_ingress c io o s)
    by_parsed (err e) p = rw (p, apply_ingress) (h, λ q. cc)
    by_parsed (ok ing) p =
        rw (p, apply_ingress)
          (on_controller-Settles (add_ingress ing) _ (add_ingress-Idles ing) (record {
            agent = record {
              deployments = h.agent.deployments;
              storage =
                  execute-IsValid c io (put_ingress ing) s.agent.storage s.agent.disk
                    h.agent.storage;
            };
            services = h.services;
            ingresses = insert-IsKeyed ingress_key ing s.ingresses h.ingresses;
            registry = h.registry;
            controller = h.controller;
          }))

forget_ingress-Settles :
    (c : Codec) (io : Io) (namespace name : Text) (r : State × Step)
    → Settles r
    → Settles (forget_ingress c io namespace name r)
unfolding execute
forget_ingress-Settles c io namespace name (s, done) (h, n) = (
  record {
    agent = record {
      deployments = h.agent.deployments;
      storage =
          execute-IsValid c io (drop_ingress namespace name) s.agent.storage s.agent.disk
            h.agent.storage;
    };
    services = h.services;
    ingresses = delete-IsKeyed ingress_key (object_key namespace name) s.ingresses h.ingresses;
    registry = h.registry;
    controller = h.controller;
  },
  n,
)
forget_ingress-Settles c io namespace name (s, failed e) h = h
forget_ingress-Settles c io namespace name (s, hangs) h = h

pub delete_cached_ingress-Settles :
    (c : Codec) (io : Io) (namespace name : Text) (s : State)
    → IsSound s
    → Settles (delete_cached_ingress c io namespace name s)
unfolding delete_cached_ingress
delete_cached_ingress-Settles c io namespace name s h =
    elim (Option-cases (lookup (object_key namespace name) s.ingresses)) [
      | inl e ↦ rw e (h, λ p. cc)
      | inr (ing, e) ↦ rw e (
          forget_ingress-Settles c io namespace name _ (
            on_controller-Settles (remove_ingress namespace name) s
              (remove_ingress-Idles namespace name) h))
    ]
