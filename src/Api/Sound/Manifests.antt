-- ===== src/Api/Sound/Manifests.antt =====
-- Whole manifests: no call waits for ever, and the state stays sound.
use podman_swarm.Base.{ℕ, suc, ◌≢◌, refl, Option, none, some, List, [], ◌∷◌, Result, ok, err}
use podman_swarm.Base.Text.{Text}
use podman_swarm.Base.Map.{Map, values}
use podman_swarm.Kube.{Object, deployment_object, service_object, ingress_object, other_object}
use podman_swarm.Types.{Node, Call, returns, panics}
use podman_swarm.Discovery.{Update}
use podman_swarm.Scheduler.{get_all_pods}
use podman_swarm.Storage.{Codec, Io}
use podman_swarm.Parser as Parser
use podman_swarm.Parser.{parse_service, parse_manifest}
use podman_swarm.Api.Deployments as Deployments
use podman_swarm.Api.Deployments.{Agent, apply_deployment, delete_cached_deployment}
use podman_swarm.Api.Services.{apply_service, step_of, register_all}
use podman_swarm.Api.Services.Endpoints.{parsed}
use podman_swarm.Api.Manifests.{
  Inputs, Answer, unparsed, rejected, no_answer, deployed, apply_object, apply_objects,
  apply_manifest, delete_manifest, ingress_deleted,
}
use podman_swarm.Api.State.{State, Step, done, failed, hangs}
use podman_swarm.Api.Sound.{IsAgent, IsSound}
use podman_swarm.Api.Sound.Deployments.{apply_deployment-IsAgent, delete_cached_deployment-IsAgent}
use podman_swarm.Api.Sound.Services.{apply_service-IsSound, delete_cached_service-Settles}
use podman_swarm.Api.Sound.Ingresses.{Settles, apply_ingress-Settles, delete_cached_ingress-Settles}

with_agent : (s : State) (a : Agent) → IsSound s → IsAgent a → IsSound (record s { agent = a })
with_agent s a h k = record {
  agent = k;
  services = h.services;
  ingresses = h.ingresses;
  registry = h.registry;
  controller = h.controller;
}

deployed-Settles :
    (s : State) (r : Agent × Option Deployments.Error)
    → IsSound s
    → IsAgent r.0
    → Settles (deployed s r)
deployed-Settles s (a, none) h k = (with_agent s a h k, λ p. cc)
deployed-Settles s (a, some e) h k = (with_agent s a h k, λ p. cc)

step_of-ne : (call : Call) → step_of call ≢ hangs
step_of-ne returns e = cc
step_of-ne panics e = cc

ingress_deleted-Settles :
    (c : Codec) (io : Io) (namespace name : Text) (r : State × Step)
    → Settles r
    → Settles (ingress_deleted c io namespace name r)
ingress_deleted-Settles c io namespace name (s, done) (h, n) =
    delete_cached_ingress-Settles c io namespace name s h
ingress_deleted-Settles c io namespace name (s, failed e) h = h
ingress_deleted-Settles c io namespace name (s, hangs) h = h

module _ (c : Codec) (local : Text) (nodes : Map Node) where
  apply_object-Settles :
      (i : Inputs) (o : Object) (s : State) → IsSound s → Settles (apply_object c local nodes i o s)
  unfolding apply_object apply_service parse_service
  apply_object-Settles i (deployment_object o) s h =
      deployed-Settles s (apply_deployment c i.io local (values nodes) i.pods o s.agent) h
        (apply_deployment-IsAgent c i.io local (values nodes) i.pods o s.agent h.agent)
  apply_object-Settles i (service_object o) s h = (
    apply_service-IsSound c i.io i.updates nodes i.clock o s h,
    step_of-ne
        (register_all i.updates nodes i.clock 0 (parsed o) (get_all_pods s.agent.pods)
          s.registry).1,
  )
  apply_object-Settles i (ingress_object o) s h = apply_ingress-Settles c i.io o s h
  apply_object-Settles i other_object s h = (h, λ p. cc)

  -- The state is sound and there is an answer.
  abbrev pub Answers : State × Answer → Type 0
  Answers r = IsSound r.0 × (r.1 ≢ no_answer)

  apply_objects-Answers :
      (inputs : ℕ → Inputs) (i : ℕ) (objects : List Object) (s : State)
      → IsSound s
      → Answers (apply_objects c local nodes inputs i objects s)
  unfolding apply_objects
  apply_objects-Answers inputs i [] s h = (h, λ p. cc)
  apply_objects-Answers inputs i (o ∷ objects) s h =
      by_step (apply_object c local nodes (inputs i) o s) (apply_object-Settles (inputs i) o s h)
        (λ s' k. apply_objects-Answers inputs (suc i) objects s' k)
    where
      by_step :
          (r : State × Step)
          → Settles r
          → ((s' : State)
              → IsSound s'
              → Answers (apply_objects c local nodes inputs (suc i) objects s'))
          → Answers (elim r.1 as (λ _. State × Answer) [
            | done ↦ apply_objects c local nodes inputs (suc i) objects r.0
            | failed e ↦ (r.0, rejected e)
            | hangs ↦ (r.0, no_answer)
          ])
      by_step (s', done) (k, n) rest = rest s' k
      by_step (s', failed e) (k, n) rest = (k, λ p. cc)
      by_step (s', hangs) (k, n) rest = absurd (n refl)

  pub apply_manifest-Answers :
      (decode : Text → Option Object) (inputs : ℕ → Inputs) (body : Option Text) (s : State)
      → IsSound s
      → Answers (apply_manifest c local nodes decode inputs body s)
  unfolding apply_manifest
  apply_manifest-Answers decode inputs none s h = (h, λ p. cc)
  apply_manifest-Answers decode inputs (some body) s h = by_parsed (parse_manifest decode body)
    where
      by_parsed :
          (r : Result Parser.Error (List Object))
          → Answers (elim r as (λ _. State × Answer) [
            | err e ↦ (s, unparsed)
            | ok objects ↦ apply_objects c local nodes inputs 0 objects s
          ])
      by_parsed (err e) = (h, λ p. cc)
      by_parsed (ok objects) = apply_objects-Answers inputs 0 objects s h

pub delete_manifest-Settles :
    (c : Codec) (io io' io'' : Io) (updates : ℕ → Update) (namespace name : Text) (s : State)
    → IsSound s
    → Settles (delete_manifest c io io' io'' updates namespace name s)
unfolding delete_manifest
delete_manifest-Settles c io io' io'' updates namespace name s h =
    ingress_deleted-Settles c io'' namespace name _ (
      delete_cached_service-Settles c io' updates namespace name _ (
        with_agent s (delete_cached_deployment c io namespace name s.agent) h
          (delete_cached_deployment-IsAgent c io namespace name s.agent h.agent)))
