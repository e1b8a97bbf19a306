-- ===== src/Api/Manifests.antt =====
-- internal/api/api.go: ApplyManifest and DeleteManifest.
pub mod Failures
pub mod Deletion
use podman_swarm.Base.{ℕ, suc, Option, none, some, List, [], ◌∷◌, Result, ok, err}
use podman_swarm.Base.Text.{Text}
use podman_swarm.Base.Map.{Map, values}
use podman_swarm.Kube.{Object, deployment_object, service_object, ingress_object, other_object}
use podman_swarm.Types.{Node}
use podman_swarm.Storage.{Codec, Io}
use podman_swarm.Discovery.{Update}
use podman_swarm.Parser.{parse_manifest}
use podman_swarm.Api.Deployments as Deployments
use podman_swarm.Api.Deployments.{Agent, PodIo, apply_deployment, delete_cached_deployment}
use podman_swarm.Api.Services.{apply_service, delete_cached_service}
use podman_swarm.Api.Ingresses.{apply_ingress, delete_cached_ingress}
use podman_swarm.Api.State.{State, Error, Step, done, failed, hangs, deployment_failed}

-- What the calls for one object of a manifest return: the disk's answers, those for each replica,
-- the times that are read, and what
-- each broadcast does.
pub record Inputs : Type 0 where
  pub io : Io
  pub pods : ℕ → PodIo
  pub clock : ℕ → ℕ
  pub updates : ℕ → Update

-- The answers of the handler: status 200; 400 for a body that cannot be read or parsed; 500 for an
-- object that fails; and none when a call waits for ever.
pub data Answer : Type 0 where
  applied : Answer
  unreadable unparsed : Answer
  rejected : Error → Answer
  no_answer : Answer

abbrev pub deployed : State → Agent × Option Deployments.Error → State × Step
deployed s (a, none) = (record s { agent = a }, done)
deployed s (a, some e) = (record s { agent = a }, failed (deployment_failed e))

module _ (c : Codec) (local : Text) (nodes : Map Node) where
  -- The cases of the switch over an object's type; an object of another type is passed over.
  unfoldable pub apply_object : Inputs → Object → State → State × Step
  apply_object i (deployment_object o) s =
      deployed s (apply_deployment c i.io local (values nodes) i.pods o s.agent)
  apply_object i (service_object o) s = apply_service c i.io i.updates nodes i.clock o s
  apply_object i (ingress_object o) s = apply_ingress c i.io o s
  apply_object i other_object s = (s, done)

  -- The loop over the objects, the first of which is the i-th of the manifest.
  unfoldable pub apply_objects : (ℕ → Inputs) → ℕ → List Object → State → State × Answer
  apply_objects inputs i [] s = (s, applied)
  apply_objects inputs i (o ∷ objects) s =
      let (s', step) = apply_object (inputs i) o s in
      elim step [
        | done ↦ apply_objects inputs (suc i) objects s'
        | failed e ↦ (s', rejected e)
        | hangs ↦ (s', no_answer)
      ]

  -- ApplyManifest; the body is absent when reading it failed.
  unfoldable pub apply_manifest :
      (Text → Option Object) → (ℕ → Inputs) → Option Text → State → State × Answer
  apply_manifest decode inputs none s = (s, unreadable)
  apply_manifest decode inputs (some body) s = elim (parse_manifest decode body) [
    | err e ↦ (s, unparsed)
    | ok objects ↦ apply_objects inputs 0 objects s
  ]

-- The part for ingresses, if the part for services returns.
abbrev pub ingress_deleted : Codec → Io → Text → Text → State × Step → State × Step
ingress_deleted c io namespace name (s, done) = delete_cached_ingress c io namespace name s
ingress_deleted c io namespace name (s, failed e) = (s, failed e)
ingress_deleted c io namespace name (s, hangs) = (s, hangs)

-- DeleteManifest: the state that it leaves, and `done` for its answer of status 200.
unfoldable pub delete_manifest :
    Codec → Io → Io → Io → (ℕ → Update) → Text → Text → State → State × Step
delete_manifest c io io' io'' updates namespace name s =
    let s' = record s { agent = delete_cached_deployment c io namespace name s.agent } in
    ingress_deleted c io'' namespace name (delete_cached_service c io' updates namespace name s')
