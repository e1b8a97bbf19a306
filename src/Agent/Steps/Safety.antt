-- ===== src/Agent/Steps/Safety.antt =====
-- What holds of a running agent at any time.
use podman_swarm.Base.{ℕ, subst, ok, err}
use podman_swarm.Base.Text.{Text}
use podman_swarm.Storage.{Codec, Io}
use podman_swarm.Storage.Commands.Invariant.{IsValid}
use podman_swarm.Storage.Merge.{MessageCodec}
use podman_swarm.Storage.Merge.Validity.{IsHonest, handle_state_sync_message-IsValid}
use podman_swarm.Discovery.Registry.{IsRegistry, operations-IsRegistry}
use podman_swarm.Discovery.Messages.{Json, Handled, returned, panicked, handle_service_update}
use podman_swarm.Discovery.Messages.Shape.{HandledWell, handle_service_update-HandledWell}
use podman_swarm.Api.State.{State}
use podman_swarm.Api.Sound.{IsSound}
use podman_swarm.Api.Sound.Manifests.{apply_manifest-Answers, delete_manifest-Settles}
use podman_swarm.Api.Sound.Start.{new_api-IsSound}
use podman_swarm.Api.Sound.{IsIdle}
use podman_swarm.Api.Start.{started, new_api}
use podman_swarm.Api.State.{hangs}
use podman_swarm.Api.Manifests.{Inputs, no_answer, apply_manifest, delete_manifest}
use podman_swarm.Kube.{Object}
use podman_swarm.Types.{Node, Pod}
use podman_swarm.Base.{◌≡◌, ◌≢◌, Option, some}
use podman_swarm.Base.Map.{Map}
use podman_swarm.Storage.{Storage, Disk}
use podman_swarm.Discovery.{Registry, Update}
use podman_swarm.Ingress.{Controller}
use podman_swarm.Api.Sound.Recovery.{recover-IsSound}
use podman_swarm.Agent.{Receiver, Process, up, down, handle_cluster_message, after_update}
use podman_swarm.Agent.Steps.{
  receiver_of, Next, applies, deletes, recovers, receives, checks, Reaches, here, then,
}

-- A process that is up has a well-formed registry and store.
abbrev UpWell : Process → Type 0
UpWell down = Unit {0}
UpWell (up r) = IsRegistry r.registry × IsValid r.storage

after_update-UpWell :
    (c : Codec) (mc : MessageCodec) (io : Io) (bytes : Text) (h : Handled) (r : Receiver)
    → IsHonest mc bytes
    → HandledWell h
    → UpWell (up r)
    → UpWell (after_update c mc io bytes h r)
after_update-UpWell c mc io bytes panicked r honest k u = tt
after_update-UpWell c mc io bytes (returned (err e)) r honest k (reg, v) =
    (reg, handle_state_sync_message-IsValid c mc io bytes r.storage r.disk honest v)
after_update-UpWell c mc io bytes (returned (ok registry)) r honest k (reg, v) =
    (k, handle_state_sync_message-IsValid c mc io bytes r.storage r.disk honest v)

handle_cluster_message-UpWell :
    (j : Json) (c : Codec) (mc : MessageCodec) (io : Io) (now : ℕ) (bytes : Text) (r : Receiver)
    → IsHonest mc bytes
    → UpWell (up r)
    → UpWell (handle_cluster_message j c mc io now bytes (up r))
unfolding handle_cluster_message
handle_cluster_message-UpWell j c mc io now bytes r honest u =
    after_update-UpWell c mc io bytes (handle_service_update j now bytes r.registry) r honest
      (handle_service_update-HandledWell j now bytes r.registry u.0) u

module _ (c : Codec) (mc : MessageCodec) (j : Json) (local : Text) where
  Next-IsSound : {s t : State} → Next c mc j local s t → IsSound s → IsSound t
  Next-IsSound (applies nodes decode inputs body {s}) h =
      (apply_manifest-Answers c local nodes decode inputs body s h).0
  Next-IsSound (deletes io io' io'' updates namespace name {s}) h =
      (delete_manifest-Settles c io io' io'' updates namespace name s h).0
  Next-IsSound (recovers nodes inputs clocks updates {s} back) h =
      recover-IsSound c local nodes inputs clocks updates s h
  Next-IsSound (receives io now bytes r {s} honest e) h =
      let (registry, storage) = subst UpWell e (
        handle_cluster_message-UpWell j c mc io now bytes (receiver_of s) honest
          (h.registry, h.agent.storage)) in
      record {
        agent = record { deployments = h.agent.deployments; storage = storage };
        services = h.services;
        ingresses = h.ingresses;
        registry = registry;
        controller = h.controller;
      }
  Next-IsSound (checks now {s}) h = record {
    agent = h.agent;
    services = h.services;
    ingresses = h.ingresses;
    registry = (operations-IsRegistry s.registry h.registry).3 now;
    controller = h.controller;
  }

  Reaches-IsSound : {s t : State} → Reaches c mc j local s t → IsSound s → IsSound t
  Reaches-IsSound here h = h
  Reaches-IsSound (then step rest) h = Reaches-IsSound rest (Next-IsSound step h)

  -- An agent whose caches were filled from a valid store, with an idle ingress controller, goes on in
  -- good order while it is up: after any sequence of requests for manifests, messages, recoveries and
  -- health checks, whatever the calls below them answer and also if they panic in a request, the
  -- tables and caches have distinct keys, each that of its object, the registry is well formed, and
  -- the next manifest and the next deletion have an answer: no call waits for ever. A recovery or a
  -- message that panics ends the agent, and is not in the sequence. The states that other nodes send
  -- are honest, and no request reaches the ingress controller.
  pub reached_answers :
      (storage : Storage) (disk : Disk) (pods : Map Pod) (registry : Registry) (ic : Controller)
      (s t : State)
      → IsValid storage
      → IsRegistry registry
      → IsIdle ic
      → new_api storage disk pods registry (some ic) ≡ started s
      → Reaches c mc j local s t
      → IsSound t
        × ((nodes : Map Node) (decode : Text → Option Object) (inputs : ℕ → Inputs)
              (body : Option Text)
            → (apply_manifest c local nodes decode inputs body t).1 ≢ no_answer)
        × ((io io' io'' : Io) (updates : ℕ → Update) (namespace name : Text)
            → (delete_manifest c io io' io'' updates namespace name t).1 ≢ hangs)
  reached_answers storage disk pods registry ic s t v r idle e reached =
      let sound =
        Reaches-IsSound reached (new_api-IsSound storage disk pods registry ic s v r idle e) in
      (
        sound,
        λ nodes decode inputs body.
            (apply_manifest-Answers c local nodes decode inputs body t sound).1,
        λ io io' io'' updates namespace name.
            (delete_manifest-Settles c io io' io'' updates namespace name t sound).1,
      )
