-- ===== src/Agent/Steps.antt =====
-- A running agent as a sequence of whole calls: the requests for manifests, the messages of other
-- nodes, the recovery and the health checks, in any order and with any answers of the calls below.
-- Requests to the ingress controller are not among them. A panic in a handler of a request is
-- recovered; one in the recovery or in the handler of a message ends the agent, and the sequence. A
-- tick of the synchronization, which only reads the storage and broadcasts, is no step.
pub mod Safety
mod Tests
use podman_swarm.Base.{ℕ, ◌≡◌, Option, none, some}
use podman_swarm.Base.Text.{Text}
use podman_swarm.Base.Map.{Map}
use podman_swarm.Kube.{Object}
use podman_swarm.Types.{Node, returns}
use podman_swarm.Storage.{Codec, Io}
use podman_swarm.Storage.Merge.{MessageCodec}
use podman_swarm.Storage.Merge.Validity.{IsHonest}
use podman_swarm.Discovery.{Update, health_check}
use podman_swarm.Discovery.Messages.{Json}
use podman_swarm.Api.Manifests as Manifests
use podman_swarm.Api.Manifests.{apply_manifest, delete_manifest}
use podman_swarm.Api.Recovery as Recovery
use podman_swarm.Api.Recovery.{recover}
use podman_swarm.Api.State.{State}
use podman_swarm.Agent.{Receiver, up, handle_cluster_message}

-- What the message handler reads and changes of the state.
abbrev pub receiver_of : State → Receiver
receiver_of s = record { registry = s.registry; storage = s.agent.storage; disk = s.agent.disk }

abbrev pub received : Receiver → State → State
received r s = record s {
  agent = record (s.agent) { storage = r.storage; disk = r.disk };
  registry = r.registry;
}

pub data Next (c : Codec) (mc : MessageCodec) (j : Json) (local : Text)
    : State → State → Type 0 where
  applies :
      (nodes : Map Node) (decode : Text → Option Object) (inputs : ℕ → Manifests.Inputs)
      (body : Option Text) {s : State}
      → Next c mc j local s (apply_manifest c local nodes decode inputs body s).0
  deletes :
      (io io' io'' : Io) (updates : ℕ → Update) (namespace name : Text) {s : State}
      → Next c mc j local s (delete_manifest c io io' io'' updates namespace name s).0
  recovers :
      (nodes : Map Node) (inputs : ℕ → Recovery.Inputs) (clocks : ℕ → ℕ → ℕ)
      (updates : ℕ → ℕ → Update) {s : State}
      → (recover c local nodes inputs clocks updates s).2 ≡ returns
      → Next c mc j local s (recover c local nodes inputs clocks updates s).0
  receives :
      (io : Io) (now : ℕ) (bytes : Text) (r : Receiver) {s : State}
      → IsHonest mc bytes
      → handle_cluster_message j c mc io now bytes (up (receiver_of s)) ≡ up r
      → Next c mc j local s (received r s)
  checks :
      (now : ℕ) {s : State}
      → Next c mc j local s (record s { registry = health_check now s.registry })

-- Any number of calls, one after the other.
pub data Reaches (c : Codec) (mc : MessageCodec) (j : Json) (local : Text)
    : State → State → Type 0 where
  here : {s : State} → Reaches c mc j local s s
  then :
      {s t u : State} → Next c mc j local s t → Reaches c mc j local t u → Reaches c mc j local s u
