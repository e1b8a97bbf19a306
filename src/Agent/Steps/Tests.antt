-- ===== src/Agent/Steps/Tests.antt =====
-- A short run of an agent: a manifest, a deletion and a health check.
use podman_swarm.Base.{ℕ, ◌≢◌, refl, Option, none, some, true, [], ◌∷◌}
use podman_swarm.Base.Text.{Text, str}
use podman_swarm.Base.Int.{pos}
use podman_swarm.Base.Map.{Map, lookup}
use podman_swarm.Kube.{Object, service_object}
use podman_swarm.Types.{Node, panics, running}
use podman_swarm.Storage.{Codec, Io, written, empty}
use podman_swarm.Storage.Commands.Invariant.{empty-IsValid, nil-IsKeyed}
use podman_swarm.Storage.Merge.{MessageCodec}
use podman_swarm.Discovery.{Update}
use podman_swarm.Discovery.Messages.{Json}
use podman_swarm.Discovery.Registry.{IsRegistry}
use podman_swarm.Ingress.{Controller}
use podman_swarm.Ingress.Lock.{free}
use podman_swarm.Api.Manifests.{Inputs, no_answer, apply_manifest, delete_manifest}
use podman_swarm.Api.Start.{ingress_key, cache_all}
use podman_swarm.Api.Start.Caches.{loaded, restored_rules, new_api-loaded}
use podman_swarm.Api.State.{State, hangs}
use podman_swarm.Api.Sound.{IsIdle, IsSound}
use podman_swarm.Agent.Steps.{applies, deletes, Reaches, here, then}
use podman_swarm.Agent.Steps.Safety.{reached_answers}

abbrev codec : Codec
codec = record { marshal = λ st. some (str "{}"); unmarshal = λ b. none }

abbrev message_codec : MessageCodec
message_codec = record { encode = λ m. none; decode = λ b. none }

abbrev json : Json
json = record { marshal = λ m. none; unmarshal = λ b. none }

abbrev io : Io
io = record { now = 5; write = written; rename_ok = true; read_ok = true; mkdir_ok = true }

abbrev broken : ℕ → Update
broken i e action = panics

abbrev inputs : ℕ → Inputs
inputs i = record {
  io = io;
  pods = λ j. record {
    id = str "g";
    created_at = pos 1;
    random = λ n. 0;
    container = some (str "c");
    start_ok = true;
    state = running;
  };
  clock = λ j. 9;
  updates = broken;
}

abbrev decode : Text → Option Object
decode doc = some (
    service_object (record {
      name = str "web";
      namespace = str "default";
      labels = [];
      type = [];
      selector = [];
      ports = pos 80 ∷ [];
      cluster_ip = [];
    }))

abbrev controller : Controller
controller = record {
  mu = free;
  rules = [];
  proxies = [];
  round_robin_idx = [];
  local_node_name = str "n1";
}

abbrev start : State
start = loaded empty [] [] [] (cache_all ingress_key [] []) (some (restored_rules empty controller))

abbrev body : Option Text
body = some (str "{}")

abbrev applied : State
applied = (apply_manifest codec (str "n1") [] decode inputs body start).0

abbrev deleted : State
deleted = (delete_manifest codec io io io broken (str "default") (str "web") applied).0

run : Reaches codec message_codec json (str "n1") start deleted
run =
    then (applies [] decode inputs body)
      (then (deletes io io io broken (str "default") (str "web")) here)

nil-IsRegistry : IsRegistry []
unfolding lookup
nil-IsRegistry = record { distinct = tt; inner = λ k m e. cc }

controller-IsIdle : IsIdle controller
controller-IsIdle = record { rules = nil-IsKeyed ingress_key; mutex = refl }

reached_answers_example :
    IsSound deleted
    × ((nodes : Map Node) (decode : Text → Option Object) (inputs : ℕ → Inputs) (body : Option Text)
        → (apply_manifest codec (str "n1") nodes decode inputs body deleted).1 ≢ no_answer)
    × ((io io' io'' : Io) (updates : ℕ → Update) (namespace name : Text)
        → (delete_manifest codec io io' io'' updates namespace name deleted).1 ≢ hangs)
reached_answers_example =
    reached_answers codec message_codec json (str "n1") empty [] [] [] controller start deleted
      empty-IsValid nil-IsRegistry controller-IsIdle (new_api-loaded empty [] [] [] controller refl)
      run
