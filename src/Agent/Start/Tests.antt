-- ===== src/Agent/Start/Tests.antt =====
-- An agent that is started with nothing in its environment, again after a change of its storage.
use podman_swarm.Base.{◌≡◌, refl, none, some, true, false, [], ◌∷◌, ok}
use podman_swarm.Base.Text.{Text, str, ◌==◌}
use podman_swarm.Base.Int.{pos}
use podman_swarm.Base.Map.{lookup, insert, delete}
use podman_swarm.Types.{Service}
use podman_swarm.Config.{Config, load, get_env}
use podman_swarm.Security.{Crypto}
use podman_swarm.Security.Encryption.{Aead}
use podman_swarm.Ingress.{Controller}
use podman_swarm.Storage.{Codec, Io, written, empty, object_key, get_state, save_service, persist}
use podman_swarm.Storage.Commands.{put_service, execute}
use podman_swarm.Storage.Commands.Invariant.{empty-IsValid}
use podman_swarm.Storage.Durable.{RoundTrips}
use podman_swarm.Agent.Start.{Answers, Running, start}
use podman_swarm.Agent.Start.Success.{Starts}
use podman_swarm.Agent.Start.Restart.{restart_keeps}

abbrev web : Service
web = record {
  name = str "web";
  namespace = str "default";
  type = [];
  selector = [];
  ports = pos 80 ∷ [];
  cluster_ip = [];
  labels = [];
}

abbrev key : Text
key = object_key (str "default") (str "web")

abbrev io : Io
io = record { now = 5; write = written; rename_ok = true; read_ok = true; mkdir_ok = true }

-- A codec that knows the one state that is saved.
abbrev codec : Codec
codec = record {
  marshal = λ st. some (str "{}");
  unmarshal =
      λ b. some (get_state (record empty { services = (key, web) ∷ []; last_modified = 5 }));
}

abbrev cipher : Aead
cipher = record {
  sha_256 = λ p. p;
  nonce_size = 2;
  seal = λ k nonce p. p;
  open_sealed = λ k nonce p. some p;
}

abbrev crypto : Crypto
crypto = record { encode_64 = λ b. b; decode_64 = λ b. some b; digest = λ b. b }

abbrev cfg : Config
cfg = load (λ variable. []) (record { text = λ f. none; number = λ f. none; switch = λ f. none })

abbrev answers : Answers
answers = record {
  now = 7;
  join_bytes = some (str "join");
  join_secret = str "secret";
  tls = record {
    load_pair = λ cert key. none;
    read_file = λ f. none;
    is_pem = λ b. false;
    has_system_pool = true;
  };
  key_io = io;
  create_ok = true;
  created = [];
  joining = [];
  local_address = str "10.0.0.1";
  podman_ok = true;
  storage_io = io;
  api_bytes = some (str "api");
  api_secret = str "secret";
}

saved : (execute codec io (put_service web) empty []).error ≡ none
unfolding execute save_service persist get_state insert delete ◌==◌
saved = refl

saved-RoundTrips :
    RoundTrips codec (get_state (execute codec io (put_service web) empty []).storage)
unfolding execute save_service persist get_state insert ◌==◌
saved-RoundTrips b e = refl

default-Starts : Starts answers cfg
unfolding load get_env ◌==◌
default-Starts = record {
  first = refl;
  plain = refl;
  ingress = refl;
  join_bytes = str "join";
  join_random = refl;
  api_bytes = str "api";
  api_random = refl;
  create = refl;
  podman = refl;
  storage = record { named = refl; mkdir = refl; read = refl };
}

restart_keeps_example :
    let o = execute codec io (put_service web) empty [] in
    (r : Running) × (ic : Controller) × (start cipher crypto codec answers cfg o.disk ≡ ok r)
    × (r.state.agent.storage ≡ o.storage)
    × (r.state.controller ≡ some ic)
    × (lookup key r.state.agent.deployments ≡ lookup key o.storage.deployments)
    × (lookup key r.state.services ≡ lookup key o.storage.services)
    × (lookup key r.state.ingresses ≡ lookup key o.storage.ingresses)
    × (lookup key ic.rules ≡ lookup key o.storage.ingresses)
restart_keeps_example =
    restart_keeps cipher crypto codec io answers cfg (put_service web) empty [] key empty-IsValid
      saved saved-RoundTrips default-Starts
