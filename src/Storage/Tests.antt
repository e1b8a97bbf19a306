-- ===== src/Storage/Tests.antt =====
-- Concrete stores: runs, and the theorems at inputs where their hypotheses hold.
use podman_swarm.Base.{ℕ, ◌⊎◌, ◌≡◌, ◌≢◌, refl, none, some, true, List, [], ◌∷◌, ok, err, arith}
use podman_swarm.Base.Text.{str, ◌==◌}
use podman_swarm.Base.Map.{lookup, insert, delete}
use podman_swarm.Base.Int.{pos}
use podman_swarm.Types.{Deployment, Pod, running}
use podman_swarm.Storage.{
  Storage, ClusterState, Codec, Io, written, torn, not_found, write_failed, get_state,
  save_deployment, get_deployment, delete_deployment, new_storage, persist, empty, object_key,
}
use podman_swarm.Storage.Commands.{
  Command, put_deployment, drop_deployment, execute, run, view, apply_all,
}
use podman_swarm.Storage.Commands.Refinement.{view-run}
use podman_swarm.Storage.Commands.Invariant.{IsValid, empty-IsValid, run-IsValid}
use podman_swarm.Storage.Durable.{IsReady, execute_durable}
use podman_swarm.Storage.Merge.{merge_state, merge_pods}
use podman_swarm.Storage.Merge.Laws.{IsState, merge_state_newer}

abbrev web : Deployment
web = record {
  name = str "web";
  namespace = str "default";
  replicas = pos 2;
  desired_replicas = pos 2;
  pods = [];
  template = record { labels = []; annotations = []; containers = []; node_selector = [] };
  labels = [];
  selector = none;
}

abbrev web_0 : ℕ → Pod
web_0 created = record {
  id = str "c1";
  name = str "web-0";
  namespace = str "default";
  node_name = str "n1";
  state = running;
  image = str "nginx";
  labels = [];
  annotations = [];
  ports = [];
  env = [];
  volumes = [];
  node_selector = [];
  created_at = pos created;
}

-- A codec that is right about one state.
abbrev codec_for : ClusterState → Codec
codec_for st = record { marshal = λ _. some (str "{}"); unmarshal = λ _. some st }

abbrev at : ℕ → Io
at t = record { now = t; write = written; rename_ok = true; read_ok = true; mkdir_ok = true }

abbrev with_web : ℕ → Storage
with_web t = record empty {
  deployments = (object_key (str "default") (str "web"), web) ∷ [];
  last_modified = t;
}

abbrev codec : Codec
codec = codec_for (get_state (with_web 5))

save_then_get :
    get_deployment (str "default") (str "web") (save_deployment codec (at 5) web empty []).storage
    ≡ ok web
unfolding get_deployment save_deployment lookup insert ◌==◌
save_then_get = refl

delete_then_get :
    get_deployment
      (str "default")
      (str "web")
      (delete_deployment codec (at 6) (str "default") (str "web") (with_web 5) []).storage
    ≡ err not_found
unfolding get_deployment delete_deployment lookup delete ◌==◌
delete_then_get = refl

-- The older pod does not replace the newer one.
pods_newest :
    merge_pods ((str "k", web_0 1) ∷ []) ((str "k", web_0 2) ∷ []) ≡ (str "k", web_0 2) ∷ []
unfolding merge_pods lookup insert ◌==◌
pods_newest = refl

abbrev history : List (Io × Command)
history = (at 5, put_deployment web) ∷ (at 6, drop_deployment (str "default") (str "web")) ∷ []

view-run_example : view (run codec history empty []).0 ≡ apply_all history (view empty)
view-run_example = view-run codec history empty []

run-IsValid_example : IsValid (run codec history empty []).0
run-IsValid_example = run-IsValid codec history empty [] empty-IsValid

ready : IsReady (at 9) (str "/var/lib/podman-swarm")
unfolding ◌==◌
ready = record { named = refl; mkdir = refl; read = refl }

execute_durable_example :
    let o = execute codec (at 5) (put_deployment web) empty [] in
    ((o.error ≡ none)
      × (new_storage codec (at 9) (str "/var/lib/podman-swarm") o.disk ≡ ok o.storage))
    ⊎ ((o.error ≢ none)
        × (new_storage codec (at 9) (str "/var/lib/podman-swarm") o.disk
            ≡ new_storage codec (at 9) (str "/var/lib/podman-swarm") []))
execute_durable_example =
    execute_durable codec (at 5) (at 9) (str "/var/lib/podman-swarm") (put_deployment web) empty []
      ready
      (λ b e. unfold execute save_deployment insert persist get_state lookup delete ◌==◌ in refl)

-- Here the first alternative holds.
restart_loads :
    new_storage codec
      (at 9)
      (str "/var/lib/podman-swarm")
      (execute codec (at 5) (put_deployment web) empty []).disk
    ≡ ok (with_web 5)
unfolding execute save_deployment insert new_storage persist get_state lookup delete ◌==◌
restart_loads = refl

torn_write :
    (execute codec (record (at 5) { write = torn none }) (put_deployment web) empty []).error
    ≡ some write_failed
unfolding execute save_deployment persist
torn_write = refl

newer-IsState : IsState (get_state (with_web 5))
unfolding get_state lookup
newer-IsState = record { deployments = (refl, tt); services = tt; ingresses = tt; pods = tt }

merge_state_newer_example :
    lookup
      (str "default/web")
      (merge_state codec (at 7) (get_state (with_web 5)) empty []).storage.deployments
    ≡ some web
unfolding get_state lookup ◌==◌
merge_state_newer_example =
    (merge_state_newer codec (at 7) (get_state (with_web 5)) empty [] newer-IsState (omega arith)).0
      (str "default/web")
