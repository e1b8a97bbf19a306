-- ===== src/Api/ObjectTests.antt =====
-- Concrete objects of a manifest: runs, and the theorems at inputs where their hypotheses hold.
use podman_swarm.Base.{ℕ, ◌≡◌, ◌⊎◌, refl, true, none, some, [], ◌∷◌, arith}
use podman_swarm.Base.Text.{Text, str, ◌==◌}
use podman_swarm.Base.Int.{pos}
use podman_swarm.Base.Map.{Map, lookup}
use podman_swarm.Kube.{deployment_object, service_object, DeploymentObject, ServiceObject}
use podman_swarm.Types.{panics, Node, Deployment, running}
use podman_swarm.Storage.{Storage, Codec, Io, written, empty, object_key, get_state}
use podman_swarm.Storage.Merge.{merge_state}
use podman_swarm.Storage.Merge.Laws.{IsState}
use podman_swarm.Ingress.{Controller}
use podman_swarm.Ingress.Lock.{free}
use podman_swarm.Api.Deployments.{PodIo}
use podman_swarm.Api.State.{State, done, stored}
use podman_swarm.Api.Services.{apply_service, delete_cached_service}
use podman_swarm.Api.Services.Endpoints.{parsed}
use podman_swarm.Api.Services.Withdrawals.{Deletes, delete_cached_service-Deregistered}
use podman_swarm.Discovery.{Update}
use podman_swarm.Api.Manifests.{Inputs, apply_object, apply_manifest, delete_manifest}
use podman_swarm.Api.Manifests.Failures.{Treated, apply_manifest-Treated}
use podman_swarm.Api.Manifests.Deletion.{
  StopsAtService, IsDeleted, delete_manifest-IsDeleted, merged_not_deleted,
}
use podman_swarm.Api.Recovery as Recovery

abbrev n1 : Node
n1 = record { name = str "n1"; address = str "10.0.0.1"; status = str "Ready"; labels = [] }

abbrev nodes : Map Node
nodes = (str "n1", n1) ∷ []

abbrev web : DeploymentObject
web = record {
  name = str "web";
  namespace = str "default";
  labels = [];
  replicas = some (pos 1);
  template = record {
    labels = (str "app", str "web") ∷ [];
    annotations = [];
    containers = [];
    node_selector = [];
  };
  selector = none;
}

abbrev web_service : ServiceObject
web_service = record {
  name = str "web";
  namespace = str "default";
  labels = [];
  type = [];
  selector = (str "app", str "web") ∷ [];
  ports = pos 80 ∷ [];
  cluster_ip = [];
}

abbrev codec : Codec
codec = record { marshal = λ st. some (str "{}"); unmarshal = λ b. none }

abbrev io : Io
io = record { now = 5; write = written; rename_ok = true; read_ok = true; mkdir_ok = true }

abbrev pod_io : ℕ → PodIo
pod_io j = record {
  id = str "g";
  created_at = pos 1;
  random = λ n. 0;
  container = some (str "c");
  start_ok = true;
  state = running;
}

-- Every broadcast panics, as with a library that cannot do without a node to send to.
abbrev broken : ℕ → Update
broken i e action = panics

abbrev inputs : ℕ → Inputs
inputs i = record { io = io; pods = pod_io; clock = λ j. 9; updates = broken }

abbrev controller : Controller
controller = record {
  mu = free;
  rules = [];
  proxies = [];
  round_robin_idx = [];
  local_node_name = str "n1";
}

abbrev start : State
start = record {
  agent = record { deployments = []; storage = empty; disk = []; pods = [] };
  services = [];
  ingresses = [];
  registry = [];
  controller = some controller;
}

abbrev key : Text
key = object_key (str "default") (str "web")

abbrev deployed : State
deployed = (apply_object codec (str "n1") nodes (inputs 0) (deployment_object web) start).0

-- The service is cached, and registered for the pod of the deployment.
abbrev with_service : State
with_service = record ((apply_service codec io broken nodes (λ j. 9) web_service deployed).0) {
  services = (key, parsed web_service) ∷ [];
  controller = some controller;
}

delete_cached_service-Deregistered_example :
    Deletes broken key
      (parsed web_service)
      (str "c")
      with_service
      (delete_cached_service codec io broken (str "default") (str "web") with_service)
delete_cached_service-Deregistered_example =
    delete_cached_service-Deregistered codec io broken (str "default") (str "web") with_service
      (parsed web_service) (str "c") (unfold lookup ◌==◌ in refl)

apply_manifest-Treated_example :
    Treated codec
      (str "n1")
      nodes
      inputs
      (λ doc. some (service_object web_service))
      (some (str "{}"))
      start
      (apply_manifest codec
        (str "n1")
        nodes
        (λ doc. some (service_object web_service))
        inputs
        (some (str "{}"))
        start)
apply_manifest-Treated_example =
    apply_manifest-Treated codec (str "n1") nodes inputs (λ doc. some (service_object web_service))
      (some (str "{}")) start

delete_manifest-IsDeleted_example :
    let r = delete_manifest codec io io io broken (str "default") (str "web") with_service in
    ((r.1 ≡ done) × IsDeleted key with_service controller r.0)
    ⊎ StopsAtService broken key with_service r
delete_manifest-IsDeleted_example =
    delete_manifest-IsDeleted codec io io io broken (str "default") (str "web") with_service
      controller refl refl

abbrev stored_web : Deployment
stored_web = record {
  name = str "web";
  namespace = str "default";
  replicas = pos 1;
  desired_replicas = pos 1;
  pods = [];
  template = web.template;
  labels = [];
  selector = none;
}

abbrev with_web : Storage
with_web = record empty { deployments = (key, stored_web) ∷ []; last_modified = 7 }

with_web-IsState : IsState (get_state with_web)
unfolding get_state lookup
with_web-IsState = record { deployments = (refl, tt); services = tt; ingresses = tt; pods = tt }

merged_not_deleted_example :
    let merge = merge_state codec io (get_state with_web) empty [] in
    let s' = record start { agent = stored merge start.agent } in
    let r = delete_manifest codec io io io broken (str "default") (str "web") s' in
    (r.1 ≡ done) × (lookup key r.0.agent.storage.deployments ≡ some stored_web)
merged_not_deleted_example =
    merged_not_deleted codec io io io io broken (str "default") (str "web") (get_state with_web)
      start stored_web with_web-IsState (unfold get_state in omega arith)
      (unfold get_state lookup ◌==◌ in refl) (unfold lookup in refl) (unfold lookup in refl)
      (unfold lookup in refl)

abbrev recovering : State
recovering = record start { agent = record (start.agent) { storage = with_web } }

abbrev recovery_inputs : ℕ → Recovery.Inputs
recovery_inputs i = record { io = io; pods = pod_io }
