-- ===== src/Podman/Tests.antt =====
-- Concrete pods and logs: runs, and the theorems at inputs where their hypotheses hold.
use podman_swarm.Base.{◌≡◌, refl, inl, none, some, true, false, List, [], ◌∷◌, All, In, arith}
use podman_swarm.Base.Text.{str, ◌==◌}
use podman_swarm.Base.Int.{pos}
use podman_swarm.Base.Map.{insert}
use podman_swarm.Kube.{ContainerPort}
use podman_swarm.Types.{Pod, pending, failed}
use podman_swarm.Podman.{Client, spec_of, mount_of, env_of, get_pod_status, port_mapping}
use podman_swarm.Podman.Ports.{InRange, wanted, spec-ports}
use podman_swarm.Podman.Logs.{
  Event, out_line, err_line, out_end, err_end, get_logs, read, read_all, text_of, take_event,
}
use podman_swarm.Podman.Logs.Drain.{read_all-text_of}

abbrev http : ContainerPort
http = record { container_port = pos 80; host_port = pos 0; protocol = []; host_ip = [] }

abbrev web : Pod
web = record {
  id = str "c1";
  name = str "web-0";
  namespace = str "default";
  node_name = str "n1";
  state = pending;
  image = str "nginx";
  labels = [];
  annotations = [];
  ports = http ∷ [];
  env = [];
  volumes = [];
  node_selector = [];
  created_at = pos 0;
}

abbrev client : Client
client = record { dns_ip = str "10.0.0.1" }

spec-ports_example :
    All InRange (spec_of none (λ ip. some ip) client web).port_mappings
    × In (wanted http 80 0) (spec_of none (λ ip. some ip) client web).port_mappings
spec-ports_example =
    spec-ports none (λ ip. some ip) client web http 80 0 (inl refl) (refl, omega arith)
      (refl, omega arith)

-- A port that uint16 does not hold becomes another one.
port_wraps : (port_mapping (record http { container_port = pos 65616 })).container_port ≡ 80
unfolding port_mapping
port_wraps = refl

last_variable_wins :
    env_of
      (record { name = str "A"; value = str "1" } ∷ record { name = str "A"; value = str "2" } ∷ [])
      []
    ≡ (str "A", str "2") ∷ []
unfolding env_of insert ◌==◌
last_variable_wins = refl

read_only_mount :
    mount_of (record { name = []; mount_path = str "/data"; read_only = true }) ≡ record {
      type = str "bind";
      source = str "/data";
      destination = str "/data";
      options = str "ro" ∷ [];
    }
unfolding mount_of ◌==◌
read_only_mount = refl

exited_state :
    get_pod_status (some (some (record { status = str "exited"; exit_code = pos 137 })))
    ≡ (failed, false)
unfolding get_pod_status ◌==◌
exited_state = refl

abbrev events : List Event
events = out_line (str "up") ∷ err_line (str "hm") ∷ err_end ∷ out_line (str "ok") ∷ out_end ∷ []

logs_run : read_all 9 4 events get_logs ≡ some (str "up\nhm\nok\n")
unfolding read_all read take_event
logs_run = refl

read_all-text_of_example : read_all 20 1 events get_logs ≡ some (text_of events)
read_all-text_of_example =
    read_all-text_of 20 1 events (omega arith) (refl, (refl, (refl, (refl, (refl, refl)))))
      (omega arith)
