-- ===== src/Api/Sound/Deployments.antt =====
-- Applying and deleting a deployment, by the cache and the storage.
use podman_swarm.Base.{ℕ, ◌≡◌, refl, List, Result, ok, err, inl, inr, Option-cases}
use podman_swarm.Base.Text.{Text}
use podman_swarm.Base.Int.{rounds}
use podman_swarm.Base.Map.{lookup}
use podman_swarm.Kube.{DeploymentObject, deployment_object}
use podman_swarm.Types.{Deployment, Node}
use podman_swarm.Storage.{Storage, Disk, Codec, Io, save_deployment, object_key}
use podman_swarm.Storage.Commands.{put_deployment, drop_deployment, execute}
use podman_swarm.Storage.Commands.Invariant.{
  IsValid, insert-IsKeyed, delete-IsKeyed, execute-IsValid,
}
use podman_swarm.Parser as Parser
use podman_swarm.Parser.{parse_deployment}
use podman_swarm.Api.Deployments.{
  Agent, PodIo, Loop, settle, make_pods, apply_deployment, delete_cached_deployment,
}
use podman_swarm.Api.Start.{deployment_key}
use podman_swarm.Api.Sound.{IsAgent}

-- A deployment that has its pods goes under its key into both.
settle-IsAgent :
    (dep : Deployment) (s : Storage) (d : Disk) (loop : Loop) (a : Agent)
    → IsAgent a
    → IsValid s
    → IsAgent (settle dep s d loop a)
settle-IsAgent dep s d loop a h v =
    let done = record dep { pods = loop.made } in
    record {
      deployments = insert-IsKeyed deployment_key done a.deployments h.deployments;
      storage = record {
        deployments = insert-IsKeyed deployment_key done s.deployments v.deployments;
        services = v.services;
        ingresses = v.ingresses;
        pods = v.pods;
      };
    }

pub save_deployment-IsValid :
    (c : Codec) (io : Io) (dep : Deployment) (s : Storage) (d : Disk)
    → IsValid s
    → IsValid (save_deployment c io dep s d).storage
save_deployment-IsValid c io dep s d v =
    unfold execute in execute-IsValid c io (put_deployment dep) s d v

pub apply_deployment-IsAgent :
    (c : Codec) (io : Io) (local : Text) (nodes : List Node) (ios : ℕ → PodIo)
    (o : DeploymentObject) (a : Agent)
    → IsAgent a
    → IsAgent (apply_deployment c io local nodes ios o a).0
unfolding apply_deployment
apply_deployment-IsAgent c io local nodes ios o a h =
    by_parsed (parse_deployment (deployment_object o)) refl
  where
    by_parsed :
        (r : Result Parser.Error Deployment)
        → parse_deployment (deployment_object o) ≡ r
        → IsAgent (apply_deployment c io local nodes ios o a).0
    by_parsed (err e) p = rw (p, apply_deployment) h
    by_parsed (ok dep) p =
        let saved = save_deployment c io dep a.storage a.disk in
        rw (p, apply_deployment)
          (settle-IsAgent dep saved.storage saved.disk
            (make_pods local nodes ios dep 0 (rounds dep.desired_replicas) a.pods) a h
            (save_deployment-IsValid c io dep a.storage a.disk h.storage))

pub delete_cached_deployment-IsAgent :
    (c : Codec) (io : Io) (namespace name : Text) (a : Agent)
    → IsAgent a
    → IsAgent (delete_cached_deployment c io namespace name a)
unfolding delete_cached_deployment execute
delete_cached_deployment-IsAgent c io namespace name a h =
    let key = object_key namespace name in
    elim (Option-cases (lookup key a.deployments)) [
      | inl e ↦ rw (e, delete_cached_deployment) h
      | inr (dep, e) ↦
          rw (e, delete_cached_deployment)
            (record {
              deployments = delete-IsKeyed deployment_key key a.deployments h.deployments;
              storage =
                  execute-IsValid c io (drop_deployment namespace name) a.storage a.disk h.storage;
            })
    ]
