-- ===== src/Storage/Commands/Invariant.antt =====
-- Keys stay distinct, and every object stands under the key of its own namespace and name.
use podman_swarm.Base.{◌≡◌, List, [], ◌∷◌, some, arith}
use podman_swarm.Base.Text.{Text, eq_iff}
use podman_swarm.Base.Map.{Map, insert, delete, lookup, lookup-insert, lookup-delete}
use podman_swarm.Base.Map.Distinct.{IsDistinct, insert-IsDistinct, delete-IsDistinct}
use podman_swarm.Types.{Deployment, Service, Ingress, Pod}
use podman_swarm.Storage.{
  empty, Storage, Codec, Io, Disk, object_key, save_deployment, delete_deployment, save_service,
  delete_service, save_ingress, delete_ingress, save_pod, delete_pod,
}
use podman_swarm.Storage.Commands.{
  Command, put_deployment, put_service, put_ingress, put_pod, drop_deployment, drop_service,
  drop_ingress, drop_pod, execute, run,
}

-- A table with distinct keys, each of them the one that `own` computes from the object.
pub record IsKeyed {V : Type 0} (own : V → Text) (m : Map V) : Type 0 where
  pub distinct : IsDistinct m
  pub keyed : (k : Text) (v : V) → lookup k m ≡ some v → k ≡ own v

module _ {V : Type 0} (own : V → Text) where
  pub insert-IsKeyed : (v : V) (m : Map V) → IsKeyed own m → IsKeyed own (insert (own v) v m)
  insert-IsKeyed v m h = record {
    distinct = insert-IsDistinct (own v) v m h.distinct;
    keyed = λ k w e. ground (arith, lookup-insert (own v) k v m, eq_iff (own v) k, h.keyed k w);
  }

  pub delete-IsKeyed : (k : Text) (m : Map V) → IsKeyed own m → IsKeyed own (delete k m)
  delete-IsKeyed k m h = record {
    distinct = delete-IsDistinct k m h.distinct;
    keyed = λ j w e. ground (arith, lookup-delete k j m, h.keyed j w);
  }

pub nil-IsKeyed : {V : Type 0} (own : V → Text) → IsKeyed own []
unfolding lookup
nil-IsKeyed own = record { distinct = tt; keyed = λ k v e. cc }

pub record IsValid (s : Storage) : Type 0 where
  pub deployments : IsKeyed (λ (x : Deployment). object_key x.namespace x.name) s.deployments
  pub services : IsKeyed (λ (x : Service). object_key x.namespace x.name) s.services
  pub ingresses : IsKeyed (λ (x : Ingress). object_key x.namespace x.name) s.ingresses
  pub pods : IsKeyed (λ (x : Pod). object_key x.namespace x.name) s.pods

pub empty-IsValid : IsValid empty
empty-IsValid = record {
  deployments = nil-IsKeyed _;
  services = nil-IsKeyed _;
  ingresses = nil-IsKeyed _;
  pods = nil-IsKeyed _;
}

pub execute-IsValid :
    (c : Codec) (io : Io) (cmd : Command) (s : Storage) (d : Disk)
    → IsValid s
    → IsValid (execute c io cmd s d).storage
unfolding execute save_deployment save_service save_ingress save_pod delete_deployment
    delete_service delete_ingress delete_pod
execute-IsValid c io (put_deployment x) s d v = record {
  deployments = insert-IsKeyed _ x s.deployments v.deployments;
  services = v.services;
  ingresses = v.ingresses;
  pods = v.pods;
}
execute-IsValid c io (put_service x) s d v = record {
  deployments = v.deployments;
  services = insert-IsKeyed _ x s.services v.services;
  ingresses = v.ingresses;
  pods = v.pods;
}
execute-IsValid c io (put_ingress x) s d v = record {
  deployments = v.deployments;
  services = v.services;
  ingresses = insert-IsKeyed _ x s.ingresses v.ingresses;
  pods = v.pods;
}
execute-IsValid c io (put_pod x) s d v = record {
  deployments = v.deployments;
  services = v.services;
  ingresses = v.ingresses;
  pods = insert-IsKeyed _ x s.pods v.pods;
}
execute-IsValid c io (drop_deployment n m) s d v = record {
  deployments = delete-IsKeyed _ (object_key n m) s.deployments v.deployments;
  services = v.services;
  ingresses = v.ingresses;
  pods = v.pods;
}
execute-IsValid c io (drop_service n m) s d v = record {
  deployments = v.deployments;
  services = delete-IsKeyed _ (object_key n m) s.services v.services;
  ingresses = v.ingresses;
  pods = v.pods;
}
execute-IsValid c io (drop_ingress n m) s d v = record {
  deployments = v.deployments;
  services = v.services;
  ingresses = delete-IsKeyed _ (object_key n m) s.ingresses v.ingresses;
  pods = v.pods;
}
execute-IsValid c io (drop_pod n m) s d v = record {
  deployments = v.deployments;
  services = v.services;
  ingresses = v.ingresses;
  pods = delete-IsKeyed _ (object_key n m) s.pods v.pods;
}

-- Any history of commands keeps the keys of each table distinct and every object under the key of
-- its own namespace and name, whatever the disk answers.
pub run-IsValid :
    (c : Codec) (cs : List (Io × Command)) (s : Storage) (d : Disk)
    → IsValid s
    → IsValid (run c cs s d).0
unfolding run
run-IsValid c [] s d v = v
run-IsValid c ((io, cmd) ∷ cs) s d v =
    let o = execute c io cmd s d in
    run-IsValid c cs o.storage o.disk (execute-IsValid c io cmd s d v)
