-- ===== src/Storage/Commands/Refinement.antt =====
-- The store implements the four tables.
use podman_swarm.Base.{◌≡◌, refl, ap, ◌∙◌, List, [], ◌∷◌, some, none}
use mathlib.Core.Path.{fun_ext}
use podman_swarm.Base.Text.{Text}
use podman_swarm.Base.Map.{Map, insert, delete, lookup, lookup-insert, lookup-delete}
use podman_swarm.Storage.{
  Storage, Codec, Io, Disk, object_key, save_deployment, delete_deployment, save_service,
  delete_service, save_ingress, delete_ingress, save_pod, delete_pod,
}
use podman_swarm.Storage.Commands.{
  Command, put_deployment, put_service, put_ingress, put_pod, drop_deployment, drop_service,
  drop_ingress, drop_pod, execute, run, view, write, apply, apply_all,
}

module _ {V : Type 0} where
  write-insert :
      (k : Text) (v : V) (m : Map V)
      → (λ j. lookup j (insert k v m)) ≡ write k (some v) (λ j. lookup j m)
  write-insert k v m = fun_ext (λ j. lookup-insert k j v m)

  write-delete :
      (k : Text) (m : Map V) → (λ j. lookup j (delete k m)) ≡ write k none (λ j. lookup j m)
  write-delete k m = fun_ext (λ j. lookup-delete k j m)

view-execute :
    (c : Codec) (io : Io) (cmd : Command) (s : Storage) (d : Disk)
    → view (execute c io cmd s d).storage ≡ apply cmd (view s)
unfolding execute apply save_deployment save_service save_ingress save_pod delete_deployment
    delete_service delete_ingress delete_pod
view-execute c io (put_deployment x) s d =
    ap (λ t. record (view s) { deployments = t })
      (write-insert (object_key x.namespace x.name) x s.deployments)
view-execute c io (put_service x) s d =
    ap (λ t. record (view s) { services = t })
      (write-insert (object_key x.namespace x.name) x s.services)
view-execute c io (put_ingress x) s d =
    ap (λ t. record (view s) { ingresses = t })
      (write-insert (object_key x.namespace x.name) x s.ingresses)
view-execute c io (put_pod x) s d =
    ap (λ t. record (view s) { pods = t }) (write-insert (object_key x.namespace x.name) x s.pods)
view-execute c io (drop_deployment n m) s d =
    ap (λ t. record (view s) { deployments = t }) (write-delete (object_key n m) s.deployments)
view-execute c io (drop_service n m) s d =
    ap (λ t. record (view s) { services = t }) (write-delete (object_key n m) s.services)
view-execute c io (drop_ingress n m) s d =
    ap (λ t. record (view s) { ingresses = t }) (write-delete (object_key n m) s.ingresses)
view-execute c io (drop_pod n m) s d =
    ap (λ t. record (view s) { pods = t }) (write-delete (object_key n m) s.pods)

-- After any history, whatever the disk answers, the `Get` methods read the tables that the
-- specification computes from the same commands.
pub view-run :
    (c : Codec) (cs : List (Io × Command)) (s : Storage) (d : Disk)
    → view (run c cs s d).0 ≡ apply_all cs (view s)
unfolding run apply_all
view-run c [] s d = refl
view-run c ((io, cmd) ∷ cs) s d =
    let o = execute c io cmd s d in
    view-run c cs o.storage o.disk ∙ ap (apply_all cs) (view-execute c io cmd s d)
