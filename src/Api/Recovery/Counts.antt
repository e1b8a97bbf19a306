-- ===== src/Api/Recovery/Counts.antt =====
-- How many pods a recovery makes.
use podman_swarm.Base.{ℕ, zero, suc, ◌+◌, ◌≤◌, ◌≡◌, some, List, [], ◌∷◌, length, Result, ok, err}
use podman_swarm.Base.Text.{Text}
use podman_swarm.Base.Int.{rounds}
use podman_swarm.Base.Map.{Map, lookup}
use podman_swarm.Types.{Deployment, Pod, Node}
use podman_swarm.Storage.{Codec}
use podman_swarm.Api.Deployments.{Agent, PodIo, Error, make_pod, template_pod}
use podman_swarm.Api.Recovery.{Inputs}
use podman_swarm.Api.State.{State}

-- The attempts at as many replicas, from the i-th on: each one in the table of pods that the one
-- before it left, whatever became of that one.
unfoldable pub attempts :
    Text → List Node → (ℕ → PodIo) → Deployment → ℕ → ℕ → Map Pod → List (Result Error Pod)
attempts local nodes ios dep i zero pods = []
attempts local nodes ios dep i (suc n) pods =
    let step = make_pod local nodes (ios i) (template_pod dep i) pods in
    step.result ∷ attempts local nodes ios dep (suc i) n step.pods

-- The pods of the attempts that succeeded, in order.
unfoldable pub successes : List (Result Error Pod) → List Pod
successes [] = []
successes (ok pod ∷ rs) = pod ∷ successes rs
successes (err e ∷ rs) = successes rs

-- How many attempts failed.
unfoldable pub errors : List (Result Error Pod) → ℕ
errors [] = 0
errors (ok pod ∷ rs) = errors rs
errors (err e ∷ rs) = suc (errors rs)

-- The deployment of a key stands in the cache and the storage with the pods of the attempts that
-- succeeded, which were one for each replica, and the failures are among those that are counted.
abbrev pub Restoration :
    Text → List Node → Text → Deployment → (ℕ → PodIo) → Map Pod → Agent → ℕ → Type 0
Restoration local nodes k dep ios pods a failures =
    let n = rounds dep.desired_replicas in
    let rs = attempts local nodes ios dep 0 n pods in
    (lookup k a.deployments ≡ some (record dep { pods = successes rs }))
    × (lookup k a.storage.deployments ≡ some (record dep { pods = successes rs }))
    × (length rs ≡ n)
    × (length (successes rs) + errors rs ≡ n)
    × (errors rs ≤ failures)

module _ (c : Codec) (local : Text) (nodes : List Node) (inputs : ℕ → Inputs) where
  abbrev Restored : Text → Deployment → Agent × ℕ → Type 0
  Restored k dep r =
      (i : ℕ) × (pods : Map Pod) × Restoration local nodes k dep (inputs i).pods pods r.0 r.1
