-- ===== src/Discovery/Messages/Shape.antt =====
-- The registry that a message leaves.
use podman_swarm.Base.{ℕ, Option, none, some, ok, err, inl, inr, Bool-cases}
use podman_swarm.Base.Text.{Text, str}
use podman_swarm.Base.Map.{lookup}
use podman_swarm.Discovery.{ServiceEndpoint, Registry, bad_message}
use podman_swarm.Discovery.Registry.{IsRegistry, operations-IsRegistry}
use podman_swarm.Discovery.Messages.{
  Json, Message, Handled, returned, panicked, handle_service_update, handle_update, applied,
  read_update, is_service_update,
}

-- A registry that the handler returns is well formed.
abbrev pub HandledWell : Handled → Type 0
HandledWell panicked = Unit {0}
HandledWell (returned (err e)) = Unit {0}
HandledWell (returned (ok reg)) = IsRegistry reg

applied-HandledWell :
    (o : Option (Text × ServiceEndpoint)) (reg : Registry)
    → IsRegistry reg
    → HandledWell (applied o reg)
applied-HandledWell none reg h = tt
applied-HandledWell (some (action, e)) reg h = (operations-IsRegistry reg h).2 action e

handle_update-HandledWell :
    (now : ℕ) (m : Message) (reg : Registry)
    → IsRegistry reg
    → HandledWell (handle_update now m reg)
unfolding handle_update
handle_update-HandledWell now m reg h =
    elim (Bool-cases (is_service_update (lookup (str "type") m))) [
      | inl e ↦ rw e (applied-HandledWell (read_update now m) reg h)
      | inr e ↦ rw e h
    ]

pub handle_service_update-HandledWell :
    (j : Json) (now : ℕ) (bytes : Text) (reg : Registry)
    → IsRegistry reg
    → HandledWell (handle_service_update j now bytes reg)
unfolding handle_service_update
handle_service_update-HandledWell j now bytes reg h = by_decoded (j.unmarshal bytes)
  where
    by_decoded :
        (o : Option Message)
        → HandledWell (elim o as (λ _. Handled) [
          | none ↦ returned (err bad_message)
          | some m ↦ handle_update now m reg
        ])
    by_decoded none = tt
    by_decoded (some m) = handle_update-HandledWell now m reg h
