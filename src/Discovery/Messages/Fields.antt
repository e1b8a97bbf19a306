-- ===== src/Discovery/Messages/Fields.antt =====
-- A field that the handler reads is missing.
use podman_swarm.Base.{arith, ℕ, ◌≡◌, none, List, [], ◌∷◌, In}
use podman_swarm.Base.Text.{Text, str}
use podman_swarm.Base.Map.{lookup}
use podman_swarm.Discovery.Messages.{Message, read_update}

-- The fields that the handler reads of an update.
abbrev pub fields : List Text
fields =
    str "action"
    ∷ str "serviceName"
    ∷ str "namespace"
    ∷ str "podID"
    ∷ str "podName"
    ∷ str "nodeName"
    ∷ str "address"
    ∷ str "port"
    ∷ str "healthy"
    ∷ []

-- Whatever the fields before it hold.
pub unread :
    (now : ℕ) (m : Message) (name : Text)
    → In name fields
    → lookup name m ≡ none
    → read_update now m ≡ none
unfolding read_update
unread now m name i h = ground arith
