-- ===== src/Discovery/Messages.antt =====
-- How a change of the registry travels: `broadcastServiceUpdate` and `HandleServiceUpdate`. A message
-- is the JSON object that `map[string]interface{}` holds; a type assertion that fails is a panic.
pub mod Fields
pub mod Shape
pub mod Peers
use podman_swarm.Base.{
  arith, ℕ, ltb, ◌<◌, Bool, false, Option, none, some, [], ◌∷◌, Result, ok, err, if◌then◌else◌, ◌≡◌,
  ◌≢◌, refl, ap, ◌∙◌,
}
use podman_swarm.Base.Text.{Text, str, ◌==◌, eq_iff, eq_refl}
use podman_swarm.Base.Int.{ℤ, pos, negsuc}
use podman_swarm.Base.Map.{Map, lookup}
use podman_swarm.Cluster as Cluster
use podman_swarm.Cluster.{Sent, sent, refused}
use podman_swarm.Types.{Call, returns, panics, Node, Pod, Service}
use podman_swarm.Discovery.{
  ServiceEndpoint, Update, Registry, Error, bad_message, service_key, endpoint_id, endpoint_for,
  put_endpoint, remove_endpoint, register_service,
}

pub data Value : Type 0 where
  text : Text → Value
  number : ℤ → Value
  flag : Bool → Value
  other_value : Value

abbrev pub Message : Type 0
Message = Map Value

pub record Json : Type 0 where
  pub marshal : Message → Option Text
  pub unmarshal : Text → Option Message

unfoldable pub service_update : ServiceEndpoint → Text → ℕ → Message
service_update e action unix =
    (str "type", text (str "service_update"))
    ∷ (str "action", text action)
    ∷ (str "serviceName", text e.service_name)
    ∷ (str "namespace", text e.namespace)
    ∷ (str "podID", text e.pod_id)
    ∷ (str "podName", text e.pod_name)
    ∷ (str "nodeName", text e.node_name)
    ∷ (str "address", text e.address)
    ∷ (str "port", number e.port)
    ∷ (str "healthy", flag e.healthy)
    ∷ (str "timestamp", number (pos unix))
    ∷ []

-- An error of the broadcast is logged.
abbrev pub logged : Sent → Call
logged sent = returns
logged (refused e) = returns
logged Cluster.panicked = panics

-- broadcastServiceUpdate, with what the cluster's Broadcast does; an error of the encoding is logged.
unfoldable pub broadcast_service_update : Json → (Text → Sent) → ℕ → Update
broadcast_service_update j broadcast unix e action =
    elim (j.marshal (service_update e action unix)) [
      | none ↦ returns
      | some bytes ↦ logged (broadcast bytes)
    ]

abbrev as_text : Option Value → Option Text
as_text (some (text s)) = some s
as_text v = none

abbrev as_number : Option Value → Option ℤ
as_number (some (number n)) = some n
as_number v = none

abbrev as_flag : Option Value → Option Bool
as_flag (some (flag b)) = some b
as_flag v = none

abbrev is_service_update : Option Value → Bool
is_service_update (some (text s)) = s == str "service_update"
is_service_update v = false

infixl 5 ◌>>=◌
abbrev ◌>>=◌ {ℓ κ} : {A : Type ℓ} {B : Type κ} → Option A → (A → Option B) → Option B
none >>= k = none
some a >>= k = k a

-- `int32(v)` for a float64 that holds an integer: what is out of range becomes the least int32, as on
-- amd64; the language leaves it to the implementation.
unfoldable pub int_32 : ℤ → ℤ
int_32 (pos n) = if ltb n 2_147_483_648 then pos n else negsuc 2_147_483_647
int_32 (negsuc n) = if ltb n 2_147_483_648 then negsuc n else negsuc 2_147_483_647

abbrev pub IsInt32 : ℤ → Type 0
IsInt32 (pos n) = n < 2_147_483_648
IsInt32 (negsuc n) = n < 2_147_483_648

-- The type assertions of the handler.
unfoldable pub read_update : ℕ → Message → Option (Text × ServiceEndpoint)
read_update now m = do
  action ← as_text (lookup (str "action") m)
  service_name ← as_text (lookup (str "serviceName") m)
  namespace ← as_text (lookup (str "namespace") m)
  pod_id ← as_text (lookup (str "podID") m)
  pod_name ← as_text (lookup (str "podName") m)
  node_name ← as_text (lookup (str "nodeName") m)
  address ← as_text (lookup (str "address") m)
  port ← as_number (lookup (str "port") m)
  healthy ← as_flag (lookup (str "healthy") m)
  some (
    action,
    record {
      service_name = service_name;
      namespace = namespace;
      pod_id = pod_id;
      pod_name = pod_name;
      node_name = node_name;
      address = address;
      port = int_32 port;
      healthy = healthy;
      last_seen = now;
    },
  )

abbrev pub own_key : ServiceEndpoint → Text
own_key e = service_key e.service_name e.namespace

abbrev pub own_id : ServiceEndpoint → Text
own_id e = endpoint_id e.namespace e.service_name e.pod_id

unfoldable pub apply_update : Text → ServiceEndpoint → Registry → Registry
apply_update action e reg =
    if action == str "register"
    then put_endpoint (own_key e) (own_id e) e reg
    else if action == str "deregister"
    then remove_endpoint (own_key e) (own_id e) reg
    else reg

pub data Handled : Type 0 where
  returned : Result Error Registry → Handled
  panicked : Handled

abbrev applied : Option (Text × ServiceEndpoint) → Registry → Handled
applied none reg = panicked
applied (some (action, e)) reg = returned (ok (apply_update action e reg))

unfoldable pub handle_update : ℕ → Message → Registry → Handled
unfolding read_update
handle_update now m reg =
    if is_service_update (lookup (str "type") m)
    then applied (read_update now m) reg
    else returned (ok reg)

unfoldable pub handle_service_update : Json → ℕ → Text → Registry → Handled
unfolding handle_update
handle_service_update j now bytes reg = elim (j.unmarshal bytes) [
  | none ↦ returned (err bad_message)
  | some m ↦ handle_update now m reg
]
