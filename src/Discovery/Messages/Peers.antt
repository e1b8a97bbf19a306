-- ===== src/Discovery/Messages/Peers.antt =====
-- What a node does with the messages of another.
use podman_swarm.Base.{arith, ℕ, Option, none, some, ok, ◌≡◌, ◌≢◌, refl, ap, ◌∙◌}
use podman_swarm.Base.Text.{Text, str, ◌==◌, eq_iff}
use podman_swarm.Base.Map.{Map, lookup}
use podman_swarm.Base.Int.{ℤ, pos, negsuc}
use podman_swarm.Types.{Node, Pod, Service}
use podman_swarm.Cluster.{Sent}
use podman_swarm.Discovery.{
  ServiceEndpoint, Registry, service_key, endpoint_id, endpoint_for, remove_endpoint,
  registered_endpoint,
}
use podman_swarm.Discovery.Messages.{
  Value, broadcast_service_update, logged, Message, Json, service_update, int_32, IsInt32, applied,
  read_update, apply_update, handle_update, handle_service_update, text, returned, panicked,
}

-- The encoding of a message decodes to that message.
abbrev pub RoundTrips : Json → Message → Type 0
RoundTrips j m = (b : Text) → j.marshal m ≡ some b → j.unmarshal b ≡ some m

int_32_lem : (p : ℤ) → IsInt32 p → int_32 p ≡ p
unfolding int_32
int_32_lem (pos n) h = ground arith
int_32_lem (negsuc n) h = ground arith

read-service_update :
    (e : ServiceEndpoint) (action : Text) (unix now : ℕ)
    → IsInt32 e.port
    → read_update now (service_update e action unix) ≡ some (action, record e { last_seen = now })
unfolding read_update service_update lookup ◌==◌
read-service_update e action unix now fits =
    ap (λ p. some (action, record e { last_seen = now; port = p })) (int_32_lem e.port fits)

handle-service_update :
    (e : ServiceEndpoint) (action : Text) (unix now : ℕ) (reg : Registry)
    → IsInt32 e.port
    → handle_update now (service_update e action unix) reg
      ≡ returned (ok (apply_update action (record e { last_seen = now }) reg))
unfolding handle_update service_update lookup ◌==◌
handle-service_update e action unix now reg fits =
    ap (λ o. applied o reg) (read-service_update e action unix now fits)

handle-bytes :
    (j : Json) (now : ℕ) (m : Message) (bytes : Text) (reg : Registry)
    → RoundTrips j m
    → j.marshal m ≡ some bytes
    → handle_service_update j now bytes reg ≡ handle_update now m reg
unfolding handle_service_update
handle-bytes j now m bytes reg faithful e = rw (faithful bytes e, handle_service_update) refl

register-endpoint :
    (nodes : Map Node) (registered now : ℕ) (service : Service) (pod : Pod) (reg : Registry)
    → apply_update
        (str "register")
        (record (endpoint_for nodes registered service pod) { last_seen = now })
        reg
      ≡ registered_endpoint nodes now service pod reg
unfolding apply_update endpoint_for ◌==◌
register-endpoint nodes registered now service pod reg = refl

deregister-endpoint :
    (nodes : Map Node) (registered now : ℕ) (service : Service) (pod : Pod) (reg : Registry)
    → apply_update
        (str "deregister")
        (record (endpoint_for nodes registered service pod) { last_seen = now })
        reg
      ≡ remove_endpoint
          (service_key service.name service.namespace)
          (endpoint_id service.namespace service.name pod.id)
          reg
unfolding apply_update endpoint_for ◌==◌
deregister-endpoint nodes registered now service pod reg = refl

pub broadcast_service_update-marshal :
    (j : Json) (broadcast : Text → Sent) (unix : ℕ) (e : ServiceEndpoint) (action bytes : Text)
    → j.marshal (service_update e action unix) ≡ some bytes
    → broadcast_service_update j broadcast unix e action ≡ logged (broadcast bytes)
unfolding broadcast_service_update
broadcast_service_update-marshal j broadcast unix e action bytes at =
    rw (at, broadcast_service_update) refl

pub peer_registered :
    (j : Json) (nodes : Map Node) (registered unix now : ℕ) (service : Service) (pod : Pod)
    (bytes : Text) (peer : Registry)
    → let e = endpoint_for nodes registered service pod in
      RoundTrips j (service_update e (str "register") unix)
      → IsInt32 e.port
      → j.marshal (service_update e (str "register") unix) ≡ some bytes
      → handle_service_update j now bytes peer
        ≡ returned (ok (registered_endpoint nodes now service pod peer))
peer_registered j nodes registered unix now service pod bytes peer faithful fits sent =
    let e = endpoint_for nodes registered service pod in
    handle-bytes j now (service_update e (str "register") unix) bytes peer faithful sent
    ∙ handle-service_update e (str "register") unix now peer fits
    ∙ ap (λ reg. returned (ok reg)) (register-endpoint nodes registered now service pod peer)

-- A node that handles the message of a registration puts the endpoint that was registered into its
-- own registry, under the same two keys, seen at its own time; the message of a deregistration
-- removes it. Both messages are encoded without error, into bytes that decode to them.
peer-register :
    (j : Json) (nodes : Map Node) (registered unix now : ℕ) (service : Service) (pod : Pod)
    (bytes bytes' : Text) (peer : Registry)
    → let e = endpoint_for nodes registered service pod in
      RoundTrips j (service_update e (str "register") unix)
      → RoundTrips j (service_update e (str "deregister") unix)
      → IsInt32 e.port
      → j.marshal (service_update e (str "register") unix) ≡ some bytes
      → j.marshal (service_update e (str "deregister") unix) ≡ some bytes'
      → (handle_service_update j now bytes peer
          ≡ returned (ok (registered_endpoint nodes now service pod peer)))
        × (handle_service_update j now bytes' peer
            ≡ returned (
                ok (
                  remove_endpoint
                    (service_key service.name service.namespace)
                    (endpoint_id service.namespace service.name pod.id)
                    peer)))
peer-register j nodes registered unix now service pod bytes bytes' peer faithful faithful' fits sent
      sent' =
    let e = endpoint_for nodes registered service pod in
    (
      peer_registered j nodes registered unix now service pod bytes peer faithful fits sent,
      handle-bytes j now (service_update e (str "deregister") unix) bytes' peer faithful' sent'
          ∙ handle-service_update e (str "deregister") unix now peer fits
          ∙ ap (λ reg. returned (ok reg))
              (deregister-endpoint nodes registered now service pod peer),
    )

pub handle_update-other :
    (now : ℕ) (m : Message) (reg : Registry)
    → lookup (str "type") m ≢ some (text (str "service_update"))
    → handle_update now m reg ≡ returned (ok reg)
unfolding handle_update
handle_update-other now m reg other = by_type (lookup (str "type") m) refl
  where
    by_type :
        (o : Option Value) → lookup (str "type") m ≡ o → handle_update now m reg ≡ returned (ok reg)
    by_type (some (text s)) e = ground (arith, eq_iff s (str "service_update"), other)
    by_type _ e = rw (e, handle_update) refl

pub handle_update-missing :
    (now : ℕ) (m : Message) (reg : Registry)
    → lookup (str "type") m ≡ some (text (str "service_update"))
    → read_update now m ≡ none
    → handle_update now m reg ≡ panicked
unfolding handle_update ◌==◌
handle_update-missing now m reg e missing = rw (e, handle_update) (rw missing refl)
