-- ===== src/Cluster/Tests.antt =====
-- Concrete clusters: the theorems at inputs where their hypotheses hold.
use podman_swarm.Base.{◌≡◌, refl, true, none, some, List, [], ◌∷◌, In}
use podman_swarm.Base.Text.{Text, str, ◌==◌}
use podman_swarm.Base.Map.{lookup, insert, delete}
use podman_swarm.Security.{Crypto}
use podman_swarm.Security.JoinTokens as Join
use podman_swarm.Security.Encryption.{Aead}
use podman_swarm.Cluster.{
  ClusterConfig, Event, joined, left, handle, handle_all, notify_join, notify_leave, ready_node,
  is_leader, new_cluster,
}
use podman_swarm.Cluster.Membership.{entry_after, lookup-handle_all}
use podman_swarm.Cluster.Leader.{one_leader}
use podman_swarm.Cluster.Admission.{Admits, any_base64_joins}

abbrev n1 : Text
n1 = str "n1"

abbrev events : List Event
events = joined n1 (str "10.0.0.1") ∷ joined (str "n2") (str "10.0.0.2") ∷ left (str "n2") ∷ []

one_left : handle_all events [] ≡ (n1, ready_node n1 (str "10.0.0.1")) ∷ []
unfolding handle_all handle notify_join notify_leave lookup insert delete ◌==◌
one_left = refl

lookup-handle_all_example : lookup n1 (handle_all events []) ≡ entry_after n1 events (lookup n1 [])
lookup-handle_all_example = lookup-handle_all n1 events []

-- A cipher that opens only what begins with a mark.
abbrev cipher : Aead
cipher = record {
  sha_256 = λ p. str "0123456789abcdef0123456789abcdef";
  nonce_size = 12;
  seal = λ key nonce p. b'+' ∷ p;
  open_sealed = λ key nonce c. elim c [ [] ↦ none | b ∷ p ↦ some p ];
}

one_leader_example :
    ((a : Text) × In a (n1 ∷ str "n2" ∷ []) × (is_leader (n1 ∷ str "n2" ∷ []) a ≡ true))
    × ((a b : Text)
        → In a (n1 ∷ str "n2" ∷ [])
        → In b (n1 ∷ str "n2" ∷ [])
        → is_leader (n1 ∷ str "n2" ∷ []) a ≡ true
        → is_leader (n1 ∷ str "n2" ∷ []) b ≡ true
        → a ≡ b)
one_leader_example = one_leader n1 (str "n2" ∷ [])

abbrev crypto : Crypto
crypto = record { encode_64 = λ b. b; decode_64 = λ b. some b; digest = λ b. b }

abbrev joiner : ClusterConfig
joiner = record {
  node_name = n1;
  bind_addr = str "10.0.0.1";
  join_addrs = str "10.0.0.2" ∷ [];
  join_token = str "guess";
  encryption_key = str "key";
  token_manager = some (Join.new_manager (str "s") []);
}

any_base64_joins_example :
    Admits cipher crypto joiner true (new_cluster cipher crypto 1 true [] [] joiner).0
any_base64_joins_example =
    any_base64_joins cipher crypto 1 true [] [] joiner (str "s") [] (λ e. cc) (λ e. cc) refl
