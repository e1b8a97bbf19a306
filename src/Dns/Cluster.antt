-- ===== src/Dns/Cluster.antt =====
-- Queries for names of the cluster: `handleDNS`, `handleClusterQuery` and the answers it collects.
pub mod Resolution
use podman_swarm.Base.{
  ℕ, ◌+◌, ◌%◌, zero, suc, Bool, true, false, Option, none, some, List, [], ◌∷◌, ◌++◌, map, Result,
  ok, err, ltb, ◌==ℕ◌, if◌then◌else◌,
}
use podman_swarm.Base.Text.{Text, str}
use podman_swarm.Base.Text.Decimal.{decimal, format_int}
use podman_swarm.Base.Int.{ℤ, pos}
use podman_swarm.Discovery.{ServiceEndpoint, Registry, get_service_endpoints}
use podman_swarm.Dns.{Server}
use podman_swarm.Dns.Names.{
  ServiceName, parse_service_name, SrvName, parse_srv_name, is_cluster_domain_query,
}
use podman_swarm.Dns.Messages.{Question, Msg, Dns, type_a, type_aaaa, type_srv}
use podman_swarm.Dns.Forward.{forward_query}

-- fmt.Sprintf("%s %d IN A %s", name, 60, address)
abbrev pub a_record : Text → Text → Text
a_record name address = name ++ str " 60 IN A " ++ address

module _ {Rr : Type 0} (d : Dns Rr) where
  abbrev pub append_answer : Option Rr → Msg Rr → Msg Rr
  append_answer none m = m
  append_answer (some rr) m = record m { answer = m.answer ++ rr ∷ [] }

  abbrev append_extra : Option Rr → Msg Rr → Msg Rr
  append_extra none m = m
  append_extra (some rr) m = record m { extra = m.extra ++ rr ∷ [] }

  unfoldable pub empty_answer : Question → Rr
  empty_answer q = elim (d.new_rr (q.name ++ str " 0 IN A 0.0.0.0")) [
    | none ↦ d.nil_rr
    | some rr ↦ rr
  ]

  -- The loop of handleAQuery over the endpoints.
  pub add_a_records : Text → List ServiceEndpoint → Msg Rr → Msg Rr
  add_a_records name [] m = m
  add_a_records name (e ∷ es) m =
      add_a_records name es (append_answer (d.new_rr (a_record name e.address)) m)

  unfoldable pub handle_a_query : Server → ℕ → Registry → Question → Msg Rr → Msg Rr
  unfolding add_a_records
  handle_a_query s now reg q m = elim (parse_service_name s.cluster_domain q.name) [
    | none ↦ m
    | some n ↦ elim (get_service_endpoints now n.service n.namespace reg) [
      | err e ↦ m
      | ok endpoints ↦ add_a_records q.name endpoints m
    ]
  ]

  -- The port of the first endpoint.
  abbrev target_port : List ServiceEndpoint → ℤ
  target_port [] = pos 0
  target_port (e ∷ es) = e.port

  -- fmt.Sprintf("%s %d IN SRV %d %d %d %s", name, 60, priority, weight, port, target)
  abbrev pub srv_record : Text → ℕ → ℕ → ℤ → Text → Text
  srv_record name priority weight port target =
      name
      ++ str " 60 IN SRV "
      ++ decimal priority
      ++ str " "
      ++ decimal weight
      ++ str " "
      ++ format_int port
      ++ str " "
      ++ target

  -- The loop of handleSRVQuery from the i-th endpoint on; the priority is a uint16. An SRV record
  -- that fails skips the rest of the round.
  add_srv_records : Text → Text → ℤ → ℕ → ℕ → List ServiceEndpoint → Msg Rr → Msg Rr
  add_srv_records name target port i priority [] m = m
  add_srv_records name target port i priority (e ∷ es) m =
      elim (d.new_rr (srv_record name priority 10 port target)) [
        | none ↦ add_srv_records name target port (suc i) priority es m
        | some rr ↦
            add_srv_records name target port (suc i)
              (if ltb 0 i then (priority + 10) % 65536 else priority) es
              (append_extra (d.new_rr (a_record target e.address)) (append_answer (some rr) m))
      ]

  unfoldable pub handle_srv_query : Server → ℕ → Registry → Question → Msg Rr → Msg Rr
  unfolding add_srv_records
  handle_srv_query s now reg q m = elim (parse_srv_name s.cluster_domain q.name) [
    | none ↦ m
    | some n ↦ elim (get_service_endpoints now n.service n.namespace reg) [
      | err e ↦ m
      | ok endpoints ↦
          let target =
            n.service ++ str "." ++ n.namespace ++ str "." ++ s.cluster_domain ++ str "." in
          add_srv_records q.name target (target_port endpoints) 0 10 endpoints m
    ]
  ]

  -- The switch over the question's type; IPv6 and the other types share the empty answer.
  unfoldable pub answer_question : Server → ℕ → Registry → Question → Msg Rr → Msg Rr
  unfolding empty_answer handle_a_query handle_srv_query
  answer_question s now reg q m =
      if q.qtype ==ℕ type_a
      then handle_a_query s now reg q m
      else if q.qtype ==ℕ type_srv
      then handle_srv_query s now reg q m
      else append_answer (some (empty_answer q)) m

  pub answer_questions : Server → ℕ → Registry → List Question → Msg Rr → Msg Rr
  answer_questions s now reg [] m = m
  answer_questions s now reg (q ∷ qs) m =
      answer_questions s now reg qs (answer_question s now reg q m)

  -- The message that handleClusterQuery writes.
  unfoldable pub handle_cluster_query : Server → ℕ → Registry → Msg Rr → Msg Rr
  unfolding answer_questions
  handle_cluster_query s now reg r =
      answer_questions s now reg r.questions (record (d.reply_to r) { authoritative = true })

  unfoldable pub handle_dns : Server → ℕ → Registry → Msg Rr → Msg Rr
  handle_dns s now reg r =
      if is_cluster_domain_query s.cluster_domain (map (λ q. q.name) r.questions)
      then handle_cluster_query s now reg r
      else forward_query d s r
