-- ===== src/Dns/Forward.antt =====
-- Queries that go to the upstream servers: `forwardQuery` and the check of CNAME records.
pub mod Policy
pub mod Upstreams
use podman_swarm.Base.{
  ℕ, suc, Bool, true, false, Option, none, some, List, [], ◌∷◌, ◌++◌, ◌&&◌, ◌||◌, not, all, Result,
  ok, err, ◌==ℕ◌, if◌then◌else◌,
}
use podman_swarm.Base.Text.{Text}
use podman_swarm.Base.Map.{Map, lookup, insert}
use podman_swarm.Dns.{Server, Whitelist}
use podman_swarm.Dns.Names.{normalize}
use podman_swarm.Dns.Hosts.{is_host_allowed}
use podman_swarm.Dns.Messages.{
  Question, Msg, Dns, Net, udp, tcp, rcode_success, rcode_refused, rcode_server_failure,
}

abbrev pub query_name : List Question → Text
query_name [] = []
query_name (q ∷ qs) = q.name

module _ {Rr : Type 0} (d : Dns Rr) where
  -- The targets of the CNAME records of a section.
  pub cname_targets : List Rr → List Text
  cname_targets [] = []
  cname_targets (rr ∷ rrs) =
      let rest = cname_targets rrs in
      elim (d.cname_target rr) [ none ↦ rest | some target ↦ target ∷ rest ]

  -- One loop of extractCNAMETargets: what it appends, and what it has seen after it.
  pub extract_from : List Rr → Map Bool → List Text × Map Bool
  extract_from [] seen = ([], seen)
  extract_from (rr ∷ rrs) seen = elim (d.cname_target rr) [
    | none ↦ extract_from rrs seen
    | some target ↦ elim (lookup (normalize target) seen) [
      | none ↦
          let (targets, after) = extract_from rrs (insert (normalize target) true seen) in
          (normalize target ∷ targets, after)
      | some b ↦ extract_from rrs seen
    ]
  ]

  unfoldable pub extract_cname_targets : Msg Rr → List Text
  unfolding extract_from
  extract_cname_targets resp =
      let (targets, seen) = extract_from resp.answer [] in
      targets ++ (extract_from resp.extra seen).0

  unfoldable pub validate_cname_records : Whitelist → Msg Rr → Bool
  unfolding cname_targets extract_cname_targets
  validate_cname_records w resp =
      all (is_host_allowed w) (cname_targets resp.answer)
      && (all (is_host_allowed w) (cname_targets resp.extra)
          && all (is_host_allowed w) (extract_cname_targets resp))

  -- The i-th upstream over UDP, and over TCP when that fails.
  abbrev pub ask : ℕ → Text → Msg Rr → Result Text (Option (Msg Rr))
  ask i upstream r = elim (d.exchange i udp upstream r) [
    | ok resp ↦ ok resp
    | err e ↦ d.exchange i tcp upstream r
  ]

  -- Whether a response is passed on; if not, the next upstream is tried.
  abbrev pub is_accepted : Whitelist → Msg Rr → Bool
  is_accepted w resp =
      resp.rcode ==ℕ rcode_success && (not w.enabled || validate_cname_records w resp)

  -- The loop over the upstream servers, from the i-th on.
  pub try_upstreams : Whitelist → Msg Rr → ℕ → List Text → Msg Rr
  try_upstreams w r i [] = record (d.reply_to r) { rcode = rcode_server_failure }
  try_upstreams w r i (upstream ∷ upstreams) =
      let rest = try_upstreams w r (suc i) upstreams in
      elim (ask i upstream r) [
        | err e ↦ rest
        | ok none ↦ rest
        | ok (some resp) ↦ if is_accepted w resp then resp else rest
      ]

  -- The message that forwardQuery writes. The whitelist is the one in force throughout.
  unfoldable pub forward_query : Server → Msg Rr → Msg Rr
  unfolding try_upstreams
  forward_query s r =
      if s.whitelist.enabled && not (is_host_allowed s.whitelist (query_name r.questions))
      then record (d.reply_to r) { rcode = rcode_refused }
      else try_upstreams s.whitelist r 0 s.upstream_dns
