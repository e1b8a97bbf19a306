-- ===== src/Dns/Cluster/Resolution.antt =====
-- What a client of the cluster's DNS finds.
use podman_swarm.Base.{
  ℕ, ◌+◌, ◌<◌, ◌≡◌, inl, inr, refl, sym, ap, subst, ◌∙◌, true, Option, none, some, List, [], ◌∷◌,
  ◌++◌, keep, In, In-append_left, In-append_right, In-map, keep-In, ok, arith,
}
use podman_swarm.Base.Text.{Text, str, to_lower, to_lower-append, eq_refl}
use podman_swarm.Base.Text.Affix.{has_suffix-append, trim_suffix-append}
use podman_swarm.Base.Text.Split.{Free}
use podman_swarm.Base.Map.{Map, lookup, values, lookup-nil}
use podman_swarm.Base.Map.Distinct.{In-lookup}
use podman_swarm.Types.{Node, Pod, Service}
use podman_swarm.Discovery.Triples.{find_at-put}
use podman_swarm.Discovery.{
  ServiceEndpoint, Registry, service_key, endpoint_id, endpoint_for, Update, find_at,
  registered_endpoint, register_service, get_service_endpoints, is_fresh, stale_after,
}
use podman_swarm.Dns.{Server}
use podman_swarm.Dns.Names.{
  ServiceName, normalize, parse_service_name, is_cluster_name, is_cluster_domain_query,
}
use podman_swarm.Dns.Names.Forms.{fqdn, short_name, parse_fqdn}
use podman_swarm.Dns.Messages.{Question, Msg, Dns, type_a}
use podman_swarm.Dns.Cluster.{
  a_record, append_answer, add_a_records, handle_a_query, answer_question, answer_questions,
  handle_cluster_query, handle_dns,
}

module _ {Rr : Type 0} (d : Dns Rr) where
  append_answer-In :
      (o : Option Rr) (m : Msg Rr) (rr : Rr) → In rr m.answer → In rr (append_answer d o m).answer
  append_answer-In none m rr h = h
  append_answer-In (some x) m rr h = In-append_left m.answer (x ∷ []) rr h

  add_a_records-In :
      (name : Text) (es : List ServiceEndpoint) (m : Msg Rr) (rr : Rr)
      → In rr m.answer
      → In rr (add_a_records d name es m).answer
  unfolding add_a_records
  add_a_records-In name [] m rr h = h
  add_a_records-In name (e ∷ es) m rr h =
      let o = d.new_rr (a_record name e.address) in
      add_a_records-In name es (append_answer d o m) rr (append_answer-In o m rr h)

  add_a_records_of_In :
      (name : Text) (es : List ServiceEndpoint) (m : Msg Rr) (rr : Rr) (e : ServiceEndpoint)
      → In e es
      → d.new_rr (a_record name e.address) ≡ some rr
      → In rr (add_a_records d name es m).answer
  unfolding add_a_records
  add_a_records_of_In name [] m rr e h made = elim h [ ]
  add_a_records_of_In name (x ∷ es) m rr e (inl same) made =
      let o = d.new_rr (a_record name x.address) in
      let made' : o ≡ some rr = ap (λ y. d.new_rr (a_record name (y).address)) (sym same) ∙ made in
      add_a_records-In name es (append_answer d o m) rr (
        subst (λ y. In rr (append_answer d y m).answer) (sym made')
          (In-append_right m.answer (rr ∷ []) rr (inl refl)))
  add_a_records_of_In name (x ∷ es) m rr e (inr h) made =
      add_a_records_of_In name es (append_answer d (d.new_rr (a_record name x.address)) m) rr e h
        made

-- An endpoint of the registry is found while it is fresh.
fresh_endpoint :
    (later : ℕ) (name namespace id : Text) (reg : Registry) (e : ServiceEndpoint)
    → find_at (service_key name namespace) id reg ≡ some e
    → is_fresh later e ≡ true
    → (es : List ServiceEndpoint) × (get_service_endpoints later name namespace reg ≡ ok es)
      × In e es
unfolding get_service_endpoints
fresh_endpoint later name namespace id reg e at fresh = by_entry (lookup key reg) refl
  where
    key : Text
    key = service_key name namespace

    by_entry :
        (o : Option (Map ServiceEndpoint))
        → lookup key reg ≡ o
        → (es : List ServiceEndpoint) × (get_service_endpoints later name namespace reg ≡ ok es)
          × In e es
    by_entry none h = absurd (ground (arith, lookup-nil ServiceEndpoint id))
    by_entry (some m) h =
        let here : lookup id m ≡ some e = ground arith in
        (
          keep (is_fresh later) (values m),
          ground arith,
          keep-In (is_fresh later) (values m) e
              (In-map (λ (x : Text × ServiceEndpoint). x.1) m (id, e) (In-lookup id e m here))
              fresh,
        )

-- The server takes the name of a service for one of the cluster.
cluster_name :
    (domain name : Text)
    → to_lower domain ≡ domain
    → is_cluster_domain_query domain (fqdn domain name ∷ []) ≡ true
unfolding is_cluster_domain_query is_cluster_name
cluster_name domain name h =
    let low : normalize (fqdn domain name) ≡ to_lower name ++ (b'.' ∷ domain) =
      ap to_lower (trim_suffix-append (name ++ (b'.' ∷ domain)) (str "."))
      ∙ to_lower-append name (b'.' ∷ domain)
      ∙ ap (λ t. to_lower name ++ t) (unfold to_lower in ap (λ t. b'.' ∷ t) h) in
    ground (arith, has_suffix-append (to_lower name) (b'.' ∷ domain))

module _ {Rr : Type 0} (d : Dns Rr) where
  handle_dns-a :
      (s : Server) (now : ℕ) (reg : Registry) (r : Msg Rr) (name : Text)
      → to_lower s.cluster_domain ≡ s.cluster_domain
      → r.questions ≡ record { name = fqdn s.cluster_domain name; qtype = type_a } ∷ []
      → handle_dns d s now reg r
        ≡ handle_a_query d s now reg
            (record { name = fqdn s.cluster_domain name; qtype = type_a })
            (record (d.reply_to r) { authoritative = true })
  unfolding handle_dns handle_cluster_query answer_questions answer_question
  handle_dns-a s now reg r name low q =
      rw q (ground (arith, cluster_name s.cluster_domain name low))

  handle_a_query-found :
      (s : Server) (now : ℕ) (reg : Registry) (q : Question) (m : Msg Rr) (n : ServiceName)
      (es : List ServiceEndpoint)
      → parse_service_name s.cluster_domain q.name ≡ some n
      → get_service_endpoints now n.service n.namespace reg ≡ ok es
      → handle_a_query d s now reg q m ≡ add_a_records d q.name es m
  unfolding handle_a_query
  handle_a_query-found s now reg q m n es e f = ground arith

  -- An endpoint of the registry that is fresh is in the answer.
  pub endpoint_resolves :
      (s : Server) (later : ℕ) (service namespace id : Text) (reg : Registry) (r : Msg Rr) (rr : Rr)
      (e : ServiceEndpoint)
      → Free b'.' service
      → Free b'.' namespace
      → to_lower s.cluster_domain ≡ s.cluster_domain
      → find_at (service_key service namespace) id reg ≡ some e
      → is_fresh later e ≡ true
      → let name = fqdn s.cluster_domain (short_name service namespace) in
        r.questions ≡ record { name = name; qtype = type_a } ∷ []
        → d.new_rr (a_record name e.address) ≡ some rr
        → In rr (handle_dns d s later reg r).answer
  endpoint_resolves s later service namespace id reg r rr e hs hn low at fresh q made =
      let name = fqdn s.cluster_domain (short_name service namespace) in
      let reply = record (d.reply_to r) { authoritative = true } in
      let (es, found, here) = fresh_endpoint later service namespace id reg e at fresh in
      let parsed = parse_fqdn s.cluster_domain service namespace hs hn in
      subst (λ m. In rr m.answer)
        (sym (
          handle_dns-a s later reg r (short_name service namespace) low q
          ∙ handle_a_query-found s later reg (record { name = name; qtype = type_a }) reply
              (record { service = service; namespace = namespace }) es parsed found))
        (add_a_records_of_In d name es reply rr e here made)

  -- A pod that a node has registered for a service resolves: until thirty seconds later, the answer
  -- to an A query for service.namespace.domain. has a record with the address of the pod's node.
  -- Neither name has a dot, the cluster's domain is in lower case, and the library makes the record.
  pub registered_resolves :
      (s : Server) (update : Update) (nodes : Map Node) (now later : ℕ) (service : Service)
      (pod : Pod) (reg : Registry) (r : Msg Rr) (rr : Rr)
      → Free b'.' service.name
      → Free b'.' service.namespace
      → to_lower s.cluster_domain ≡ s.cluster_domain
      → later < now + stale_after
      → let name = fqdn s.cluster_domain (short_name service.name service.namespace) in
        r.questions ≡ record { name = name; qtype = type_a } ∷ []
        → d.new_rr (a_record name (endpoint_for nodes now service pod).address) ≡ some rr
        → In rr
            (handle_dns d s later (register_service update nodes now service pod reg).0 r).answer
  unfolding register_service endpoint_for
  registered_resolves s update nodes now later service pod reg r rr hs hn low soon q made =
      let key = service_key service.name service.namespace in
      let id = endpoint_id service.namespace service.name pod.id in
      endpoint_resolves s later service.name service.namespace id
        (registered_endpoint nodes now service pod reg) r rr (endpoint_for nodes now service pod) hs
        hn low
        (find_at-put key id key id (endpoint_for nodes now service pod) reg
          ∙ rw (eq_refl key, eq_refl id) refl)
        (ground arith) q made
