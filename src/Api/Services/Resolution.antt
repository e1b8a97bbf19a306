-- ===== src/Api/Services/Resolution.antt =====
-- From applying a service to the answers of the DNS server.
use podman_swarm.Base.{
  ℕ, suc, ◌+◌, ◌<◌, ◌≡◌, inl, inr, refl, ap, sym, subst, ◌∙◌, true, some, [], ◌∷◌, ◌++◌, List, In,
  Bool-cases, arith,
}
use podman_swarm.Base.Text.{to_lower, eq_refl}
use podman_swarm.Base.Text.Split.{Free}
use podman_swarm.Base.Map.{Map}
use podman_swarm.Kube.{ServiceObject}
use podman_swarm.Types.{Node, Pod, Service, Call, returns, panics}
use podman_swarm.Storage.{Codec, Io}
use podman_swarm.Scheduler.{get_all_pods}
use podman_swarm.Discovery.{
  Registry, Update, register_service, registered_endpoint, endpoint_for, endpoint_id, is_fresh,
  stale_after,
}
use podman_swarm.Dns.{Server}
use podman_swarm.Dns.Messages.{Msg, Dns, type_a}
use podman_swarm.Dns.Names.Forms.{fqdn, short_name}
use podman_swarm.Dns.Cluster.{a_record, handle_dns}
use podman_swarm.Dns.Cluster.Resolution.{endpoint_resolves}
use podman_swarm.Api.Services.{matches_selector, register_all, then_call, apply_service}
use podman_swarm.Api.Services.Endpoints.{parsed, endpoint_of, endpoint_of-register}
use podman_swarm.Api.Services.Runs.{announced, Quiet, register_all-entry}
use podman_swarm.Parser.{parse_service}
use podman_swarm.Api.State.{State}

-- No other pod of the list has the id.
abbrev pub Sole : Pod → List Pod → Type 0
Sole pod pods = (p : Pod) → In p pods → p.id ≡ pod.id → p ≡ pod

is_fresh-endpoint_for :
    (nodes : Map Node) (t later : ℕ) (o : ServiceObject) (p : Pod)
    → later < t + stale_after
    → is_fresh later (endpoint_for nodes t (parsed o) p) ≡ true
unfolding endpoint_for
is_fresh-endpoint_for nodes t later o p h = ground arith

-- What stands under the pod's id once the loop has got past it: an endpoint of that pod. The broadcasts
-- for the pods before it return.
registered_past :
    (updates : ℕ → Update) (nodes : Map Node) (clock : ℕ → ℕ) (svc : Service) (pod : Pod)
    (before after : List Pod) (i : ℕ) (reg : Registry)
    → Sole pod after
    → matches_selector pod.labels svc.selector ≡ true
    → Quiet updates nodes clock svc i before
    → (j : ℕ) × (endpoint_of svc pod.id
          (register_all updates nodes clock i svc (before ++ (pod ∷ after)) reg).0
        ≡ some (endpoint_for nodes (clock j) svc pod))
unfolding register_all register_service
registered_past updates nodes clock svc pod [] after i reg sole sel quiet =
    subst
      (λ (r : Registry × Call).
        (j : ℕ) × (endpoint_of svc pod.id r.0 ≡ some (endpoint_for nodes (clock j) svc pod)))
      (sym taken) (by_call (announced updates nodes clock svc i pod))
  where
    reg' : Registry
    reg' = registered_endpoint nodes (clock i) svc pod reg

    taken :
        register_all updates nodes clock i svc (pod ∷ after) reg
        ≡ then_call
            (register_service (updates i) nodes (clock i) svc pod reg)
            (λ next. register_all updates nodes clock (suc i) svc after next)
    taken = rw (sel, register_all) refl

    put : endpoint_of svc pod.id reg' ≡ some (endpoint_for nodes (clock i) svc pod)
    put = endpoint_of-register nodes (clock i) svc pod pod.id reg ∙ rw (eq_refl pod.id) refl

    by_call :
        (call : Call)
        → (j : ℕ) × (endpoint_of svc pod.id
              (then_call
                (reg', call)
                (λ next. register_all updates nodes clock (suc i) svc after next)).0
            ≡ some (endpoint_for nodes (clock j) svc pod))
    by_call panics = (i, put)
    by_call returns = elim (register_all-entry updates nodes clock svc (suc i) after pod.id reg') [
      | inl (p, j, (m, _, same), at) ↦
          (j, at ∙ ap (λ p. some (endpoint_for nodes (clock j) svc p)) (sole p m same))
      | inr at ↦ (i, at ∙ put)
    ]
registered_past updates nodes clock svc pod (p ∷ before) after i reg sole sel (q, quiet) =
    elim (Bool-cases (matches_selector p.labels svc.selector)) [
      | inr out ↦
          rw (out, register_all)
            (registered_past updates nodes clock svc pod before after (suc i) reg sole sel quiet)
      | inl on ↦
          rw (on, register_all)
            (rw (q on) (
              registered_past updates nodes clock svc pod before after (suc i)
                (registered_endpoint nodes (clock i) svc p reg) sole sel quiet))
    ]

-- Once a service has been applied, a pod that it selects resolves by the service's name, if the
-- broadcasts of the selected pods before it in the scheduler's table return, whatever its own and
-- those behind it do: until thirty seconds after the registrations, the answer to an A query for
-- service.namespace.domain. has a record with the address of the pod's node. No pod behind it has the
-- pod's id, neither name has a dot, the cluster's domain is in lower case, and the library makes the
-- record.
pub applied_resolves :
    {Rr : Type 0} (d : Dns Rr) (server : Server) (c : Codec) (io : Io) (updates : ℕ → Update)
    (nodes : Map Node) (clock : ℕ → ℕ) (later : ℕ) (o : ServiceObject) (s : State)
    (before after : List Pod) (pod : Pod) (r : Msg Rr) (rr : Rr)
    → get_all_pods s.agent.pods ≡ before ++ (pod ∷ after)
    → Sole pod after
    → Quiet updates nodes clock (parsed o) 0 before
    → matches_selector pod.labels o.selector ≡ true
    → ((i : ℕ) → later < clock i + stale_after)
    → Free b'.' o.name
    → Free b'.' o.namespace
    → to_lower server.cluster_domain ≡ server.cluster_domain
    → let name = fqdn server.cluster_domain (short_name o.name o.namespace) in
      r.questions ≡ record { name = name; qtype = type_a } ∷ []
      → d.new_rr (a_record name (endpoint_for nodes later (parsed o) pod).address) ≡ some rr
      → In rr
          (handle_dns d server later
            (apply_service c io updates nodes clock o s).0.registry
            r).answer
unfolding endpoint_for apply_service parse_service
applied_resolves d server c io updates nodes clock later o s before after pod r rr at sole quiet sel
      soon hs hn low q made =
    let svc = parsed o in
    let pods = get_all_pods s.agent.pods in
    let (i, entry) =
      registered_past updates nodes clock svc pod before after 0 s.registry sole sel quiet in
    endpoint_resolves d server later o.name o.namespace (endpoint_id o.namespace o.name pod.id)
      (register_all updates nodes clock 0 svc pods s.registry).0 r rr
      (endpoint_for nodes (clock i) svc pod) hs hn low
      (ap (λ ps. endpoint_of svc pod.id (register_all updates nodes clock 0 svc ps s.registry).0) at
        ∙ entry)
      (is_fresh-endpoint_for nodes (clock i) later o pod (soon i)) q made
