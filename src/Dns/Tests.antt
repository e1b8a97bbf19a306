-- ===== src/Dns/Tests.antt =====
-- Concrete names, hosts and messages: the theorems at inputs where their hypotheses hold.
use podman_swarm.Base.{◌≡◌, ◌↔◌, ◌⊎◌, refl, true, false, some, [], ◌∷◌, ◌++◌, All, In, ok, arith}
use podman_swarm.Base.Text.{Text, str, ◌==◌, to_lower}
use podman_swarm.Base.Text.Affix.{has_suffix, trim_suffix}
use podman_swarm.Base.Text.Split.{Free, split, join}
use podman_swarm.Base.Int.{pos}
use podman_swarm.Base.Map.{Map, lookup, insert}
use podman_swarm.Types.{panics, Node, Pod, Service, running}
use podman_swarm.Discovery.{endpoint_for, register_service}
use podman_swarm.Dns.{Server, new_server}
use podman_swarm.Dns.Names.{normalize}
use podman_swarm.Dns.Names.Forms.{fqdn, short_name}
use podman_swarm.Dns.Hosts.{has_parent, set_whitelist, is_host_allowed}
use podman_swarm.Dns.Hosts.Domains.{Under}
use podman_swarm.Dns.Hosts.Coverage.{allowed_iff}
use podman_swarm.Dns.Messages.{Msg, Dns, rcode_success, rcode_refused, rcode_server_failure, type_a}
use podman_swarm.Dns.Forward.{query_name, cname_targets, forward_query}
use podman_swarm.Dns.Forward.Upstreams.{
  FirstAnswers, NoneAnswers, forward_query_lem, whitelist_holds,
}
use podman_swarm.Dns.Cluster.{a_record, handle_dns}
use podman_swarm.Dns.Cluster.Resolution.{registered_resolves}

abbrev domain : Text
domain = str "cluster.local"

web-Free : Free b'.' (str "web")
web-Free = (omega arith, (omega arith, (omega arith, tt)))

ns-Free : Free b'.' (str "ns")
ns-Free = (omega arith, (omega arith, tt))

abbrev server : Server
server = record (new_server domain (pos 53) (str "10.0.0.1") (str "1.1.1.1:53" ∷ [])) {
  cluster_domain = domain;
  upstream_dns = str "1.1.1.1:53" ∷ [];
}

abbrev listed : Server
listed = set_whitelist true (str "Example.com" ∷ []) server

undotted : has_suffix (normalize (str "Example.com")) (str ".") ≡ false
unfolding to_lower trim_suffix has_suffix ◌==◌
undotted = refl

query_undotted : has_suffix (normalize (str "api.example.com.")) (str ".") ≡ false
unfolding to_lower trim_suffix has_suffix ◌==◌
query_undotted = refl

allowed_iff_example : (is_host_allowed listed.whitelist (str "api.example.com.") ≡ true) ↔ (
    (h : Text) × In h (str "Example.com" ∷ [])
    × Under (normalize h) (normalize (str "api.example.com.")))
allowed_iff_example =
    allowed_iff server (str "Example.com" ∷ []) (str "api.example.com.") (undotted, tt)
      query_undotted

subdomain_allowed : is_host_allowed listed.whitelist (str "api.example.com.") ≡ true
unfolding is_host_allowed set_whitelist has_parent lookup insert to_lower trim_suffix has_suffix
    split join ◌==◌
subdomain_allowed = refl

other_refused : is_host_allowed listed.whitelist (str "badexample.com.") ≡ false
unfolding is_host_allowed set_whitelist has_parent lookup insert to_lower trim_suffix has_suffix
    split join ◌==◌
other_refused = refl

-- Records are their texts, and each is a CNAME with itself as the target; every upstream answers
-- with a CNAME to evil.org.
abbrev evil : Msg Text
evil = record {
  questions = [];
  rcode = 0;
  authoritative = false;
  answer = str "evil.org." ∷ [];
  extra = [];
}

abbrev dns : Dns Text
dns = record {
  cname_target = λ rr. some rr;
  reply_to = λ m. record m { answer = []; extra = []; rcode = 0 };
  new_rr = λ t. some t;
  nil_rr = [];
  exchange = λ i net upstream m. ok (some evil);
}

abbrev ask_for : Text → Msg Text
ask_for name = record {
  questions = record { name = name; qtype = type_a } ∷ [];
  rcode = 0;
  authoritative = false;
  answer = [];
  extra = [];
}

forward_query_lem_example :
    let r = ask_for (str "api.example.com.") in
    let reply = forward_query dns listed r in
    ((listed.whitelist.enabled ≡ true)
      × (is_host_allowed listed.whitelist (query_name r.questions) ≡ false)
      × (reply ≡ record (dns.reply_to r) { rcode = rcode_refused }))
    ⊎ ((is_host_allowed listed.whitelist (query_name r.questions) ≡ true)
        × (FirstAnswers dns listed.whitelist r 0 listed.upstream_dns reply
            ⊎ (NoneAnswers dns listed.whitelist r 0 listed.upstream_dns
                × (reply ≡ record (dns.reply_to r) { rcode = rcode_server_failure }))))
forward_query_lem_example = forward_query_lem dns listed (ask_for (str "api.example.com."))

enabled : listed.whitelist.enabled ≡ true
unfolding set_whitelist
enabled = refl

whitelist_holds_example :
    let r = ask_for (str "api.example.com.") in
    let reply = forward_query dns listed r in
    (reply ≡ record (dns.reply_to r) { rcode = rcode_refused })
    ⊎ ((reply ≡ record (dns.reply_to r) { rcode = rcode_server_failure })
        ⊎ ((is_host_allowed listed.whitelist (query_name r.questions) ≡ true)
            × (reply.rcode ≡ rcode_success)
            × All
                (λ t. is_host_allowed listed.whitelist t ≡ true)
                (cname_targets dns reply.answer ++ cname_targets dns reply.extra)))
whitelist_holds_example = whitelist_holds dns listed (ask_for (str "api.example.com.")) enabled

abbrev web : Service
web = record {
  name = str "web";
  namespace = str "ns";
  type = str "ClusterIP";
  selector = [];
  ports = pos 80 ∷ [];
  cluster_ip = [];
  labels = [];
}

abbrev web_0 : Pod
web_0 = record {
  id = str "c1";
  name = str "web-0";
  namespace = str "ns";
  node_name = str "n1";
  state = running;
  image = str "nginx";
  labels = [];
  annotations = [];
  ports = [];
  env = [];
  volumes = [];
  node_selector = [];
  created_at = pos 1;
}

abbrev nodes : Map Node
nodes =
    (
      str "n1",
      record { name = str "n1"; address = str "10.0.0.1"; status = str "ready"; labels = [] },
    )
    ∷ []

low : to_lower domain ≡ domain
unfolding to_lower
low = refl

registered_resolves_example :
    let name = fqdn domain (short_name (str "web") (str "ns")) in
    In
      (a_record name (endpoint_for nodes 5 web web_0).address)
      (handle_dns dns server 6
        (register_service (λ e action. panics) nodes 5 web web_0 []).0
        (ask_for name)).answer
registered_resolves_example =
    registered_resolves dns server (λ e action. panics) nodes 5 6 web web_0 []
      (ask_for (fqdn domain (short_name (str "web") (str "ns"))))
      (a_record (fqdn domain (short_name (str "web") (str "ns")))
        (endpoint_for nodes 5 web web_0).address)
      web-Free ns-Free low (omega arith) refl refl
