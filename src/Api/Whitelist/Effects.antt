-- ===== src/Api/Whitelist/Effects.antt =====
-- What the handlers do to the answers of the DNS server.
use podman_swarm.Base.{
  Bool, false, ◌≢◌, ◌≡◌, inl, inr, refl, sym, ap, subst, true, some, List, [], ◌∷◌, ◌++◌, any, In,
  In-append_right, In-any, Bool-cases, if◌then◌else◌, arith,
}
use podman_swarm.Base.Text.{to_lower, str, Text, ◌==◌, eq_iff}
use podman_swarm.Dns.{Server}
use podman_swarm.Dns.Names.{normalize}
use podman_swarm.Dns.Hosts.Listing.{IsLower, get_whitelist-IsLower}
use podman_swarm.Dns.Hosts.{set_whitelist, get_whitelist, is_host_allowed}
use podman_swarm.Dns.Hosts.Domains.{Under}
use podman_swarm.Dns.Hosts.Coverage.{allowed_of_listed}
use podman_swarm.Api.Whitelist.{
  without_host, remove_dns_whitelist_host, with_host, add_host, host_answer, add_dns_whitelist_host,
}

In-with_host : (host : Text) (hosts : List Text) → In host (with_host host hosts)
In-with_host host hosts = elim (Bool-cases (any (λ h. h == host) hosts)) [
  | inl e ↦
      let (h, m, same) = In-any (λ h. h == host) hosts e in
      subst (In host) (ap (λ b. if b then hosts else hosts ++ host ∷ []) (sym e))
        (subst (λ x. In x hosts) ((eq_iff h host).0 same) m)
  | inr e ↦
      subst (In host) (ap (λ b. if b then hosts else hosts ++ host ∷ []) (sym e))
        (In-append_right hosts (host ∷ []) host (inl refl))
]

-- After a host was added, the DNS server allows it and all its subdomains, whether or not the
-- whitelist is on and whatever stood on it.
added_host_allowed :
    (host query : Text) (s s' : Server)
    → add_dns_whitelist_host (some host) (some s) ≡ (host_answer host, some s')
    → Under (normalize host) (normalize query)
    → is_host_allowed s'.whitelist query ≡ true
unfolding add_dns_whitelist_host
added_host_allowed host query s s' e under =
    let same : add_host host s ≡ s' = ground arith in
    let (enabled, hosts) = get_whitelist s in
    subst (λ (x : Server). is_host_allowed x.whitelist query ≡ true) same
      (allowed_of_listed enabled s (with_host host hosts) query host (In-with_host host hosts)
        under)

nothing_removed :
    (host : Text) (hosts : List Text)
    → ((h : Text) → In h hosts → h ≢ host)
    → without_host host hosts ≡ hosts
nothing_removed host [] n = refl
nothing_removed host (h ∷ hosts) n =
    ground (arith, nothing_removed host hosts (λ x m. n x (inr m)), n h (inl refl), eq_iff h host)

-- Removing a host that is written with a capital letter is answered with success and removes
-- nothing, as the whitelist holds its hosts in lower case: the hosts that stood on it are set again.
capital_not_removed :
    (enabled : Bool) (hosts : List Text) (host : Text) (s : Server)
    → to_lower host ≢ host
    → let before = set_whitelist enabled hosts s in
      remove_dns_whitelist_host host (some before) ≡ (
        host_answer host,
        some (set_whitelist (get_whitelist before).0 (get_whitelist before).1 before),
      )
unfolding remove_dns_whitelist_host
capital_not_removed enabled hosts host s n =
    let before = set_whitelist enabled hosts s in
    let same =
      nothing_removed host (get_whitelist before).1
        (λ h m e. n (subst IsLower e (get_whitelist-IsLower enabled hosts s h m))) in
    let named : (host == str "") ≡ false = elim (Bool-cases (host == str "")) [
      | inl e ↦
          let empty : IsLower [] = unfold to_lower in refl in
          absurd (n (subst IsLower (sym ((eq_iff host []).0 e)) empty))
      | inr e ↦ e
    ] in
    ground (arith, ap (λ l. set_whitelist (get_whitelist before).0 l before) same)
