-- ===== src/Dns/Hosts.antt =====
-- The whitelist of external hosts: `SetWhitelist`, `GetWhitelist` and `isHostAllowed`.
pub mod Domains
pub mod Coverage
pub mod Listing
use podman_swarm.Base.{
  Bool, true, false, Option, none, some, List, [], ◌∷◌, ◌++◌, ◌||◌, not, if◌then◌else◌,
}
use podman_swarm.Base.Text.{Text, str, ◌==◌}
use podman_swarm.Base.Text.Affix.{trim_suffix}
use podman_swarm.Base.Text.Split.{split, join}
use podman_swarm.Base.Map.{Map, lookup, insert}
use podman_swarm.Dns.{Whitelist, Server}
use podman_swarm.Dns.Names.{normalize}

-- The loop of SetWhitelist: each host without and with a trailing dot.
pub add_hosts : List Text → Map Bool → Map Bool
add_hosts [] m = m
add_hosts (host ∷ hosts) m =
    add_hosts hosts (insert (normalize host ++ str ".") true (insert (normalize host) true m))

unfoldable pub set_whitelist : Bool → List Text → Server → Server
unfolding add_hosts
set_whitelist enabled hosts s = record s {
  whitelist = record { enabled = enabled; hosts = add_hosts hosts [] };
}

-- The loop of GetWhitelist over the keys; `seen` is the list of what it has returned.
pub distinct_hosts : Map Bool → Map Bool → List Text
distinct_hosts [] seen = []
distinct_hosts ((host, b) ∷ hosts) seen =
    let name = trim_suffix host (str ".") in
    let old = distinct_hosts hosts seen in
    let new = name ∷ distinct_hosts hosts (insert name true seen) in
    elim (lookup name seen) [ none ↦ new | some b ↦ old ]

unfoldable pub get_whitelist : Server → Bool × List Text
unfolding distinct_hosts
get_whitelist s = (s.whitelist.enabled, distinct_hosts s.whitelist.hosts [])

-- s.whitelist.Hosts[key]: a missing key reads as false.
abbrev flag_of : Option Bool → Bool
flag_of none = false
flag_of (some b) = b

abbrev pub has_host : Text → Map Bool → Bool
has_host key m = flag_of (lookup key m)

abbrev pub has_domain : Text → Map Bool → Bool
has_domain domain m = has_host domain m || has_host (domain ++ str ".") m

-- The loop over the parent domains, `parts[i:]` for every i.
unfoldable pub has_parent : List Text → Map Bool → Bool
has_parent [] m = false
has_parent (p ∷ ps) m = has_domain (join b'.' (p ∷ ps)) m || has_parent ps m

unfoldable pub is_host_allowed : Whitelist → Text → Bool
is_host_allowed w query =
    let name = normalize query in
    if not w.enabled
    then true
    else if has_domain name w.hosts
    then true
    else has_parent (split b'.' name) w.hosts
