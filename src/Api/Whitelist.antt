-- ===== src/Api/Whitelist.antt =====
-- internal/api/api.go: the handlers of the DNS whitelist. `none` stands for a missing DNS server, and
-- for a body that does not bind.
pub mod Effects
use podman_swarm.Base.{
  Bool, true, false, Option, none, some, List, [], ◌∷◌, ◌++◌, any, keep, not, if◌then◌else◌,
}
use podman_swarm.Base.Text.{Text, str, ◌==◌}
use podman_swarm.Dns.{Server}
use podman_swarm.Dns.Hosts.{get_whitelist, set_whitelist}

-- The status of the answer, with what its body says.
pub data Answer : Type 0 where
  no_server bad_request host_required : Answer
  whitelist : Bool → List Text → Answer
  host_answer : Text → Answer

unfoldable pub get_dns_whitelist : Option Server → Answer
get_dns_whitelist none = no_server
get_dns_whitelist (some s) = let (enabled, hosts) = get_whitelist s in whitelist enabled hosts

unfoldable pub set_dns_whitelist :
    Option (Bool × List Text) → Option Server → Answer × Option Server
set_dns_whitelist body none = (no_server, none)
set_dns_whitelist none (some s) = (bad_request, some s)
set_dns_whitelist (some (enabled, hosts)) (some s) =
    (whitelist enabled hosts, some (set_whitelist enabled hosts s))

-- The host is appended unless it is present.
abbrev pub with_host : Text → List Text → List Text
with_host host hosts = if any (λ h. h == host) hosts then hosts else hosts ++ host ∷ []

abbrev pub add_host : Text → Server → Server
add_host host s =
    let (enabled, hosts) = get_whitelist s in set_whitelist enabled (with_host host hosts) s

unfoldable pub add_dns_whitelist_host : Option Text → Option Server → Answer × Option Server
add_dns_whitelist_host body none = (no_server, none)
add_dns_whitelist_host none (some s) = (bad_request, some s)
add_dns_whitelist_host (some host) (some s) =
    if host == str "" then (host_required, some s) else (host_answer host, some (add_host host s))

abbrev pub without_host : Text → List Text → List Text
without_host host hosts = keep (λ h. not (h == host)) hosts

abbrev pub remove_host : Text → Server → Server
remove_host host s =
    let (enabled, hosts) = get_whitelist s in set_whitelist enabled (without_host host hosts) s

unfoldable pub remove_dns_whitelist_host : Text → Option Server → Answer × Option Server
remove_dns_whitelist_host host none = (no_server, none)
remove_dns_whitelist_host host (some s) =
    if host == str ""
    then (host_required, some s)
    else (host_answer host, some (remove_host host s))
