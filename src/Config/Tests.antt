-- ===== src/Config/Tests.antt =====
-- Concrete configurations: runs, and the theorems at inputs where their hypotheses hold.
use podman_swarm.Base.{◌≡◌, refl, false, none, some, [], ◌∷◌, ◌++◌, map, arith, if◌then◌else◌}
use podman_swarm.Base.Text.{str, ◌==◌}
use podman_swarm.Base.Text.Split.{join}
use podman_swarm.Base.Text.Space.{trim_space}
use podman_swarm.Base.Int.{pos, negsuc}
use podman_swarm.Config.{
  Environment, CommandLine, get_env_bool, get_env_int, scan_int, load, has_colon,
}
use podman_swarm.Config.Lists.{IsAddress, load-join}

abbrev env : Environment
env key =
    if key == str "DNS_PORT"
    then str "5353"
    else if key == str "TLS_SKIP_VERIFY"
    then str "TRUE"
    else []

abbrev line : CommandLine
line = record {
  text = λ flag.
      if flag == str "join"
      then some (str "a:1")
      else if flag == str "upstream-dns"
      then some (str "1.1.1.1,b:5")
      else none;
  number = λ flag. none;
  switch = λ flag. none;
}

port_from_environment : (load env line).dns_port ≡ pos 5353
unfolding load get_env_int scan_int ◌==◌
port_from_environment = refl

-- Only "true", "1" and "yes" are read as true.
capitals_are_false : (load env line).tls_skip_verify ≡ false
unfolding load get_env_bool ◌==◌
capitals_are_false = refl

scans : (scan_int (str " -12x") ≡ some (negsuc 11)) × (scan_int (str "9223372036854775808") ≡ none)
unfolding scan_int
scans = (refl, refl)

one : IsAddress (str "a:1")
unfolding trim_space
one = ((λ e. cc), (omega arith, (omega arith, (omega arith, tt))), refl)

bare : IsAddress (str "1.1.1.1")
unfolding trim_space
bare = (
  (λ e. cc),
  (
    omega arith,
    (omega arith, (omega arith, (omega arith, (omega arith, (omega arith, (omega arith, tt)))))),
  ),
  refl,
)

ported : IsAddress (str "b:5")
unfolding trim_space
ported = ((λ e. cc), (omega arith, (omega arith, (omega arith, tt))), refl)

load-join_example :
    ((load env line).join_addrs ≡ str "a:1" ∷ [])
    × ((load env line).upstream_dns
        ≡ map
            (λ addr. if has_colon addr then addr else addr ++ str ":53")
            (str "1.1.1.1" ∷ str "b:5" ∷ []))
load-join_example =
    load-join env line (str "a:1") (str "1.1.1.1") [] (str "b:5" ∷ []) (one, tt)
      (bare, (ported, tt)) (unfold ◌==◌ join in refl) (unfold ◌==◌ join in refl)
