-- ===== src/Config.antt =====
-- internal/config/config.go: the configuration, from the command line, the environment and defaults.
pub mod Lists
mod Tests
use podman_swarm.Base.{
  ℕ, zero, suc, ◌+◌, ◌-◌, ◌*◌, Bool, true, false, Option, none, some, List, [], ◌∷◌, ◌++◌, ◌&&◌,
  ◌||◌, map, any, leb, ◌==ℕ◌, if◌then◌else◌,
}
use podman_swarm.Base.Text.{Text, str, ◌==◌}
use podman_swarm.Base.Text.Split.{split}
use podman_swarm.Base.Text.Space.{trim_space, is_space}
use podman_swarm.Base.Int.{ℤ, pos, negsuc}

pub record Config : Type 0 where
  pub node_name : Text
  pub bind_addr : Text
  pub api_addr : Text
  pub podman_socket : Text
  pub data_dir : Text
  pub join_addrs : List Text
  pub join_token : Text
  pub encryption_key : Text
  pub tls_cert_file : Text
  pub tls_key_file : Text
  pub tls_ca_file : Text
  pub tls_skip_verify : Bool
  pub ingress_port : ℤ
  pub enable_ingress : Bool
  pub dns_port : ℤ
  pub cluster_domain : Text
  pub upstream_dns : List Text
  pub api_token : Text
  pub enable_api_auth : Bool

-- What flag.Parse finds of each flag, by its name.
pub record CommandLine : Type 0 where
  pub text : Text → Option Text
  pub number : Text → Option ℤ
  pub switch : Text → Option Bool

-- os.Getenv: empty when the variable is not set.
abbrev pub Environment : Type 0
Environment = Text → Text

unfoldable pub get_env : Environment → Text → Text → Text
get_env env key default = if env key == str "" then default else env key

unfoldable pub get_env_bool : Environment → Text → Bool → Bool
get_env_bool env key default =
    if env key == str ""
    then default
    else env key == str "true" || (env key == str "1" || env key == str "yes")

-- fmt.Sscanf with "%d": white space but no line feed, a sign, and digits, up to the first byte that
-- is none; the number has to fit into 64 bits.
skip_space : Text → Option Text
unfolding is_space
skip_space [] = some []
skip_space (c ∷ s) =
    let rest = skip_space s in if c ==ℕ 10 then none else if is_space c then rest else some (c ∷ s)

is_digit : ℕ → Bool
is_digit c = leb 48 c && leb c 57

scan_digits : ℕ → Text → ℕ
unfolding is_digit
scan_digits v [] = v
scan_digits v (c ∷ s) =
    let rest = scan_digits (v * 10 + (c - 48)) s in if is_digit c then rest else v

abbrev negated : ℕ → ℤ
negated zero = pos 0
negated (suc n) = negsuc n

abbrev fitted : Bool → ℕ → Option ℤ
fitted false v = if leb v 9_223_372_036_854_775_807 then some (pos v) else none
fitted true v = if leb v 9_223_372_036_854_775_808 then some (negated v) else none

scan_unsigned : Bool → Text → Option ℤ
unfolding is_digit scan_digits
scan_unsigned negative [] = none
scan_unsigned negative (c ∷ s) =
    if is_digit c then fitted negative (scan_digits 0 (c ∷ s)) else none

scan_signed : Text → Option ℤ
unfolding scan_unsigned
scan_signed [] = none
scan_signed (c ∷ s) =
    if c ==ℕ b'-'
    then scan_unsigned true s
    else if c ==ℕ b'+'
    then scan_unsigned false s
    else scan_unsigned false (c ∷ s)

unfoldable pub scan_int : Text → Option ℤ
unfolding skip_space scan_signed
scan_int s = elim (skip_space s) [ none ↦ none | some rest ↦ scan_signed rest ]

abbrev pub or_default : {A : Type 0} → A → Option A → A
or_default default none = default
or_default default (some a) = a

unfoldable pub get_env_int : Environment → Text → ℤ → ℤ
unfolding scan_int
get_env_int env key default =
    if env key == str "" then default else or_default default (scan_int (env key))

-- strings.Contains(addr, ":")
abbrev pub has_colon : Text → Bool
has_colon = any λ c. c ==ℕ b':'

unfoldable pub with_port : Text → Text
with_port addr = if has_colon addr then addr else addr ++ str ":53"

unfoldable pub join_addrs_of : Text → List Text
join_addrs_of s = if s == str "" then [] else map trim_space (split b',' s)

unfoldable pub upstream_dns_of : Text → List Text
unfolding with_port
upstream_dns_of s =
    if s == str "" then [] else map (λ addr. with_port (trim_space addr)) (split b',' s)

-- A text from the command line, else from the environment, else the default.
abbrev pub text_of : Environment → CommandLine → Text → Text → Text → Text
text_of env line flag key default = or_default (get_env env key default) (line.text flag)

unfoldable pub load : Environment → CommandLine → Config
unfolding get_env get_env_bool get_env_int join_addrs_of upstream_dns_of
load env line = record {
  node_name = text_of env line (str "node-name") (str "NODE_NAME") (str "node-1");
  bind_addr = text_of env line (str "bind-addr") (str "BIND_ADDR") (str "0.0.0.0:7946");
  api_addr = text_of env line (str "api-addr") (str "API_ADDR") (str "0.0.0.0:8080");
  podman_socket =
      text_of env line (str "podman-socket") (str "PODMAN_SOCKET")
        (str "unix:///run/podman/podman.sock");
  data_dir = text_of env line (str "data-dir") (str "DATA_DIR") (str "/var/lib/podman-swarm");
  join_addrs = join_addrs_of (text_of env line (str "join") (str "JOIN") []);
  join_token = text_of env line (str "join-token") (str "JOIN_TOKEN") [];
  encryption_key = text_of env line (str "encryption-key") (str "ENCRYPTION_KEY") [];
  tls_cert_file = text_of env line (str "tls-cert") (str "TLS_CERT") [];
  tls_key_file = text_of env line (str "tls-key") (str "TLS_KEY") [];
  tls_ca_file = text_of env line (str "tls-ca") (str "TLS_CA") [];
  tls_skip_verify =
      or_default (get_env_bool env (str "TLS_SKIP_VERIFY") false)
        (line.switch (str "tls-skip-verify"));
  ingress_port = or_default (pos 80) (line.number (str "ingress-port"));
  enable_ingress = or_default true (line.switch (str "enable-ingress"));
  dns_port = or_default (get_env_int env (str "DNS_PORT") (pos 53)) (line.number (str "dns-port"));
  cluster_domain =
      text_of env line (str "cluster-domain") (str "CLUSTER_DOMAIN") (str "cluster.local");
  upstream_dns =
      upstream_dns_of
        (text_of env line (str "upstream-dns") (str "UPSTREAM_DNS") (str "8.8.8.8:53,8.8.4.4:53"));
  api_token = text_of env line (str "api-token") (str "API_TOKEN") [];
  enable_api_auth =
      or_default (get_env_bool env (str "ENABLE_API_AUTH") false)
        (line.switch (str "enable-api-auth"));
}
