-- ===== src/Dns/Names.antt =====
-- How the DNS server reads the names of its queries.
pub mod Forms
use podman_swarm.Base.{
  Bool, true, false, Option, none, some, List, [], ◌∷◌, ◌++◌, ◌&&◌, ◌||◌, map, length, any, not,
  ltb, if◌then◌else◌,
}
use podman_swarm.Base.Text.{Text, str, ◌==◌, to_lower}
use podman_swarm.Base.Text.Affix.{has_suffix, trim_suffix, has_prefix, trim_prefix}
use podman_swarm.Base.Text.Split.{split, join}

-- strings.ToLower(strings.TrimSuffix(name, "."))
abbrev pub normalize : Text → Text
normalize name = to_lower (trim_suffix name (str "."))

unfoldable pub is_cluster_name : Text → Text → Bool
is_cluster_name domain q = has_suffix (normalize q) (b'.' ∷ domain) || normalize q == domain

-- isClusterDomainQuery over the names of the questions.
unfoldable pub is_cluster_domain_query : Text → List Text → Bool
unfolding is_cluster_name
is_cluster_domain_query domain questions = any (is_cluster_name domain) questions

-- The two forms of the cluster's suffix come off in this order.
unfoldable pub strip_domain : Text → Text → Text
strip_domain domain name =
    let undotted = trim_suffix name (str ".") in
    let short = trim_suffix undotted (b'.' ∷ domain) in trim_suffix short (str ".svc." ++ domain)

-- parts[:len(parts)-1] and parts[len(parts)-1]; the first argument is the first part.
pub split_last : Text → List Text → List Text × Text
split_last p [] = ([], p)
split_last p (q ∷ ps) = let (front, last) = split_last q ps in (p ∷ front, last)

pub record ServiceName : Type 0 where
  pub service : Text
  pub namespace : Text

abbrev service_name_of : List Text → Option ServiceName
unfolding split_last
service_name_of [] = none
service_name_of (p ∷ []) = none
service_name_of (p ∷ q ∷ ps) =
    let (front, last) = split_last p (q ∷ ps) in
    some (record { service = join b'.' front; namespace = last })

-- parseServiceName; `none` is its error.
unfoldable pub parse_service_name : Text → Text → Option ServiceName
unfolding split_last strip_domain
parse_service_name domain name = service_name_of (split b'.' (strip_domain domain name))

pub record SrvName : Type 0 where
  pub port_name : Text
  pub protocol : Text
  pub service : Text
  pub namespace : Text

abbrev srv_name_of : List Text → Option SrvName
unfolding split_last
srv_name_of (p ∷ q ∷ r ∷ s ∷ ps) =
    let (front, last) = split_last r (s ∷ ps) in
    if has_prefix p (str "_") && has_prefix q (str "_")
    then some (record {
      port_name = trim_prefix p (str "_");
      protocol = trim_prefix q (str "_");
      service = join b'.' front;
      namespace = last;
    })
    else none
srv_name_of parts = none

-- parseSRVName; `none` is its error.
unfoldable pub parse_srv_name : Text → Text → Option SrvName
unfolding split_last strip_domain
parse_srv_name domain name = srv_name_of (split b'.' (strip_domain domain name))
