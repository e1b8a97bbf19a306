-- ===== src/Dns/Names/Forms.antt =====
-- The documented forms of a service's name, and what the parsers make of each.
pub mod Srv
use mathlib.Core.List.{head-eq_of_cons-eq}
use podman_swarm.Base.{
  ℕ, ◌≡◌, refl, ◌+◌, ◌≤◌, ◌<◌, suc, true, Option, some, [], ◌∷◌, ◌++◌, arith, Bool-cases, inl, inr,
  ◌==ℕ◌, if◌then◌else◌, append_assoc, ap, ◌∙◌,
}
use podman_swarm.Base.Text.{Text, str}
use podman_swarm.Base.Text.Affix.{
  has_suffix, trim_suffix, has_prefix, trim_prefix, trim_suffix-append, append_of_has_suffix,
  has_prefix-append, trim_prefix-append,
}
use podman_swarm.Base.Text.Split.{split, join, Free, append_sep_inj, split-whole, split-append}
use podman_swarm.Dns.Names.{
  ServiceName, strip_domain, parse_service_name, parse_srv_name, split_last, srv_name_of,
}

-- How many dots a text has.
unfoldable pub dots : Text → ℕ
dots [] = 0
dots (c ∷ s) = let rest = dots s in if c ==ℕ b'.' then suc rest else rest

dots-append : (s t : Text) → dots (s ++ t) ≡ dots s + dots t
unfolding dots
dots-append [] t = omega arith
dots-append (c ∷ s) t = ground (arith, dots-append s t)

dots-Free : (s : Text) → Free b'.' s → dots s ≡ 0
unfolding dots
dots-Free [] h = refl
dots-Free (c ∷ s) h = ground (arith, dots-Free s h.1)

dots-dot : (s : Text) → dots (b'.' ∷ s) ≡ suc (dots s)
unfolding dots
dots-dot s = refl

dots-svc : (s : Text) → dots (str ".svc." ++ s) ≡ 2 + dots s
unfolding dots
dots-svc s = omega arith

trim_absent : (s x : Text) → dots s < dots x → trim_suffix s x ≡ s
trim_absent s x h = elim (Bool-cases (has_suffix s x)) [
  | inl e ↦
      let (r, q) = append_of_has_suffix s x e in absurd (omega (arith, dots-append r x, ap dots q))
  | inr e ↦ unfold trim_suffix in rw e refl
]

abbrev pub short_name : Text → Text → Text
short_name service namespace = service ++ (b'.' ∷ namespace)

dots_short : (s n : Text) → Free b'.' s → Free b'.' n → dots (short_name s n) ≡ 1
dots_short s n hs hn =
    omega (arith, dots-append s (b'.' ∷ n), dots-Free s hs, dots-dot n, dots-Free n hn)

split_short : (s n : Text) → Free b'.' s → Free b'.' n → split b'.' (short_name s n) ≡ s ∷ n ∷ []
split_short s n hs hn = split-append b'.' s n hs ∙ ap (λ ps. s ∷ ps) (split-whole b'.' n hn)

-- service.namespace.domain. and service.namespace., as they arrive in a query.
abbrev pub fqdn : Text → Text → Text
fqdn domain name = (name ++ (b'.' ∷ domain)) ++ str "."

strip-fqdn :
    (domain name : Text)
    → dots name < 2 + dots domain
    → strip_domain domain (fqdn domain name) ≡ name
unfolding strip_domain
strip-fqdn domain name h =
    rw
      (
        trim_suffix-append (name ++ (b'.' ∷ domain)) (str "."),
        trim_suffix-append name (b'.' ∷ domain),
      )
      (trim_absent name (str ".svc." ++ domain) (omega (arith, dots-svc domain)))

strip_dotted :
    (domain name : Text) → dots name ≤ dots domain → strip_domain domain (name ++ str ".") ≡ name
unfolding strip_domain
strip_dotted domain name h =
    rw
      (
        trim_suffix-append name (str "."),
        trim_absent name (b'.' ∷ domain) (omega (arith, dots-dot domain)),
      )
      (trim_absent name (str ".svc." ++ domain) (omega (arith, dots-svc domain)))

pub parse_fqdn :
    (domain service namespace : Text)
    → Free b'.' service
    → Free b'.' namespace
    → parse_service_name domain (fqdn domain (short_name service namespace))
      ≡ some (record { service = service; namespace = namespace })
unfolding parse_service_name join
parse_fqdn domain s n hs hn =
    rw
      (
        strip-fqdn domain (short_name s n) (omega (arith, dots_short s n hs hn)),
        split_short s n hs hn,
      )
      refl

-- Under a domain that has a dot, a service whose name and namespace hold no dot is found in its
-- name under that domain and in its name without the domain.
parse_forms :
    (domain service namespace : Text)
    → Free b'.' service
    → Free b'.' namespace
    → 1 ≤ dots domain
    → let found : Option ServiceName = some (record { service = service; namespace = namespace }) in
      (parse_service_name domain (fqdn domain (short_name service namespace)) ≡ found)
      × (parse_service_name domain (short_name service namespace ++ str ".") ≡ found)
unfolding parse_service_name join
parse_forms domain s n hs hn h = (
  parse_fqdn domain s n hs hn,
  rw
      (
        strip_dotted domain (short_name s n) (omega (arith, dots_short s n hs hn)),
        split_short s n hs hn,
      )
      refl,
)

-- The Kubernetes form service.namespace.svc.domain.
abbrev pub svc_name : Text → Text → Text
svc_name service namespace = short_name service namespace ++ str ".svc"

dots-svc_name : (s n : Text) → Free b'.' s → Free b'.' n → dots (svc_name s n) ≡ 2
dots-svc_name s n hs hn =
    let tail : dots (str ".svc") ≡ 1 = unfold dots in refl in
    omega (arith, dots-append (short_name s n) (str ".svc"), dots_short s n hs hn)

split-svc_name :
    (s n : Text) → Free b'.' s → Free b'.' n → split b'.' (svc_name s n) ≡ s ∷ n ∷ str "svc" ∷ []
unfolding split
split-svc_name s n hs hn =
    ap (split b'.') (append_assoc s (b'.' ∷ n) (str ".svc"))
    ∙ split-append b'.' s (n ++ str ".svc") hs
    ∙ ap (λ ps. s ∷ ps) (split-append b'.' n (str "svc") hn)

-- Under a domain that has a dot, the Kubernetes form of the name is read as a service
-- "service.namespace" of the namespace "svc", whatever the plain service and namespace.
svc_form_misread :
    (domain service namespace : Text)
    → Free b'.' service
    → Free b'.' namespace
    → 1 ≤ dots domain
    → parse_service_name domain (fqdn domain (svc_name service namespace))
      ≡ some (record { service = short_name service namespace; namespace = str "svc" })
unfolding parse_service_name join
svc_form_misread domain s n hs hn h =
    rw
      (
        strip-fqdn domain (svc_name s n) (omega (arith, dots-svc_name s n hs hn)),
        split-svc_name s n hs hn,
      )
      refl
