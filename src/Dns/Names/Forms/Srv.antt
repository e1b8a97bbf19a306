-- ===== src/Dns/Names/Forms/Srv.antt =====
-- The names of SRV queries.
use mathlib.Core.List.{head-eq_of_cons-eq}
use podman_swarm.Base.{
  ◌≡◌, refl, ◌+◌, ◌≤◌, true, some, [], ◌∷◌, ◌++◌, arith, Bool-cases, inl, inr, ap, ◌∙◌,
}
use podman_swarm.Base.Text.{Text, str}
use podman_swarm.Base.Text.Affix.{
  has_suffix, trim_suffix, has_prefix, trim_prefix, trim_suffix-append, append_of_has_suffix,
  has_prefix-append, trim_prefix-append,
}
use podman_swarm.Base.Text.Split.{split, join, Free, append_sep_inj, split-append}
use podman_swarm.Dns.Names.{strip_domain, parse_srv_name, split_last, srv_name_of}
use podman_swarm.Dns.Names.Forms.{
  dots, dots-append, dots-Free, dots-dot, dots-svc, short_name, dots_short, split_short, fqdn,
}

-- _port._protocol.name
abbrev pub srv_prefix : Text → Text → Text → Text
srv_prefix port protocol name = (b'_' ∷ port) ++ (b'.' ∷ ((b'_' ∷ protocol) ++ (b'.' ∷ name)))

Free-underscore : (s : Text) → Free b'.' s → Free b'.' (b'_' ∷ s)
Free-underscore s h = (omega arith, h)

split_srv :
    (p q name : Text)
    → Free b'.' p
    → Free b'.' q
    → split b'.' (srv_prefix p q name) ≡ (b'_' ∷ p) ∷ (b'_' ∷ q) ∷ split b'.' name
split_srv p q name hp hq =
    split-append b'.' (b'_' ∷ p) ((b'_' ∷ q) ++ (b'.' ∷ name)) (Free-underscore p hp)
    ∙ ap (λ ps. (b'_' ∷ p) ∷ ps) (split-append b'.' (b'_' ∷ q) name (Free-underscore q hq))

dots_srv :
    (p q name : Text) → Free b'.' p → Free b'.' q → dots (srv_prefix p q name) ≡ 2 + dots name
dots_srv p q name hp hq = omega (
  arith,
  dots-append (b'_' ∷ p) (b'.' ∷ ((b'_' ∷ q) ++ (b'.' ∷ name))),
  dots-dot ((b'_' ∷ q) ++ (b'.' ∷ name)),
  dots-append (b'_' ∷ q) (b'.' ∷ name),
  dots-dot name,
  dots-Free (b'_' ∷ p) (Free-underscore p hp),
  dots-Free (b'_' ∷ q) (Free-underscore q hq),
)

underscored :
    (s : Text) → (has_prefix (b'_' ∷ s) (str "_") ≡ true) × (trim_prefix (b'_' ∷ s) (str "_") ≡ s)
underscored s = (has_prefix-append (str "_") s, trim_prefix-append (str "_") s)

underscored_parts :
    (p q s n : Text)
    → srv_name_of ((b'_' ∷ p) ∷ (b'_' ∷ q) ∷ s ∷ n ∷ [])
      ≡ some (record { port_name = p; protocol = q; service = s; namespace = n })
unfolding split_last join
underscored_parts p q s n = ground (arith, underscored p, underscored q)

Free-dots : (s : Text) → dots s ≡ 0 → Free b'.' s
unfolding dots
Free-dots [] h = tt
Free-dots (c ∷ s) h = ground (arith, Free-dots s)

-- Counting dots leaves one place for the suffix, and there the underscore is in the way.
trim_srv :
    (domain p q s n : Text)
    → Free b'.' p
    → Free b'.' q
    → Free b'.' s
    → Free b'.' n
    → 1 ≤ dots domain
    → trim_suffix (srv_prefix p q (short_name s n)) (str ".svc." ++ domain)
      ≡ srv_prefix p q (short_name s n)
trim_srv domain p q s n hp hq hs hn h =
    elim (Bool-cases (has_suffix (srv_prefix p q (short_name s n)) (str ".svc." ++ domain))) [
      | inr e ↦ unfold trim_suffix in rw e refl
      | inl e ↦
          let (r, found) = append_of_has_suffix _ (str ".svc." ++ domain) e in
          let none_before : dots r ≡ 0 = omega (
            arith,
            ap dots found,
            dots-append r (str ".svc." ++ domain),
            dots-svc domain,
            dots_srv p q (short_name s n) hp hq,
            dots_short s n hs hn,
          ) in
          let (_, same) =
            append_sep_inj b'.' (b'_' ∷ p) r ((b'_' ∷ q) ++ (b'.' ∷ short_name s n))
              (str "svc." ++ domain) (Free-underscore p hp) (Free-dots r none_before) found in
          absurd (omega (arith, head-eq_of_cons-eq same))
    ]

-- An SRV query for a plain service under the cluster's domain, with a plain port and protocol, is
-- read into its four parts, if that domain has a dot.
parse_srv_form :
    (domain port protocol service namespace : Text)
    → Free b'.' port
    → Free b'.' protocol
    → Free b'.' service
    → Free b'.' namespace
    → 1 ≤ dots domain
    → parse_srv_name domain (fqdn domain (srv_prefix port protocol (short_name service namespace)))
      ≡ some (record {
        port_name = port;
        protocol = protocol;
        service = service;
        namespace = namespace;
      })
unfolding parse_srv_name join
parse_srv_form domain p q s n hp hq hs hn h =
    let name = srv_prefix p q (short_name s n) in
    let stripped : strip_domain domain (fqdn domain name) ≡ name =
      unfold strip_domain in
      rw
        (
          trim_suffix-append (name ++ (b'.' ∷ domain)) (str "."),
          trim_suffix-append name (b'.' ∷ domain),
        )
        (trim_srv domain p q s n hp hq hs hn h) in
    let parts : split b'.' name ≡ (b'_' ∷ p) ∷ (b'_' ∷ q) ∷ s ∷ n ∷ [] =
      split_srv p q (short_name s n) hp hq
      ∙ ap (λ ps. (b'_' ∷ p) ∷ (b'_' ∷ q) ∷ ps) (split_short s n hs hn) in
    ap (λ t. srv_name_of (split b'.' t)) stripped ∙ ap srv_name_of parts ∙ underscored_parts p q s n
