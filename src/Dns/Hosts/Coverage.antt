-- ===== src/Dns/Hosts/Coverage.antt =====
-- Which names a list of hosts allows.
use podman_swarm.Base.{
  ◌≡◌, ◌≢◌, ◌↔◌, ◌⊎◌, inl, inr, refl, sym, ap, subst, ◌∙◌, Bool, true, false, List, [], ◌∷◌, ◌++◌,
  append_assoc, All, In, In_of_All, Bool-cases, arith,
}
use podman_swarm.Base.Text.{Text, str, eq_iff}
use podman_swarm.Base.Text.Affix.{trim_suffix, trim_suffix-append, has_suffix, has_suffix-append}
use podman_swarm.Base.Map.{Map, insert, lookup-insert, lookup-nil}
use podman_swarm.Dns.{Server}
use podman_swarm.Dns.Names.{normalize}
use podman_swarm.Dns.Hosts.{add_hosts, set_whitelist, has_host, has_domain, is_host_allowed}
use podman_swarm.Dns.Hosts.Domains.{Under, has_parent_sound, has_parent_complete}

-- The host is listed, without or with its trailing dot.
Listed : Text → List Text → Type 0
Listed k hosts = (h : Text) × In h hosts × ((k ≡ normalize h) ⊎ (k ≡ normalize h ++ str "."))

Listed-cons : (k h : Text) (hosts : List Text) → Listed k hosts → Listed k (h ∷ hosts)
unfolding Listed
Listed-cons k h hosts (g, m, e) = (g, inr m, e)

Listed-self : (h : Text) (hosts : List Text) → In h hosts → Listed (normalize h) hosts
unfolding Listed
Listed-self h hosts m = (h, m, inl refl)

inserted :
    (k h : Text) (m : Map Bool)
    → has_host k (insert (normalize h ++ str ".") true (insert (normalize h) true m)) ≡ true
      ↔ ((has_host k m ≡ true) ⊎ ((k ≡ normalize h) ⊎ (k ≡ normalize h ++ str ".")))
inserted k h m =
    let dotted = normalize h ++ str "." in
    let once = insert (normalize h) true m in
    (
      λ e. ground (
        arith,
        lookup-insert dotted k true once,
        lookup-insert (normalize h) k true m,
        eq_iff dotted k,
        eq_iff (normalize h) k,
      ),
      λ e. ground (
        arith,
        lookup-insert dotted k true once,
        lookup-insert (normalize h) k true m,
        eq_iff dotted k,
        eq_iff (normalize h) k,
      ),
    )

has_host-add_hosts :
    (k : Text) (hosts : List Text) (m : Map Bool)
    → has_host k (add_hosts hosts m) ≡ true ↔ ((has_host k m ≡ true) ⊎ Listed k hosts)
unfolding add_hosts Listed
has_host-add_hosts k [] m = (λ e. inl e, λ e. elim e [ inl x ↦ x | inr l ↦ absurd l.1 ])
has_host-add_hosts k (h ∷ hosts) m =
    let rest =
      has_host-add_hosts k hosts
        (insert (normalize h ++ str ".") true (insert (normalize h) true m)) in
    (
      λ e. elim (rest.0 e) [
        | inr l ↦ inr (Listed-cons k h hosts l)
        | inl x ↦ elim ((inserted k h m).0 x) [
          | inl old ↦ inl old
          | inr new ↦ inr (h, inl refl, new)
        ]
      ],
      λ e. elim e [
        | inl old ↦ rest.1 (inl ((inserted k h m).1 (inl old)))
        | inr (g, inr m', x) ↦ rest.1 (inr (g, m', x))
        | inr (g, inl e', inl x) ↦
            rest.1 (inl ((inserted k h m).1 (inr (inl (x ∙ ap normalize e')))))
        | inr (g, inl e', inr x) ↦
            rest.1 (inl ((inserted k h m).1 (inr (inr (x ∙ ap (λ t. normalize t ++ str ".") e')))))
      ],
    )

-- A name without a trailing dot has no dotted domain above it.
undotted_domain :
    (domain name r : Text)
    → Under domain name
    → has_suffix name (str ".") ≡ false
    → domain ≢ r ++ str "."
undotted_domain domain name r (inl e) u h =
    let dotted : has_suffix (r ++ str ".") (str ".") ≡ true = has_suffix-append r (str ".") in
    let same : name ≡ r ++ str "." = e ∙ h in cc
undotted_domain domain name r (inr (front, e)) u h =
    let dotted : has_suffix ((front ++ (b'.' ∷ r)) ++ str ".") (str ".") ≡ true =
      has_suffix-append (front ++ (b'.' ∷ r)) (str ".") in
    let same : name ≡ (front ++ (b'.' ∷ r)) ++ str "." =
      e ∙ ap (λ t. front ++ (b'.' ∷ t)) h ∙ sym (append_assoc front (b'.' ∷ r) (str ".")) in
    cc

abbrev Undotted : Text → Type 0
Undotted h = has_suffix (normalize h) (str ".") ≡ false

-- A domain above such a name is in the map only as itself.
listed_domain :
    (hosts : List Text) (domain name : Text)
    → All Undotted hosts
    → has_suffix name (str ".") ≡ false
    → Under domain name
    → has_domain domain (add_hosts hosts []) ≡ true
    → (h : Text) × In h hosts × (domain ≡ normalize h)
unfolding Listed
listed_domain hosts domain name v u under e =
    elim (Bool-cases (has_host domain (add_hosts hosts []))) [
      | inl x ↦ elim ((has_host-add_hosts domain hosts []).0 x) [
        | inl none_yet ↦ absurd (ground (arith, lookup-nil Bool domain))
        | inr (h, m, inl y) ↦ (h, m, y)
        | inr (h, m, inr y) ↦ absurd (undotted_domain domain name (normalize h) under u y)
      ]
      | inr x ↦
          let dotted : has_host (domain ++ str ".") (add_hosts hosts []) ≡ true = ground arith in
          elim ((has_host-add_hosts (domain ++ str ".") hosts []).0 dotted) [
            | inl none_yet ↦ absurd (ground (arith, lookup-nil Bool (domain ++ str ".")))
            | inr (h, m, inl y) ↦
                let undotted = In_of_All Undotted hosts h v m in
                let ends : has_suffix (domain ++ str ".") (str ".") ≡ true =
                  has_suffix-append domain (str ".") in
                absurd (cc)
            | inr (h, m, inr y) ↦ (
              h,
              m,
              sym (trim_suffix-append domain (str "."))
                  ∙ ap (λ t. trim_suffix t (str ".")) y
                  ∙ trim_suffix-append (normalize h) (str "."),
            )
          ]
    ]

-- A host of the list is allowed with its subdomains, and a whitelist that is off allows all.
pub allowed_of_listed :
    (enabled : Bool) (s : Server) (hosts : List Text) (query h : Text)
    → In h hosts
    → Under (normalize h) (normalize query)
    → is_host_allowed (set_whitelist enabled hosts s).whitelist query ≡ true
unfolding is_host_allowed set_whitelist
allowed_of_listed enabled s hosts query h i under =
    let m = add_hosts hosts [] in
    let listed = (has_host-add_hosts (normalize h) hosts []).1 (inr (Listed-self h hosts i)) in
    let found = has_parent_complete m (normalize query) (normalize h) under (ground arith) in
    ground arith

-- With the whitelist on and set to a list of hosts, a query is allowed exactly when its name is one
-- of the hosts or a subdomain of one, in any case of letters. Neither the name nor a host may end
-- in two dots, of which one is removed.
pub allowed_iff :
    (s : Server) (hosts : List Text) (query : Text)
    → All (λ h. has_suffix (normalize h) (str ".") ≡ false) hosts
    → has_suffix (normalize query) (str ".") ≡ false
    → (is_host_allowed (set_whitelist true hosts s).whitelist query ≡ true)
      ↔ ((h : Text) × In h hosts × Under (normalize h) (normalize query))
unfolding is_host_allowed set_whitelist
allowed_iff s hosts query v u = (
  λ e. elim (Bool-cases (has_domain name m)) [
    | inl x ↦ let (h, i, d) = listed_domain hosts name name v u (inl refl) x in (h, i, inl d)
    | inr x ↦
        let (domain, under, y) = has_parent_sound m name (ground arith) in
        let (h, i, d) = listed_domain hosts domain name v u under y in
        (h, i, subst (λ t. Under t name) d under)
  ],
  λ e. allowed_of_listed true s hosts query e.0 e.1 e.2,
)
  where
    m : Map Bool
    m = add_hosts hosts []

    name : Text
    name = normalize query
