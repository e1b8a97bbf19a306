-- ===== src/Ingress/Routes.antt =====
-- Which path of which ingress answers a request.
use podman_swarm.Base.{
  ◌≡◌, ◌≢◌, ◌⊎◌, refl, sym, ap, subst, ◌∙◌, inl, inr, true, Option, none, some, List, [], ◌∷◌, ◌++◌,
  In, In-append_right, Bool-cases, Option-cases, length, take, drop, take-append-drop, arith,
}
use podman_swarm.Base.Text.{Text, str, ◌==◌, eq_iff}
use podman_swarm.Base.Text.Affix.{has_prefix, has_prefix-append}
use podman_swarm.Kube.{PathType, exact, prefix, implementation_specific, other_type}
use podman_swarm.Types.{Ingress, IngressRule, IngressPath}
use podman_swarm.Ingress.{matches_path, first_path, for_host, first_rule, find_route}

abbrev Extends : Text → Text → Type 0
Extends request path = (rest : Text) × (request ≡ path ++ rest)

-- What a path of a type matches: an empty path everything; an exact one itself; a prefix, which a path
-- without a type also is, what it is the beginning of; a path of an unknown type nothing.
abbrev Fits : Text → Text → Option PathType → Type 0
Fits request path none = Extends request path
Fits request path (some exact) = request ≡ path
Fits request path (some prefix) = Extends request path
Fits request path (some implementation_specific) = Extends request path
Fits request path (some (other_type t)) = ⊥

abbrev pub Hits : Text → IngressPath → Type 0
Hits request p = (p.path ≡ []) ⊎ ((p.path ≢ []) × Fits request p.path p.path_type)

-- The rule is for the host, or for any.
abbrev pub ForHost : Text → IngressRule → Type 0
ForHost host rule = (rule.host ≡ host) ⊎ (rule.host ≡ str "")

-- The rule is for the host and has a path that matches.
abbrev pub Serves : Text → Text → IngressRule → Type 0
Serves host request rule =
    ForHost host rule × ((q : IngressPath) × In q rule.paths × Hits request q)

abbrev pub Offers : Text → Text → Ingress → Type 0
Offers host request ingress =
    (rule : IngressRule) × In rule ingress.rules × Serves host request rule

-- The first of a list that has a property.
abbrev pub First : {A : Type 0} → (A → Type 0) → List A → A → Type 0
First {A = A} P xs x =
    (before : List A) × (after : List A) × (xs ≡ before ++ (x ∷ after))
    × P x
    × ((y : A) → In y before → ¬ P y)

-- Of the first ingress that offers the request a path, the first rule that serves it, and of that rule
-- the first path that matches.
abbrev pub FirstInRules : Text → Text → List IngressRule → IngressPath → Type 0
FirstInRules host request rules p =
    (rule : IngressRule) × First (Serves host request) rules rule
    × First (Hits request) rule.paths p

abbrev pub IsRoute : Text → Text → List Ingress → Ingress → IngressPath → Type 0
IsRoute host request ingresses ingress p =
    First (Offers host request) ingresses ingress × FirstInRules host request ingress.rules p

First-cons :
    {A : Type 0} (P : A → Type 0) (x y : A) (xs : List A)
    → ¬ P x
    → First P xs y
    → First P (x ∷ xs) y
First-cons P x y xs fails (before, after, parts, holds, others) = (
  x ∷ before,
  after,
  ap (λ zs. x ∷ zs) parts,
  holds,
  λ z m h. elim m [ inl e ↦ fails (subst P e h) | inr k ↦ others z k h ],
)

First-here : {A : Type 0} (P : A → Type 0) (x : A) (xs : List A) → P x → First P (x ∷ xs) x
First-here P x xs holds = ([], xs, refl, holds, λ z m h. absurd m)

First-In : {A : Type 0} (P : A → Type 0) (xs : List A) (x : A) → First P xs x → In x xs × P x
First-In P xs x (before, after, parts, holds, others) =
    (subst (λ zs. In x zs) (sym parts) (In-append_right before (x ∷ after) x (inl refl)), holds)

has_prefix_iff :
    (request path : Text)
    → ((has_prefix request path ≡ true) → Extends request path)
      × (Extends request path → has_prefix request path ≡ true)
unfolding has_prefix
has_prefix_iff request path = (
  λ h.
      let n = length path in
      let e : take n request ≡ path = (eq_iff (take n request) path).0 (ground arith) in
      (drop n request, sym (take-append-drop n request) ∙ ap (λ p. p ++ drop n request) e),
  λ (rest, e). subst (λ r. has_prefix r path ≡ true) (sym e) (has_prefix-append path rest),
)

fits_iff :
    (request path : Text) (type : Option PathType)
    → path ≢ []
    → ((matches_path request path type ≡ true) → Fits request path type)
      × (Fits request path type → matches_path request path type ≡ true)
unfolding matches_path
fits_iff request [] type n = absurd (n refl)
fits_iff request (c ∷ path) none n = has_prefix_iff request (c ∷ path)
fits_iff request (c ∷ path) (some exact) n = eq_iff request (c ∷ path)
fits_iff request (c ∷ path) (some prefix) n = has_prefix_iff request (c ∷ path)
fits_iff request (c ∷ path) (some implementation_specific) n = has_prefix_iff request (c ∷ path)
fits_iff request (c ∷ path) (some (other_type t)) n = ((λ h. cc), λ h. absurd h)

matches_iff :
    (request : Text) (p : IngressPath)
    → ((matches_path request p.path p.path_type ≡ true) → Hits request p)
      × (Hits request p → matches_path request p.path p.path_type ≡ true)
unfolding matches_path
matches_iff request p = by_path p.path
  where
    by_path :
        (path : Text)
        → ((matches_path request path p.path_type ≡ true)
            → (path ≡ []) ⊎ ((path ≢ []) × Fits request path p.path_type))
          × ((path ≡ []) ⊎ ((path ≢ []) × Fits request path p.path_type)
              → matches_path request path p.path_type ≡ true)
    by_path [] = ((λ h. inl refl), λ h. refl)
    by_path (c ∷ path) = (
      λ h. inr ((λ e. cc), (fits_iff request (c ∷ path) p.path_type (λ e. cc)).0 h),
      λ m. elim m [
        | inl e ↦ absurd (cc)
        | inr (n, fits) ↦ (fits_iff request (c ∷ path) p.path_type n).1 fits
      ],
    )

-- The path of a list that is found is the first that matches; without one, none matches.
first_path_lem :
    (request : Text) (paths : List IngressPath)
    → ((p : IngressPath) → first_path request paths ≡ some p → First (Hits request) paths p)
      × (first_path request paths ≡ none → (q : IngressPath) → In q paths → ¬ Hits request q)
unfolding first_path
first_path_lem request [] = ((λ p h. absurd (cc)), λ h q m. absurd m)
first_path_lem request (x ∷ paths) =
    let (found, missing) = first_path_lem request paths in
    elim (Bool-cases (matches_path request x.path x.path_type)) [
      | inl e ↦ (
        λ p h.
            let same : x ≡ p = ground arith in
            subst (First (Hits request) (x ∷ paths)) same
              (First-here (Hits request) x paths ((matches_iff request x).0 e)),
        λ h. absurd (ground arith),
      )
      | inr e ↦
          let fails : ¬ Hits request x =
            λ m. absurd (ground (arith, (matches_iff request x).1 m)) in
          (
            λ p h. First-cons (Hits request) x p paths fails (found p (ground arith)),
            λ h q m. elim m [
              | inl same ↦ subst (λ (z : IngressPath). ¬ Hits request z) (sym same) fails
              | inr k ↦ missing (ground arith) q k
            ],
          )
    ]

for_host_iff :
    (host : Text) (rule : IngressRule)
    → ((for_host host rule ≡ true) → ForHost host rule)
      × (ForHost host rule → for_host host rule ≡ true)
for_host_iff host rule = (
  λ h. elim (Bool-cases (rule.host == host)) [
    | inl e ↦ inl ((eq_iff rule.host host).0 e)
    | inr e ↦ inr ((eq_iff rule.host (str "")).0 (ground arith))
  ],
  λ h. elim h [
    | inl e ↦ ground (arith, eq_iff rule.host host)
    | inr e ↦ ground (arith, eq_iff rule.host (str ""))
  ],
)

first_rule_lem :
    (host request : Text) (rules : List IngressRule)
    → ((p : IngressPath)
        → first_rule host request rules ≡ some p
        → FirstInRules host request rules p)
      × (first_rule host request rules ≡ none
          → (r : IngressRule) → In r rules
          → ¬ Serves host request r)
unfolding first_rule
first_rule_lem host request [] = ((λ p h. absurd (cc)), λ h r m. absurd m)
first_rule_lem host request (x ∷ rules) =
    let (found, missing) = first_rule_lem host request rules in
    let (here, nothing) = first_path_lem request x.paths in
    let passed : ¬ Serves host request x
        → ((p : IngressPath)
            → first_rule host request rules ≡ some p
            → FirstInRules host request (x ∷ rules) p)
          × (first_rule host request rules ≡ none
              → (r : IngressRule) → In r (x ∷ rules)
              → ¬ Serves host request r) =
      λ fails. (
        λ p h.
            let (rule, first, path) = found p h in
            (rule, First-cons (Serves host request) x rule rules fails first, path),
        λ h r m. elim m [
          | inl same ↦ subst (λ (z : IngressRule). ¬ Serves host request z) (sym same) fails
          | inr k ↦ missing h r k
        ],
      ) in
    elim (Bool-cases (for_host host x)) [
      | inr e ↦
          let (u, v) = passed (λ s. absurd (ground (arith, (for_host_iff host x).1 s.0))) in
          ((λ p h. u p (ground arith)), λ h. v (ground arith))
      | inl e ↦ elim (Option-cases (first_path request x.paths)) [
        | inl f ↦
            let (u, v) = passed (λ s. nothing f s.1.0 s.1.1 s.1.2) in
            ((λ p h. u p (ground arith)), λ h. v (ground arith))
        | inr (q, f) ↦
            let first = here q f in
            let serves : Serves host request x =
              let (m, k) = First-In (Hits request) x.paths q first in
              ((for_host_iff host x).0 e, (q, m, k)) in
            (
              λ p h.
                  let same : q ≡ p = ground arith in
                  (
                    x,
                    First-here (Serves host request) x rules serves,
                    subst (First (Hits request) x.paths) same first,
                  ),
              λ h. absurd (ground arith),
            )
      ]
    ]

-- The route that is found is the first one: its ingress is the first with a rule that serves the
-- request, its rule the first of that ingress that does, and its path the first of that rule that
-- matches; a rule serves a request if it is for the host, or for any, and has a path that matches.
-- And if no route is found, no rule of any ingress serves the request.
pub find_route_lem :
    (host request : Text) (ingresses : List Ingress)
    → ((ingress : Ingress) (p : IngressPath)
        → find_route host request ingresses ≡ some (ingress, p)
        → IsRoute host request ingresses ingress p)
      × (find_route host request ingresses ≡ none
          → (ingress : Ingress) → In ingress ingresses
          → ¬ Offers host request ingress)
unfolding find_route
find_route_lem host request [] = ((λ i p h. absurd (cc)), λ h i m. absurd m)
find_route_lem host request (x ∷ ingresses) =
    let (found, missing) = find_route_lem host request ingresses in
    let (here, nothing) = first_rule_lem host request x.rules in
    elim (Option-cases (first_rule host request x.rules)) [
      | inl f ↦
          let fails : ¬ Offers host request x = λ (rule, m, serves). nothing f rule m serves in
          (
            λ i p h.
                let (first, path) = found i p (ground arith) in
                (First-cons (Offers host request) x i ingresses fails first, path),
            λ h i m. elim m [
              | inl same ↦ subst (λ (z : Ingress). ¬ Offers host request z) (sym same) fails
              | inr k ↦ missing (ground arith) i k
            ],
          )
      | inr (q, f) ↦
          let (rule, first, path) = here q f in
          let offers : Offers host request x =
            let (m, serves) = First-In (Serves host request) x.rules rule first in
            (rule, m, serves) in
          (
            λ i p h.
                let ours : Ingress × IngressPath = (i, p) in
                let both : ours ≡ (x, q) = ground arith in
                subst (λ (y : Ingress × IngressPath). IsRoute host request (x ∷ ingresses) y.0 y.1)
                  (sym both)
                  (First-here (Offers host request) x ingresses offers, (rule, first, path)),
            λ h. absurd (ground arith),
          )
    ]
