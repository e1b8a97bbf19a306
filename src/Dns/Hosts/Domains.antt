-- ===== src/Dns/Hosts/Domains.antt =====
-- Parent domains: the texts that the loop of `isHostAllowed` joins.
use podman_swarm.Base.{
  ◌≡◌, ◌≢◌, ◌⊎◌, subst, append_assoc, refl, sym, ◌∙◌, ap, Bool, true, List, [], ◌∷◌, ◌++◌, arith,
  Bool-cases, inl, inr,
}
use podman_swarm.Base.Text.{Text}
use podman_swarm.Base.Text.Split.{split, join, join-split, split-ne-nil, split-append_sep}
use podman_swarm.Base.Map.{Map}
use podman_swarm.Dns.Hosts.{has_domain, has_parent}

-- The domain itself, or a subdomain of it.
abbrev pub Under : Text → Text → Type 0
Under domain name = (name ≡ domain) ⊎ ((front : Text) × (name ≡ front ++ (b'.' ∷ domain)))

Under-cons : (domain p s : Text) → Under domain s → Under domain (p ++ (b'.' ∷ s))
Under-cons domain p s (inl e) = inr (p, ap (λ t. p ++ (b'.' ∷ t)) e)
Under-cons domain p s (inr (front, e)) = inr (
  p ++ (b'.' ∷ front),
  ap (λ t. p ++ (b'.' ∷ t)) e ∙ sym (append_assoc p (b'.' ∷ front) (b'.' ∷ domain)),
)

parent_of_parts :
    (m : Map Bool) (ps : List Text)
    → has_parent ps m ≡ true
    → (domain : Text) × Under domain (join b'.' ps) × (has_domain domain m ≡ true)
unfolding has_parent join
parent_of_parts m [] h = cc
parent_of_parts m (p ∷ []) h = (p, inl refl, ground arith)
parent_of_parts m (p ∷ q ∷ ps) h = elim (Bool-cases (has_domain (join b'.' (p ∷ q ∷ ps)) m)) [
  | inl e ↦ (join b'.' (p ∷ q ∷ ps), inl refl, e)
  | inr e ↦
      let (domain, u, d) = parent_of_parts m (q ∷ ps) (ground arith) in
      (domain, Under-cons domain p (join b'.' (q ∷ ps)) u, d)
]

-- Every end of the name that the loop joins is a domain that the name is under.
pub has_parent_sound :
    (m : Map Bool) (s : Text)
    → has_parent (split b'.' s) m ≡ true
    → (domain : Text) × Under domain s × (has_domain domain m ≡ true)
has_parent_sound m s h =
    let (domain, u, d) = parent_of_parts m (split b'.' s) h in
    (domain, subst (Under domain) (join-split b'.' s) u, d)

has_parent_first :
    (m : Map Bool) (ps : List Text)
    → ps ≢ []
    → has_domain (join b'.' ps) m ≡ true
    → has_parent ps m ≡ true
unfolding has_parent
has_parent_first m [] n h = absurd (n refl)
has_parent_first m (p ∷ ps) n h = ground arith

has_parent-append :
    (m : Map Bool) (ps qs : List Text) → has_parent qs m ≡ true → has_parent (ps ++ qs) m ≡ true
unfolding has_parent
has_parent-append m [] qs h = h
has_parent-append m (p ∷ ps) qs h = ground (arith, has_parent-append m ps qs h)

has_parent_self :
    (m : Map Bool) (domain : Text)
    → has_domain domain m ≡ true
    → has_parent (split b'.' domain) m ≡ true
has_parent_self m domain h =
    has_parent_first m (split b'.' domain) (split-ne-nil b'.' domain)
      (ap (λ t. has_domain t m) (join-split b'.' domain) ∙ h)

-- The loop finds every domain that the name is under.
pub has_parent_complete :
    (m : Map Bool) (s domain : Text)
    → Under domain s
    → has_domain domain m ≡ true
    → has_parent (split b'.' s) m ≡ true
has_parent_complete m s domain (inl e) h =
    subst (λ t. has_parent (split b'.' t) m ≡ true) (sym e) (has_parent_self m domain h)
has_parent_complete m s domain (inr (front, e)) h =
    ap (λ t. has_parent (split b'.' t) m) e
    ∙ ap (λ ps. has_parent ps m) (split-append_sep b'.' front domain)
    ∙ has_parent-append m (split b'.' front) (split b'.' domain) (has_parent_self m domain h)
