-- ===== src/Dns/Hosts/Listing.antt =====
-- The form of the hosts that `GetWhitelist` returns.
use podman_swarm.Base.{
  ℕ, zero, suc, ◌-◌, ◌≡◌, refl, sym, ap, subst, ◌∙◌, Bool, true, List, [], ◌∷◌, ◌++◌, length, take,
  All, In, In_of_All, Option-cases, Bool-cases, inl, inr, if◌then◌else◌, arith,
}
use podman_swarm.Base.Text.{Text, str, to_lower, to_lower_idem, to_lower-append}
use podman_swarm.Base.Text.Affix.{has_suffix, trim_suffix}
use podman_swarm.Base.Map.{Map, lookup, insert}
use podman_swarm.Dns.{Server}
use podman_swarm.Dns.Names.{normalize}
use podman_swarm.Dns.Hosts.{add_hosts, set_whitelist, distinct_hosts, get_whitelist}

abbrev pub IsLower : Text → Type 0
IsLower t = to_lower t ≡ t

to_lower-take : (n : ℕ) (s : Text) → to_lower (take n s) ≡ take n (to_lower s)
unfolding to_lower
to_lower-take zero s = refl
to_lower-take (suc n) [] = refl
to_lower-take (suc n) (c ∷ s) = cc (to_lower-take n s)

trim_suffix-IsLower : (s x : Text) → IsLower s → IsLower (trim_suffix s x)
unfolding trim_suffix
trim_suffix-IsLower s x h = elim (Bool-cases (has_suffix s x)) [
  | inl e ↦
      let n = length s - length x in
      let lower : to_lower (take n s) ≡ take n s = to_lower-take n s ∙ ap (take n) h in
      subst (λ b. IsLower (if b then take n s else s)) (sym e) lower
  | inr e ↦ subst (λ b. IsLower (if b then take (length s - length x) s else s)) (sym e) h
]

abbrev AllLower : Map Bool → Type 0
AllLower = All (λ e. IsLower e.0)

insert-AllLower :
    (k : Text) (b : Bool) (m : Map Bool) → IsLower k → AllLower m → AllLower (insert k b m)
unfolding insert
insert-AllLower k b [] l h = (l, tt)
insert-AllLower k b ((j, c) ∷ m) l h = ground (arith, insert-AllLower k b m l h.1)

add_hosts-AllLower : (hosts : List Text) (m : Map Bool) → AllLower m → AllLower (add_hosts hosts m)
unfolding add_hosts to_lower
add_hosts-AllLower [] m h = h
add_hosts-AllLower (host ∷ hosts) m h =
    let lower : IsLower (normalize host) = to_lower_idem (trim_suffix host (str ".")) in
    let dotted : IsLower (normalize host ++ str ".") =
      to_lower-append (normalize host) (str ".") ∙ ap (λ t. t ++ str ".") lower in
    add_hosts-AllLower hosts
      (insert (normalize host ++ str ".") true (insert (normalize host) true m))
      (insert-AllLower (normalize host ++ str ".") true (insert (normalize host) true m) dotted
        (insert-AllLower (normalize host) true m lower h))

distinct_hosts-AllLower : (m seen : Map Bool) → AllLower m → All IsLower (distinct_hosts m seen)
unfolding distinct_hosts
distinct_hosts-AllLower [] seen h = tt
distinct_hosts-AllLower ((host, b) ∷ m) seen h =
    let name = trim_suffix host (str ".") in
    let lower = trim_suffix-IsLower host (str ".") h.0 in
    elim (Option-cases (lookup name seen)) [
      | inl e ↦ ground (arith, distinct_hosts-AllLower m (insert name true seen) h.1)
      | inr e ↦ ground (arith, distinct_hosts-AllLower m seen h.1)
    ]

-- All hosts that are returned are in lower case.
pub get_whitelist-IsLower :
    (enabled : Bool) (hosts : List Text) (s : Server) (h : Text)
    → In h (get_whitelist (set_whitelist enabled hosts s)).1
    → IsLower h
unfolding get_whitelist set_whitelist
get_whitelist-IsLower enabled hosts s h =
    In_of_All IsLower (distinct_hosts (add_hosts hosts []) []) h
      (distinct_hosts-AllLower (add_hosts hosts []) [] (add_hosts-AllLower hosts [] tt))
