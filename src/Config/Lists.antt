-- ===== src/Config/Lists.antt =====
-- The lists of addresses in a configuration.
use podman_swarm.Base.{
  ◌≡◌, ◌≢◌, refl, ap, ◌∙◌, true, false, List, some, [], ◌∷◌, ◌++◌, map, All, Bool-cases, inl, inr,
  arith, if◌then◌else◌,
}
use podman_swarm.Base.Text.{Text, str, ◌==◌}
use podman_swarm.Base.Text.Split.{split, join, Free, split-append, split-whole}
use podman_swarm.Base.Text.Space.{trim_space}
use podman_swarm.Config.{
  Environment, CommandLine, load, has_colon, with_port, join_addrs_of, upstream_dns_of,
}

-- An address without a comma, and with no white space about it.
abbrev pub IsAddress : Text → Type 0
IsAddress a = (a ≢ []) × Free b',' a × (trim_space a ≡ a)

split-join :
    (a : Text) (rest : List Text)
    → All IsAddress (a ∷ rest)
    → split b',' (join b',' (a ∷ rest)) ≡ a ∷ rest
unfolding join
split-join a [] h = split-whole b',' a h.0.1
split-join a (x ∷ rest) h =
    split-append b',' a (join b',' (x ∷ rest)) h.0.1 ∙ ap (λ r. a ∷ r) (split-join x rest h.1)

join_not_empty : (a : Text) (rest : List Text) → a ≢ [] → (join b',' (a ∷ rest) == []) ≡ false
unfolding join ◌==◌
join_not_empty [] rest h = absurd (h refl)
join_not_empty (c ∷ a) [] h = refl
join_not_empty (c ∷ a) (x ∷ rest) h = refl

map-trim_space :
    {A : Type 0} (f : Text → A) (rest : List Text)
    → All IsAddress rest
    → map (λ a. f (trim_space a)) rest ≡ map f rest
map-trim_space f [] h = refl
map-trim_space f (a ∷ rest) h =
    ap (λ b. f b ∷ map (λ a. f (trim_space a)) rest) h.0.2
    ∙ ap (λ r. f a ∷ r) (map-trim_space f rest h.1)

map_id : (rest : List Text) → map (λ a. a) rest ≡ rest
map_id [] = refl
map_id (a ∷ rest) = ap (λ r. a ∷ r) (map_id rest)

join_addrs-join :
    (a : Text) (rest : List Text)
    → All IsAddress (a ∷ rest)
    → join_addrs_of (join b',' (a ∷ rest)) ≡ a ∷ rest
unfolding join_addrs_of
join_addrs-join a rest h =
    rw (join_not_empty a rest h.0.0, split-join a rest h)
      (map-trim_space (λ b. b) (a ∷ rest) h ∙ map_id (a ∷ rest))

upstream_dns-join :
    (a : Text) (rest : List Text)
    → All IsAddress (a ∷ rest)
    → upstream_dns_of (join b',' (a ∷ rest)) ≡ map with_port (a ∷ rest)
unfolding upstream_dns_of
upstream_dns-join a rest h =
    rw (join_not_empty a rest h.0.0, split-join a rest h) (map-trim_space with_port (a ∷ rest) h)

-- Lists of addresses that the command line gives, joined by commas, are the lists of the
-- configuration, whatever the environment holds; an upstream server that has no colon gets ":53".
-- No address is empty, has a comma, or has white space at an end.
pub load-join :
    (env : Environment) (line : CommandLine) (a u : Text) (rest others : List Text)
    → All IsAddress (a ∷ rest)
    → All IsAddress (u ∷ others)
    → line.text (str "join") ≡ some (join b',' (a ∷ rest))
    → line.text (str "upstream-dns") ≡ some (join b',' (u ∷ others))
    → ((load env line).join_addrs ≡ a ∷ rest)
      × ((load env line).upstream_dns
          ≡ map (λ addr. if has_colon addr then addr else addr ++ str ":53") (u ∷ others))
unfolding load
load-join env line a u rest others h k given given' = (
  rw (given) (join_addrs-join a rest h),
  rw (given') (unfold with_port in upstream_dns-join u others k),
)

with_port-has_colon : (a : Text) → has_colon (with_port a) ≡ true
unfolding with_port
with_port-has_colon a = elim (Bool-cases (has_colon a)) [ inl e ↦ rw e e | inr e ↦ rw e (ported a) ]
  where
    ported : (s : Text) → has_colon (s ++ str ":53") ≡ true
    ported [] = refl
    ported (c ∷ s) = ground (arith, ported s)

upstream_dns-has_colon : (s : Text) → All (λ a. has_colon a ≡ true) (upstream_dns_of s)
unfolding upstream_dns_of
upstream_dns-has_colon s = elim (Bool-cases (s == str "")) [
  | inl e ↦ rw e tt
  | inr e ↦ rw e (each (split b',' s))
]
  where
    each :
        (rest : List Text)
        → All (λ a. has_colon a ≡ true) (map (λ a. with_port (trim_space a)) rest)
    each [] = tt
    each (a ∷ rest) = (with_port-has_colon (trim_space a), each rest)

-- Whatever the command line and the environment say, every upstream server has a colon, which the
-- client of the DNS server needs.
upstreams_have_colon :
    (env : Environment) (line : CommandLine)
    → All (λ a. has_colon a ≡ true) (load env line).upstream_dns
unfolding load
upstreams_have_colon env line = upstream_dns-has_colon _
