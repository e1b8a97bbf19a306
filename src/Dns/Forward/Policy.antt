-- ===== src/Dns/Forward/Policy.antt =====
-- What a client gets through the server when the whitelist is on.
use podman_swarm.Base.{
  ◌≡◌, ◌↔◌, inl, inr, Bool, true, none, some, List, [], inl, inr, ◌∷◌, ◌++◌, all, All, All-append,
  All-append_inv, All-map, All-both, All-all, all_of_All, sym, Bool-cases, Option-cases, subst,
  arith,
}
use podman_swarm.Base.Text.{Text, eq_iff, ◌==◌}
use podman_swarm.Base.Map.{Map, lookup, insert, lookup-insert, lookup-nil}
use podman_swarm.Dns.{Whitelist}
use podman_swarm.Dns.Names.{normalize}
use podman_swarm.Dns.Hosts.{is_host_allowed}
use podman_swarm.Dns.Messages.{Msg, Dns}
use podman_swarm.Dns.Forward.{
  cname_targets, extract_from, extract_cname_targets, validate_cname_records,
}

-- What the loop has seen passes.
Seen : (Text → Type 0) → Map Bool → Type 0
Seen P m = (k : Text) (b : Bool) → lookup k m ≡ some b → P k

Seen-insert :
    (P : Text → Type 0) (k : Text) (m : Map Bool) → P k → Seen P m → Seen P (insert k true m)
unfolding Seen
Seen-insert P k m p h j b at = elim (Bool-cases (k == j)) [
  | inl e ↦ subst P ((eq_iff k j).0 e) p
  | inr e ↦ h j b (ground (arith, lookup-insert k j true m))
]

-- One round of the two loops, by what the record is.
module _ {Rr : Type 0} (d : Dns Rr) (rr : Rr) (rrs : List Rr) (seen : Map Bool) where
  other_record :
      d.cname_target rr ≡ none
      → (cname_targets d (rr ∷ rrs) ≡ cname_targets d rrs)
        × (extract_from d (rr ∷ rrs) seen ≡ extract_from d rrs seen)
  unfolding cname_targets extract_from
  other_record e = (ground arith, ground arith)

  module _ (t : Text) (e : d.cname_target rr ≡ some t) where
    cname_record : cname_targets d (rr ∷ rrs) ≡ t ∷ cname_targets d rrs
    unfolding cname_targets
    cname_record = ground arith

    new_target :
        lookup (normalize t) seen ≡ none
        → let rest = extract_from d rrs (insert (normalize t) true seen) in
          extract_from d (rr ∷ rrs) seen ≡ (normalize t ∷ rest.0, rest.1)
    unfolding extract_from
    new_target n = ground arith

    old_target :
        (b : Bool)
        → lookup (normalize t) seen ≡ some b
        → extract_from d (rr ∷ rrs) seen ≡ extract_from d rrs seen
    unfolding extract_from
    old_target b n = ground arith

module _ {Rr : Type 0} (d : Dns Rr) (P : Text → Type 0) where
  abbrev Q : Text → Type 0
  Q t = P (normalize t)

  -- The list of a section passes when every normalized target does.
  extract-All :
      (rrs : List Rr) (seen : Map Bool)
      → All Q (cname_targets d rrs)
      → All P (extract_from d rrs seen).0
  unfolding cname_targets extract_from
  extract-All [] seen h = tt
  extract-All (rr ∷ rrs) seen h = elim (Option-cases (d.cname_target rr)) [
    | inl at ↦
        let (targets, same) = other_record d rr rrs seen at in
        subst (λ x. All P x.0) (sym same) (extract-All rrs seen (subst (All Q) targets h))
    | inr (t, at) ↦
        let k : Q t × All Q (cname_targets d rrs) =
          subst (All Q) (cname_record d rr rrs seen t at) h in
        elim (Option-cases (lookup (normalize t) seen)) [
          | inl e ↦
              subst (λ x. All P x.0) (sym (new_target d rr rrs seen t at e))
                (k.0, extract-All rrs (insert (normalize t) true seen) k.1)
          | inr (b, e) ↦
              subst (λ x. All P x.0) (sym (old_target d rr rrs seen t at b e))
                (extract-All rrs seen k.1)
        ]
  ]

  -- When the list passes, so does every normalized target, and all that the loop has seen.
  All-extract :
      (rrs : List Rr) (seen : Map Bool)
      → Seen P seen
      → All P (extract_from d rrs seen).0
      → All Q (cname_targets d rrs) × Seen P (extract_from d rrs seen).1
  unfolding cname_targets extract_from Seen
  All-extract [] seen old h = (tt, old)
  All-extract (rr ∷ rrs) seen old h = elim (Option-cases (d.cname_target rr)) [
    | inl at ↦
        let (targets, same) = other_record d rr rrs seen at in
        let (all, after) = All-extract rrs seen old (subst (λ x. All P x.0) same h) in
        (subst (All Q) (sym targets) all, subst (λ x. Seen P x.1) (sym same) after)
    | inr (t, at) ↦
        let (front, all, after) : Q t
            × All Q (cname_targets d rrs)
            × Seen P (extract_from d (rr ∷ rrs) seen).1 =
          elim (Option-cases (lookup (normalize t) seen)) [
            | inl e ↦
                let new = new_target d rr rrs seen t at e in
                let k : P (normalize t)
                    × All P (extract_from d rrs (insert (normalize t) true seen)).0 =
                  subst (λ x. All P x.0) new h in
                let (all, after) =
                  All-extract rrs (insert (normalize t) true seen)
                    (Seen-insert P (normalize t) seen k.0 old) k.1 in
                (k.0, all, subst (λ x. Seen P x.1) (sym new) after)
            | inr (b, e) ↦
                let same = old_target d rr rrs seen t at b e in
                let (all, after) = All-extract rrs seen old (subst (λ x. All P x.0) same h) in
                (old (normalize t) b e, all, subst (λ x. Seen P x.1) (sym same) after)
          ] in
        (subst (All Q) (sym (cname_record d rr rrs seen t at)) (front, all), after)
  ]

module _ {Rr : Type 0} (d : Dns Rr) (w : Whitelist) where
  abbrev Allowed : Text → Type 0
  Allowed t = is_host_allowed w t ≡ true

  extracted-All :
      (resp : Msg Rr)
      → All Allowed (extract_cname_targets d resp)
        ↔ All
            (λ t. Allowed (normalize t))
            (cname_targets d resp.answer ++ cname_targets d resp.extra)
  unfolding extract_cname_targets Seen
  extracted-All resp = (
    λ h.
        let (front, back) = All-append_inv Allowed first.0 second.0 h in
        let (answer, seen) =
          All-extract d Allowed resp.answer [] (λ k b e. ground (arith, lookup-nil Bool k)) front in
        let (extra, after) = All-extract d Allowed resp.extra first.1 seen back in
        All-append (λ t. Allowed (normalize t)) (cname_targets d resp.answer)
          (cname_targets d resp.extra) answer extra,
    λ h.
        let (front, back) =
          All-append_inv (λ t. Allowed (normalize t)) (cname_targets d resp.answer)
            (cname_targets d resp.extra) h in
        All-append Allowed first.0 second.0 (extract-All d Allowed resp.answer [] front)
          (extract-All d Allowed resp.extra first.1 back),
  )
    where
      first : List Text × Map Bool
      first = extract_from d resp.answer []

      second : List Text × Map Bool
      second = extract_from d resp.extra first.1

  -- A response passes exactly when each CNAME target of its two sections is allowed, as it stands
  -- and in its normalized form. Dropping repeated targets leaves none unchecked.
  pub validate_cname_records_iff :
      (resp : Msg Rr)
      → (validate_cname_records d w resp ≡ true)
        ↔ All
            (λ t. (is_host_allowed w t ≡ true) × (is_host_allowed w (normalize t) ≡ true))
            (cname_targets d resp.answer ++ cname_targets d resp.extra)
  unfolding validate_cname_records
  validate_cname_records_iff resp = (
    λ h.
        All-both Allowed (λ t. Allowed (normalize t)) targets
          (All-append Allowed (cname_targets d resp.answer) (cname_targets d resp.extra)
            (All-all (is_host_allowed w) (cname_targets d resp.answer) (ground arith))
            (All-all (is_host_allowed w) (cname_targets d resp.extra) (ground arith)))
          ((extracted-All resp).0
            (All-all (is_host_allowed w) (extract_cname_targets d resp) (ground arith))),
    λ h.
        let (answer, extra) =
          All-append_inv Allowed (cname_targets d resp.answer) (cname_targets d resp.extra)
            (All-map Both Allowed targets (λ t p. p.0) h) in
        let all = all_of_All (is_host_allowed w) (extract_cname_targets d resp) (
          (extracted-All resp).1
            (All-map Both (λ t. Allowed (normalize t)) targets (λ t p. p.1) h)) in
        ground (
          arith,
          all_of_All (is_host_allowed w) (cname_targets d resp.answer) answer,
          all_of_All (is_host_allowed w) (cname_targets d resp.extra) extra,
        ),
  )
    where
      Both : Text → Type 0
      Both t = (is_host_allowed w t ≡ true) × (is_host_allowed w (normalize t) ≡ true)

      targets : List Text
      targets = cname_targets d resp.answer ++ cname_targets d resp.extra
