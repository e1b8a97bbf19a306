-- ===== src/Dns/Forward/Upstreams.antt =====
-- Which upstream server answers a query.
use podman_swarm.Base.{
  All, All-map, ◌++◌, ℕ, suc, ◌≡◌, ◌⊎◌, inl, inr, refl, sym, subst, ◌∙◌, Bool, true, false, Option,
  none, some, List, [], ◌∷◌, Result, ok, err, arith,
}
use podman_swarm.Base.Text.{Text}
use podman_swarm.Dns.Hosts.{is_host_allowed}
use podman_swarm.Dns.Forward.Policy.{validate_cname_records_iff}
use podman_swarm.Dns.{Server, Whitelist}
use podman_swarm.Dns.Messages.{rcode_success, rcode_refused, Msg, Dns, rcode_server_failure}
use podman_swarm.Dns.Forward.{
  query_name, cname_targets, forward_query, ask, is_accepted, try_upstreams,
}

module _ {Rr : Type 0} (d : Dns Rr) (w : Whitelist) (r : Msg Rr) where
  -- The upstream at the place returns a response that is passed on.
  abbrev pub Answers : ℕ → Text → Msg Rr → Type 0
  Answers i upstream resp = (ask d i upstream r ≡ ok (some resp)) × (is_accepted d w resp ≡ true)

  abbrev pub Silent : ℕ → Text → Type 0
  Silent i upstream = (resp : Msg Rr) → Answers i upstream resp → ⊥

  -- No upstream from the i-th on answers.
  pub NoneAnswers : ℕ → List Text → Type 0
  NoneAnswers i [] = Unit
  NoneAnswers i (u ∷ us) = Silent i u × NoneAnswers (suc i) us

  -- The response is that of the first upstream, from the i-th on, that answers.
  pub FirstAnswers : ℕ → List Text → Msg Rr → Type 0
  FirstAnswers i [] resp = ⊥
  FirstAnswers i (u ∷ us) resp = Answers i u resp ⊎ (Silent i u × FirstAnswers (suc i) us resp)

  round :
      (i : ℕ) (u : Text) (us : List Text)
      → ((resp : Msg Rr) × Answers i u resp × (try_upstreams d w r i (u ∷ us) ≡ resp))
        ⊎ (Silent i u × (try_upstreams d w r i (u ∷ us) ≡ try_upstreams d w r (suc i) us))
  unfolding try_upstreams
  round i u us = by_result (ask d i u r) refl
    where
      by_accepted :
          (resp : Msg Rr) (b : Bool)
          → ask d i u r ≡ ok (some resp)
          → is_accepted d w resp ≡ b
          → ((resp : Msg Rr) × Answers i u resp × (try_upstreams d w r i (u ∷ us) ≡ resp))
            ⊎ (Silent i u × (try_upstreams d w r i (u ∷ us) ≡ try_upstreams d w r (suc i) us))
      by_accepted resp true at e = inl (resp, (at, e), ground arith)
      by_accepted resp false at e = inr (λ other a. cc, ground arith)

      by_result :
          (a : Result Text (Option (Msg Rr)))
          → ask d i u r ≡ a
          → ((resp : Msg Rr) × Answers i u resp × (try_upstreams d w r i (u ∷ us) ≡ resp))
            ⊎ (Silent i u × (try_upstreams d w r i (u ∷ us) ≡ try_upstreams d w r (suc i) us))
      by_result (err e) at = inr (λ other a. cc, ground arith)
      by_result (ok none) at = inr (λ other a. cc, ground arith)
      by_result (ok (some resp)) at = by_accepted resp (is_accepted d w resp) at refl

  try_upstreams_lem :
      (i : ℕ) (us : List Text)
      → FirstAnswers i us (try_upstreams d w r i us)
        ⊎ (NoneAnswers i us
            × (try_upstreams d w r i us ≡ record (d.reply_to r) { rcode = rcode_server_failure }))
  unfolding try_upstreams NoneAnswers FirstAnswers
  try_upstreams_lem i [] = inr (tt, refl)
  try_upstreams_lem i (u ∷ us) = elim (round i u us) [
    | inl (resp, a, e) ↦ inl (inl (subst (Answers i u) (sym e) a))
    | inr (silent, e) ↦ elim (try_upstreams_lem (suc i) us) [
      | inl first ↦ inl (inr (silent, subst (FirstAnswers (suc i) us) (sym e) first))
      | inr (others, failed) ↦ inr ((silent, others), e ∙ failed)
    ]
  ]

  FirstAnswers-accepted :
      (i : ℕ) (us : List Text) (resp : Msg Rr)
      → FirstAnswers i us resp
      → is_accepted d w resp ≡ true
  unfolding FirstAnswers
  FirstAnswers-accepted i [] resp h = elim h [ ]
  FirstAnswers-accepted i (u ∷ us) resp (inl a) = a.1
  FirstAnswers-accepted i (u ∷ us) resp (inr (silent, first)) =
      FirstAnswers-accepted (suc i) us resp first

-- The server refuses a query exactly when the whitelist is on and does not allow the name of the
-- first question. Otherwise its reply is the response of the first upstream that answers with
-- success and, with the whitelist on, with CNAME records that pass; and SERVFAIL when none does.
pub forward_query_lem :
    {Rr : Type 0} (d : Dns Rr) (s : Server) (r : Msg Rr)
    → let w = s.whitelist in
      let name = query_name r.questions in
      let reply = forward_query d s r in
      ((w.enabled ≡ true)
        × (is_host_allowed w name ≡ false)
        × (reply ≡ record (d.reply_to r) { rcode = rcode_refused }))
      ⊎ ((is_host_allowed w name ≡ true)
          × (FirstAnswers d w r 0 s.upstream_dns reply
              ⊎ (NoneAnswers d w r 0 s.upstream_dns
                  × (reply ≡ record (d.reply_to r) { rcode = rcode_server_failure }))))
unfolding forward_query
forward_query_lem d s r =
    by_flags s.whitelist.enabled (is_host_allowed s.whitelist (query_name r.questions)) refl refl
  where
    forwarded :
        forward_query d s r ≡ try_upstreams d s.whitelist r 0 s.upstream_dns
        → FirstAnswers d s.whitelist r 0 s.upstream_dns (forward_query d s r)
          ⊎ (NoneAnswers d s.whitelist r 0 s.upstream_dns
              × (forward_query d s r ≡ record (d.reply_to r) { rcode = rcode_server_failure }))
    forwarded e = elim (try_upstreams_lem d s.whitelist r 0 s.upstream_dns) [
      | inl first ↦ inl (subst (FirstAnswers d s.whitelist r 0 s.upstream_dns) (sym e) first)
      | inr (others, failed) ↦ inr (others, e ∙ failed)
    ]

    by_flags :
        (on allowed : Bool)
        → s.whitelist.enabled ≡ on
        → is_host_allowed s.whitelist (query_name r.questions) ≡ allowed
        → ((s.whitelist.enabled ≡ true)
            × (is_host_allowed s.whitelist (query_name r.questions) ≡ false)
            × (forward_query d s r ≡ record (d.reply_to r) { rcode = rcode_refused }))
          ⊎ ((is_host_allowed s.whitelist (query_name r.questions) ≡ true)
              × (FirstAnswers d s.whitelist r 0 s.upstream_dns (forward_query d s r)
                  ⊎ (NoneAnswers d s.whitelist r 0 s.upstream_dns
                      × (forward_query d s r
                          ≡ record (d.reply_to r) { rcode = rcode_server_failure }))))
    by_flags true false on e = inl (on, e, ground arith)
    by_flags true true on e = inr (e, forwarded (ground arith))
    by_flags false true on e = inr (e, forwarded (ground arith))
    by_flags false false on e = absurd (unfold is_host_allowed in ground arith)

-- With the whitelist on, a query that is forwarded is refused, answered with SERVFAIL, or answered with
-- success; the last only if the name of its first question is allowed, and then the targets of all
-- CNAME records in the answer and the additional section are allowed. Queries for the cluster's names
-- are not forwarded, and further questions are not looked at.
pub whitelist_holds :
    {Rr : Type 0} (d : Dns Rr) (s : Server) (r : Msg Rr)
    → s.whitelist.enabled ≡ true
    → (forward_query d s r ≡ record (d.reply_to r) { rcode = rcode_refused })
      ⊎ ((forward_query d s r ≡ record (d.reply_to r) { rcode = rcode_server_failure })
          ⊎ ((is_host_allowed s.whitelist (query_name r.questions) ≡ true)
              × ((forward_query d s r).rcode ≡ rcode_success)
              × All
                  (λ t. is_host_allowed s.whitelist t ≡ true)
                  (cname_targets d (forward_query d s r).answer
                    ++ cname_targets d (forward_query d s r).extra)))
whitelist_holds d s r on = elim (forward_query_lem d s r) [
  | inl (e, blocked, refused) ↦ inl refused
  | inr (allowed, inr (others, failed)) ↦ inr (inl failed)
  | inr (allowed, inl first) ↦
      let a = FirstAnswers-accepted d s.whitelist r 0 s.upstream_dns (forward_query d s r) first in
      inr (
        inr (
          allowed,
          ground arith,
          All-map _ _ _ (λ t p. p.0)
              ((validate_cname_records_iff d s.whitelist (forward_query d s r)).0 (ground arith)),
        ))
]
