-- ===== src/Api/Services/Runs.antt =====
-- How far applying and deleting a service get: to the last pod, or to one whose broadcast panics.
use podman_swarm.Base.{
  ℕ, suc, ◌+◌, ◌≡◌, ◌⊎◌, inl, inr, refl, ap, sym, subst, true, false, Option, some, List, [], ◌∷◌,
  ◌++◌, length, In, Bool-cases, arith, if◌then◌else◌,
}
use podman_swarm.Base.Text.{Text, str, ◌==◌}
use podman_swarm.Base.Map.{Map}
use podman_swarm.Api.State.{State}
use podman_swarm.Types.{Pod, Service, Node, Call, returns, panics}
use podman_swarm.Discovery.{
  ServiceEndpoint, Registry, Update, endpoint_for, register_service, registered_endpoint,
}
use podman_swarm.Api.Services.{matches_selector, register_all, then_call}
use podman_swarm.Api.Services.Endpoints.{
  endpoint_of, Selected, Registered, Registered-cons, Registered-skip, endpoint_of-register,
}

In-first :
    (p : Pod) (got : List Pod) (last : Pod) (rest : List Pod)
    → In p (got ++ (last ∷ []))
    → In p (got ++ (last ∷ rest))
In-first p [] last rest (inl e) = inl e
In-first p [] last rest (inr m) = absurd m
In-first p (x ∷ got) last rest (inl e) = inl e
In-first p (x ∷ got) last rest (inr m) = inr (In-first p got last rest m)

module _ (updates : ℕ → Update) (nodes : Map Node) (clock : ℕ → ℕ) (svc : Service) where
  -- What the broadcast of the i-th pod's registration does.
  abbrev pub announced : ℕ → Pod → Call
  announced i pod = updates i (endpoint_for nodes (clock i) svc pod) (str "register")

  -- The broadcasts of the selected pods of the list, the first of which is the i-th, return.
  abbrev pub Quiet : ℕ → List Pod → Type 0
  Quiet i [] = Unit {0}
  Quiet i (pod ∷ pods) =
      (matches_selector pod.labels svc.selector ≡ true → announced i pod ≡ returns)
      × Quiet (suc i) pods

  -- The loop gets through, or to a selected pod, whose own registration is the last: its broadcast
  -- panics. The pods that it got to are registered.
  abbrev pub Registers : ℕ → List Pod → Text → Option ServiceEndpoint → Registry × Call → Type 0
  Registers i pods id before r =
      ((r.1 ≡ returns)
        × Quiet i pods
        × Registered nodes clock svc pods id before (endpoint_of svc id r.0))
      ⊎ ((r.1 ≡ panics)
          × ((got : List Pod) × (last : Pod) × (rest : List Pod) × (pods ≡ got ++ (last ∷ rest))
              × (matches_selector last.labels svc.selector ≡ true)
              × Quiet i got
              × (announced (i + length got) last ≡ panics)
              × Registered nodes clock svc (got ++ (last ∷ [])) id before (endpoint_of svc id r.0)))

  Registers-cons :
      (i : ℕ) (pod : Pod) (pods : List Pod) (id : Text) (before mid : Option ServiceEndpoint)
      (r : Registry × Call)
      → (matches_selector pod.labels svc.selector ≡ true → announced i pod ≡ returns)
      → ((ps : List Pod) (after : Option ServiceEndpoint)
          → Registered nodes clock svc ps id mid after
          → Registered nodes clock svc (pod ∷ ps) id before after)
      → Registers (suc i) pods id mid r
      → Registers i (pod ∷ pods) id before r
  Registers-cons i pod pods id before mid r quiet more (inl (back, q, h)) =
      inl (back, (quiet, q), more pods (endpoint_of svc id r.0) h)
  Registers-cons i pod pods id before mid r quiet more
        (inr (broken, (got, last, rest, parts, sel, q, panicking, h))) =
      inr (
        broken,
        (
          pod ∷ got,
          last,
          rest,
          ap (λ ps. pod ∷ ps) parts,
          sel,
          (quiet, q),
          subst (λ k. announced k last ≡ panics) (omega arith) panicking,
          more (got ++ (last ∷ [])) (endpoint_of svc id r.0) h,
        ),
      )

  register_all-Registers :
      (i : ℕ) (pods : List Pod) (id : Text) (reg : Registry)
      → Registers i pods id
          (endpoint_of svc id reg)
          (register_all updates nodes clock i svc pods reg)
  unfolding register_all register_service
  register_all-Registers i [] id reg = inl (refl, tt, inr ((λ p m h. absurd m), refl))
  register_all-Registers i (pod ∷ pods) id reg =
      elim (Bool-cases (matches_selector pod.labels svc.selector)) [
        | inr out ↦
            subst (Registers i (pod ∷ pods) id (endpoint_of svc id reg)) (sym (skipped out)) (
              Registers-cons i pod pods id (endpoint_of svc id reg) (endpoint_of svc id reg)
                (register_all updates nodes clock (suc i) svc pods reg) (λ h. cc)
                (λ ps after. Registered-skip nodes clock svc pod ps id _ after out)
                (register_all-Registers (suc i) pods id reg))
        | inl sel ↦ subst (Registers i (pod ∷ pods) id (endpoint_of svc id reg)) (sym (taken sel)) (
            by_call (announced i pod) refl sel (
              register_all-Registers (suc i) pods id
                (registered_endpoint nodes (clock i) svc pod reg)))
      ]
    where
      reg' : Registry
      reg' = registered_endpoint nodes (clock i) svc pod reg

      skipped :
          matches_selector pod.labels svc.selector ≡ false
          → register_all updates nodes clock i svc (pod ∷ pods) reg
            ≡ register_all updates nodes clock (suc i) svc pods reg
      skipped out = rw (out, register_all) refl

      taken :
          matches_selector pod.labels svc.selector ≡ true
          → register_all updates nodes clock i svc (pod ∷ pods) reg
            ≡ then_call
                (register_service (updates i) nodes (clock i) svc pod reg)
                (λ next. register_all updates nodes clock (suc i) svc pods next)
      taken sel = rw (sel, register_all) refl

      put : endpoint_of svc id reg' ≡ (
          if pod.id == id
          then some (endpoint_for nodes (clock i) svc pod)
          else endpoint_of svc id reg)
      put = endpoint_of-register nodes (clock i) svc pod id reg

      by_call :
          (call : Call)
          → announced i pod ≡ call
          → matches_selector pod.labels svc.selector ≡ true
          → Registers
              (suc i)
              pods
              id
              (endpoint_of svc id reg')
              (register_all updates nodes clock (suc i) svc pods reg')
          → Registers i (pod ∷ pods) id (endpoint_of svc id reg) (
              then_call
                (reg', call)
                (λ next. register_all updates nodes clock (suc i) svc pods next))
      by_call returns e sel rest =
          Registers-cons i pod pods id (endpoint_of svc id reg) (endpoint_of svc id reg')
            (register_all updates nodes clock (suc i) svc pods reg') (λ h. e)
            (λ ps after h.
              Registered-cons nodes clock i svc pod ps id (endpoint_of svc id reg) after sel
                (subst (λ o. Registered nodes clock svc ps id o after) put h))
            rest
      by_call panics e sel rest = inr (
        refl,
        (
          [],
          pod,
          pods,
          refl,
          sel,
          tt,
          subst (λ k. announced k pod ≡ panics) (omega arith) e,
          Registered-cons nodes clock i svc pod [] id (endpoint_of svc id reg)
              (endpoint_of svc id reg') sel (inr ((λ p m h. absurd m), put)),
        ),
      )

-- However far the loop gets, an entry is that of a selected pod, or as before.
pub register_all-entry :
    (updates : ℕ → Update) (nodes : Map Node) (clock : ℕ → ℕ) (svc : Service) (i : ℕ)
    (pods : List Pod) (id : Text) (reg : Registry)
    → let entry = endpoint_of svc id (register_all updates nodes clock i svc pods reg).0 in
      ((p : Pod) × (j : ℕ) × Selected svc pods id p
        × (entry ≡ some (endpoint_for nodes (clock j) svc p)))
      ⊎ (entry ≡ endpoint_of svc id reg)
register_all-entry updates nodes clock svc i pods id reg =
    elim (register_all-Registers updates nodes clock svc i pods id reg) [
      | inl (back, quiet, inl h) ↦ inl h
      | inl (back, quiet, inr (others, at)) ↦ inr at
      | inr
            (
              broken,
              (got, last, rest, parts, sel, quiet, panicking, inl (p, j, (m, on, same), at)),
            ) ↦
          inl (p, j, (subst (λ ps. In p ps) (sym parts) (In-first p got last rest m), on, same), at)
      | inr (broken, (got, last, rest, parts, sel, quiet, panicking, inr (others, at))) ↦ inr at
    ]
