-- ===== src/Engine/Admission.antt =====
-- What the policy decides on an objective that a peer proposes.
use go_nitro.Base.{
  ◌≡◌, ◌∙◌, ◌⊎◌, inl, inr, refl, ap, sym, true, false, Bool, Bool-cases, [], ◌∷◌, ok, ◌>>=◌,
  >>=-eq-ok, ok_injective, arith, subst,
}
use go_nitro.State.Library.{Library}
use go_nitro.Protocols.{ObjectiveId, rejected, approved}
use go_nitro.Protocols.DirectFund
use go_nitro.Protocols.DirectDefund
use go_nitro.Protocols.VirtualFund
use go_nitro.Protocols.VirtualDefund
use go_nitro.Store.{
  MemStore, Objective, of_direct_fund, of_direct_defund, of_virtual_fund, of_virtual_defund,
  status_of, set_objective, objective_id, get_objective_by_id,
}
use go_nitro.Store.Reading.{HasLedgers, reread}
use go_nitro.Store.RoundTrip.{get_objective_by_id-set_objective}
use go_nitro.Engine.{
  Engine, ObjectiveChangeEvent, no_change, unless_failed, is_unapproved, destroy_if_direct_defund,
  admit,
}
use go_nitro.Protocols.Lives.{distinct_flags}
use go_nitro.Engine.Objectives.{approve, reject}

reject-status : (lib : Library) (o r : Objective) → reject lib o ≡ ok r → status_of r ≡ rejected
unfolding reject status_of DirectFund.reject DirectDefund.reject VirtualFund.reject
    VirtualDefund.reject
reject-status lib (of_direct_fund o) r e =
    let (u, hu, e1) = >>=-eq-ok (DirectFund.reject lib o) _ e in
    let (v, _, e2) = >>=-eq-ok (DirectFund.clone lib o) _ hu in
    ap status_of (sym (ok_injective e1)) ∙ ap (λ x. x.status) (sym (ok_injective e2))
reject-status lib (of_direct_defund o) r e =
    let (u, hu, e1) = >>=-eq-ok (DirectDefund.reject lib o) _ e in
    let (v, _, e2) = >>=-eq-ok (DirectDefund.clone lib o) _ hu in
    ap status_of (sym (ok_injective e1)) ∙ ap (λ x. x.status) (sym (ok_injective e2))
reject-status lib (of_virtual_fund o) r e =
    let (u, hu, e1) = >>=-eq-ok (VirtualFund.reject lib o) _ e in
    let (v, _, e2) = >>=-eq-ok (VirtualFund.clone lib o) _ hu in
    ap status_of (sym (ok_injective e1)) ∙ ap (λ x. x.status) (sym (ok_injective e2))
reject-status lib (of_virtual_defund o) r e =
    let (u, hu, e1) = >>=-eq-ok (VirtualDefund.reject o) _ e in
    let (v, _, e2) = >>=-eq-ok (VirtualDefund.clone o) _ hu in
    ap status_of (sym (ok_injective e1)) ∙ ap (λ x. x.status) (sym (ok_injective e2))

approve-status : (lib : Library) (o r : Objective) → approve lib o ≡ ok r → status_of r ≡ approved
unfolding approve status_of DirectFund.approve DirectDefund.approve VirtualFund.approve
    VirtualDefund.approve
approve-status lib (of_direct_fund o) r e =
    let (u, hu, e1) = >>=-eq-ok (DirectFund.approve lib o) _ e in
    let (v, _, e2) = >>=-eq-ok (DirectFund.clone lib o) _ hu in
    ap status_of (sym (ok_injective e1)) ∙ ap (λ x. x.status) (sym (ok_injective e2))
approve-status lib (of_direct_defund o) r e =
    let (u, hu, e1) = >>=-eq-ok (DirectDefund.approve lib o) _ e in
    let (v, _, e2) = >>=-eq-ok (DirectDefund.clone lib o) _ hu in
    ap status_of (sym (ok_injective e1)) ∙ ap (λ x. x.status) (sym (ok_injective e2))
approve-status lib (of_virtual_fund o) r e =
    let (u, hu, e1) = >>=-eq-ok (VirtualFund.approve lib o) _ e in
    let (v, _, e2) = >>=-eq-ok (VirtualFund.clone lib o) _ hu in
    ap status_of (sym (ok_injective e1)) ∙ ap (λ x. x.status) (sym (ok_injective e2))
approve-status lib (of_virtual_defund o) r e =
    let (u, hu, e1) = >>=-eq-ok (VirtualDefund.approve o) _ e in
    let (v, _, e2) = >>=-eq-ok (VirtualDefund.clone o) _ hu in
    ap status_of (sym (ok_injective e1)) ∙ ap (λ x. x.status) (sym (ok_injective e2))

module _ (lib : Library) (should_approve : Objective → Bool) where
  -- The objective waits for approval and the policy refuses it: the engine has sent nothing, and
  -- reports what `reject` makes of it, which is rejected and stored so.
  pub record Refused (e after : Engine) (o : Objective) (change : ObjectiveChangeEvent)
      : Type 0 where
    pub objective : Objective
    pub waits : is_unapproved (status_of o) ≡ true
    pub refusal : should_approve o ≡ false
    pub by : reject lib o ≡ ok objective
    pub status : status_of objective ≡ rejected
    pub reported : change.completed_objectives ≡ objective ∷ []
    pub unsent : after.sent ≡ e.sent
    pub unsubmitted : after.submitted ≡ e.submitted
    pub stored :
        HasLedgers objective
        → (id : ObjectiveId) → objective_id lib objective ≡ ok id
        → get_objective_by_id after.store id ≡ ok (reread objective)

  -- What `admit` gives with an approved objective.
  abbrev accepted_answer : Engine → Objective → Engine × Objective × Bool
  accepted_answer e a = (record e { store = destroy_if_direct_defund e.store a }, a, false)

  -- What `admit` gives with a rejected objective.
  abbrev answer : Engine → Objective → MemStore → Engine × Objective × Bool
  answer e r ms = (record e { store = ms }, r, true)

  not_rejected :
      (e : Engine) (o : Objective) (after : Engine) (r : Objective)
      → (approve lib o >>= λ a. ok (accepted_answer e a)) ≡ ok (after, r, true)
      → ⊥
  not_rejected e o after r h =
      let (a, _, h1) = >>=-eq-ok (approve lib o) _ h in
      distinct_flags (ap (λ t. t.2) (ok_injective h1))

  pub admit-Refused :
      (e after : Engine) (o r : Objective)
      → admit lib should_approve e o ≡ ok (after, r, true)
      → Refused e after o (record no_change { completed_objectives = r ∷ [] })
  unfolding admit
  admit-Refused e after o r h = elim (Bool-cases (is_unapproved (status_of o))) [
    | inr known ↦ absurd (ground (arith, known, h))
    | inl new ↦ elim (Bool-cases (should_approve o)) [
      | inl accepted ↦ absurd (not_rejected e o after r (ground (arith, new, accepted, h)))
      | inr refused ↦
          let outcome : Engine × Objective × Bool = (after, r, true) in
          let rejecting : (reject lib o >>= λ x.
          set_objective lib e.store x >>= λ y. unless_failed y.1 >>= λ _. ok (answer e x y.0))
              ≡ ok outcome =
            ground (arith, new, refused, h) in
          let (x, hx, h1) = >>=-eq-ok (reject lib o) _ rejecting in
          let ((ms, failure), hs, h2) = >>=-eq-ok (set_objective lib e.store x) _ h1 in
          let (_, _, h3) = >>=-eq-ok (unless_failed failure) _ h2 in
          let made : answer e x ms ≡ outcome = ok_injective h3 in
          subst (λ t. Refused e t.0 o (record no_change { completed_objectives = t.1 ∷ [] })) made
            (record {
              objective = x;
              waits = new;
              refusal = refused;
              by = hx;
              status = reject-status lib o x hx;
              reported = refl;
              unsent = refl;
              unsubmitted = refl;
              stored = λ hl id hid.
                  get_objective_by_id-set_objective lib e.store ms x id failure hl hid hs;
            })
    ]
  ]

  -- The objective does not wait for approval and goes on as it is, in the same engine, or it does,
  -- the policy approves it, and what `approve` makes of it goes on, of a direct defunding objective
  -- with its ledger channel removed from the store.
  abbrev pub IsAdmitted : Engine → Engine → Objective → Objective → Type 0
  IsAdmitted e start o r =
      (is_unapproved (status_of o) ≡ false) × (r ≡ o) × (start ≡ e)
      ⊎ (is_unapproved (status_of o) ≡ true)
        × (should_approve o ≡ true)
        × (approve lib o ≡ ok r)
        × (start ≡ record e { store = destroy_if_direct_defund e.store r })

  pub admit_status :
      (e e' : Engine) (o r : Objective)
      → admit lib should_approve e o ≡ ok (e', r, false)
      → IsAdmitted e e' o r
        × (is_unapproved (status_of r) ≡ false)
        × (e'.sent ≡ e.sent)
        × (e'.submitted ≡ e.submitted)
  unfolding admit
  admit_status e e' o r h = elim (Bool-cases (is_unapproved (status_of o))) [
    | inr known ↦
        let outcome : Engine × Objective × Bool = (e', r, false) in
        let given : Engine × Objective × Bool = (e, o, false) in
        let same : given ≡ outcome = ok_injective (ground (arith, known, h)) in
        subst
          (λ t.
            IsAdmitted e t.0 o t.1
            × (is_unapproved (status_of t.1) ≡ false)
            × (t.0.sent ≡ e.sent)
            × (t.0.submitted ≡ e.submitted))
          same (inl (known, refl, refl), known, refl, refl)
    | inl new ↦ elim (Bool-cases (should_approve o)) [
      | inl accepted ↦
          let outcome : Engine × Objective × Bool = (e', r, false) in
          let approving : (approve lib o >>= λ a. ok (accepted_answer e a)) ≡ ok outcome =
            ground (arith, new, accepted, h) in
          let (a, ha, h1) = >>=-eq-ok (approve lib o) _ approving in
          subst
            (λ t.
              IsAdmitted e t.0 o t.1
              × (is_unapproved (status_of t.1) ≡ false)
              × (t.0.sent ≡ e.sent)
              × (t.0.submitted ≡ e.submitted))
            (ok_injective h1)
            (
              inr (new, accepted, ha, refl),
              ap is_unapproved (approve-status lib o a ha),
              refl,
              refl,
            )
      | inr refused ↦
          let outcome : Engine × Objective × Bool = (e', r, false) in
          let rejecting : (reject lib o >>= λ x.
          set_objective lib e.store x >>= λ y. unless_failed y.1 >>= λ _. ok (answer e x y.0))
              ≡ ok outcome =
            ground (arith, new, refused, h) in
          let (x, hx, h1) = >>=-eq-ok (reject lib o) _ rejecting in
          let ((ms, failure), hs, h2) = >>=-eq-ok (set_objective lib e.store x) _ h1 in
          let (_, _, h3) = >>=-eq-ok (unless_failed failure) _ h2 in
          absurd (distinct_flags (sym (ap (λ t. t.2) (ok_injective h3))))
    ]
  ]
