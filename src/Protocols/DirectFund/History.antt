-- ===== src/Protocols/DirectFund/History.antt =====
-- A direct funding objective over its life: cranks, updates, chain events, approval and rejection.
use go_nitro.Base.{
  ◌∷◌, Bool, ◌≡◌, ◌⊎◌, inl, inr, refl, ap, sym, ◌∙◌, false, Bool-cases, not, ltb, List, [], ok,
  fail_if, >>=-eq-ok, ok_injective, arith,
}
use go_nitro.Types.Destination.{Bytes}
use go_nitro.State.Library.{Library}
use go_nitro.State.Signed.{SignedState}
use go_nitro.Channel.Updates.{add_signed_state}
use go_nitro.Protocols.Lives.{Life, AtMostOne, AtMostOneNow, Life-AtMostOne}
use go_nitro.Protocols.{
  approved_status, deposit_transaction, ObjectiveId, ChainTransaction, ChainEvent, deposited,
  allocation_updated, concluded, is_approved, equal_ids,
}
use go_nitro.Protocols.DirectFund.{
  Objective, clone, id_of, approve, reject, update, update_with_chain_event,
}
use go_nitro.Protocols.DirectFund.Crank.{Cranked, crank}
use go_nitro.Protocols.DirectFund.Safety.{
  IsDeposit, IsQuiet, crank-Stage, crank_inactive, clone_status,
}

abbrev pub submitted : Objective → Bool
submitted o = o.transaction_submitted

module _ (lib : Library) (key : Bytes) where
  -- The calls of an objective, each with the transactions that it submits.
  pub data Call : Objective → List ChainTransaction → Objective → Type 0 where
    cranks :
        (o : Objective) (r : Cranked)
        → crank lib key o ≡ ok r
        → Call o r.effects.transactions_to_submit r.objective
    updates :
        (o u : Objective) (id : ObjectiveId) (ss : SignedState)
        → update lib o id ss ≡ ok u
        → Call o [] u
    observes :
        (o u : Objective) (event : ChainEvent)
        → update_with_chain_event lib o event ≡ ok u
        → Call o [] u
    approves : (o u : Objective) → approve lib o ≡ ok u → Call o [] u
    rejects : (o u : Objective) → reject lib o ≡ ok u → Call o [] u

  approve_submitted :
      (o u : Objective) → approve lib o ≡ ok u → u.transaction_submitted ≡ o.transaction_submitted
  unfolding approve
  approve_submitted o u e =
      let (v, hv, e1) = >>=-eq-ok (clone lib o) _ e in
      let (_, kept) = clone_status lib key o v hv in
      ap (λ x. x.transaction_submitted) (sym (ok_injective e1)) ∙ kept

  reject_submitted :
      (o u : Objective) → reject lib o ≡ ok u → u.transaction_submitted ≡ o.transaction_submitted
  unfolding reject
  reject_submitted o u e =
      let (v, hv, e1) = >>=-eq-ok (clone lib o) _ e in
      let (_, kept) = clone_status lib key o v hv in
      ap (λ x. x.transaction_submitted) (sym (ok_injective e1)) ∙ kept

  update_submitted :
      (o u : Objective) (id : ObjectiveId) (ss : SignedState)
      → update lib o id ss ≡ ok u
      → u.transaction_submitted ≡ o.transaction_submitted
  unfolding update
  update_submitted o u id ss e =
      let (_, _, e1) = >>=-eq-ok (fail_if (not (equal_ids (id_of o) id)) _) _ e in
      let (v, hv, e2) = >>=-eq-ok (clone lib o) _ e1 in
      let ((_, c), _, e3) = >>=-eq-ok (add_signed_state lib v.c ss) _ e2 in
      let (_, kept) = clone_status lib key o v hv in
      ap (λ x. x.transaction_submitted) (sym (ok_injective e3)) ∙ kept

  event_submitted :
      (o u : Objective) (event : ChainEvent)
      → update_with_chain_event lib o event ≡ ok u
      → u.transaction_submitted ≡ o.transaction_submitted
  unfolding update_with_chain_event
  event_submitted o u (deposited channel block asset amount held) e =
      let (v, hv, e1) = >>=-eq-ok (clone lib o) _ e in
      let (_, kept) = clone_status lib key o v hv in
      elim (Bool-cases (ltb v.latest_block_number block)) [
        | inl newer ↦ ground (arith, newer, e1, kept)
        | inr older ↦ ground (arith, older, e1, kept)
      ]
  event_submitted o u (allocation_updated channel block asset amount) e =
      let (v, hv, e1) = >>=-eq-ok (clone lib o) _ e in cc
  event_submitted o u (concluded channel block) e =
      let (v, hv, e1) = >>=-eq-ok (clone lib o) _ e in cc

  crank_cases :
      (o : Objective) (r : Cranked)
      → crank lib key o ≡ ok r
      → IsQuiet o r ⊎ (o.transaction_submitted ≡ false) × IsDeposit r
  crank_cases o r e = elim (Bool-cases (is_approved o.status)) [
    | inl active ↦ (crank-Stage lib key o r (approved_status o.status active) e).deposit
    | inr idle ↦ inl ((crank_inactive lib key o r idle e).0)
  ]

  -- The transaction that a crank of the objective submits as its one deposit, with the objective
  -- that it leaves.
  pub record IsDue (o : Objective) (t : ChainTransaction) (u : Objective) : Type 0 where
    pub by : Cranked
    pub cranked : crank lib key o ≡ ok by
    pub left : by.objective ≡ u
    pub submits : by.effects.transactions_to_submit ≡ t ∷ []
    pub due : IsDeposit by

  Call-AtMostOne :
      (o u : Objective) (ts : List ChainTransaction)
      → Call o ts u
      → AtMostOneNow submitted Call IsDue o ts u
  Call-AtMostOne o u ts (cranks _ r h) = elim (crank_cases o r h) [
    | inl quiet ↦ inl quiet
    | inr (fresh, d) ↦ inr (
      fresh,
      d.recorded,
      deposit_transaction r.objective.c.id d.amount,
      d.deposits,
      record { by = r; cranked = h; left = refl; submits = d.deposits; due = d },
    )
  ]
  Call-AtMostOne o u ts (updates _ _ id ss h) = inl (refl, update_submitted o u id ss h)
  Call-AtMostOne o u ts (observes _ _ event h) = inl (refl, event_submitted o u event h)
  Call-AtMostOne o u ts (approves _ _ h) = inl (refl, approve_submitted o u h)
  Call-AtMostOne o u ts (rejects _ _ h) = inl (refl, reject_submitted o u h)

  -- Over any life of an objective, with its cranks, updates, chain events, approvals and
  -- rejections in any order, at most one transaction is submitted: a deposit, which is due, and
  -- safe by the objective's own record of the chain, at the crank that submits it. None is submitted
  -- once one is recorded, and a record stays.
  pub Life-OneDeposit :
      (o : Objective) (ts : List ChainTransaction) (e : Objective)
      → Life Call o ts e
      → AtMostOne submitted Call IsDue o ts e
  Life-OneDeposit = Life-AtMostOne submitted Call IsDue Call-AtMostOne
