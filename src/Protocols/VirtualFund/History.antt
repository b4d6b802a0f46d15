-- ===== src/Protocols/VirtualFund/History.antt =====
-- A virtual funding objective over its life: cranks, updates, approval and rejection.
use go_nitro.Base.{
  not_approved, ◌≡◌, inl, inr, ap, sym, ◌∙◌, false, Bool-cases, not, some, ◌==◌, length, ok,
  fail_if, >>=-eq-ok, ok_injective, arith, subst, mismatched_ids, zero_channel, wrong_channel,
  ◌>>=◌,
}
use go_nitro.Types.Destination.{Bytes}
use go_nitro.State.Library.{Library}
use go_nitro.State.Recovery.{CurveLaws}
use go_nitro.State.Hashing.{state_channel_id}
use go_nitro.State.Signed.{SignedState, signatures}
use go_nitro.Channel.Updates.{add_signed_state}
use go_nitro.Consensus.Proposal.{SignedProposal, target_of}
use go_nitro.Protocols.{ObjectiveId, equal_ids, is_approved, approved_status, fail-eq-ok}
use go_nitro.Protocols.VirtualFund.{
  Objective, id_of, clone, approve, reject, update, update_proposal, update_state, is_alice, is_bob,
  ledger_id,
}
use go_nitro.Protocols.VirtualFund.Ledgers.{handle_proposal}
use go_nitro.Protocols.VirtualFund.Crank.{Cranked, crank, waiting_for_nothing}
use go_nitro.Protocols.VirtualFund.Invariant.{
  ConnectionMoves, ConnectionMoves-refl, handle_proposal-Moves,
}
use go_nitro.Protocols.VirtualFund.Safety.{
  LedgersMove, LedgersMove-refl, LedgersMove-trans, clone_parts, crank-Funding,
}

module _ (lib : Library) (laws : CurveLaws lib) (key : Bytes) where
  update_proposal-Move :
      (o u w : Objective) (sp : SignedProposal)
      → update_proposal lib o u sp ≡ ok w
      → LedgersMove lib laws key u w
  unfolding update_proposal
  update_proposal-Move o u w sp e =
      let (l, hl, e1) = >>=-eq-ok (ledger_id lib (is_alice o) o.to_my_left) _ e in
      let (r, hr, e2) = >>=-eq-ok (ledger_id lib (is_bob o) o.to_my_right) _ e1 in
      elim (Bool-cases (target_of sp.proposal == o.v.id)) [
        | inr other ↦
            subst (LedgersMove lib laws key u) (ground (arith, other, e2))
              (LedgersMove-refl lib laws key u)
        | inl ours ↦ elim (Bool-cases (sp.proposal.ledger_id == 0)) [
          | inl zero_id ↦ absurd (ground (arith, ours, zero_id, e2))
          | inr known ↦ elim (Bool-cases (sp.proposal.ledger_id == l)) [
            | inl on_left ↦
                let (c, hc, e3) =
                  >>=-eq-ok (handle_proposal lib u.to_my_left sp)
                    (λ c. ok (record u { to_my_left = some c })) {y = w}
                    (ground (arith, ours, known, on_left, e2)) in
                subst (LedgersMove lib laws key u) (ok_injective e3) (record {
                  left = handle_proposal-Moves lib laws u.to_my_left sp c hc;
                  right = ConnectionMoves-refl lib laws u.to_my_right;
                })
            | inr not_left ↦ elim (Bool-cases (sp.proposal.ledger_id == r)) [
              | inl on_right ↦
                  let (c, hc, e3) =
                    >>=-eq-ok (handle_proposal lib u.to_my_right sp)
                      (λ c. ok (record u { to_my_right = some c })) {y = w}
                      (ground (arith, ours, known, not_left, on_right, e2)) in
                  subst (LedgersMove lib laws key u) (ok_injective e3) (record {
                    left = ConnectionMoves-refl lib laws u.to_my_left;
                    right = handle_proposal-Moves lib laws u.to_my_right sp c hc;
                  })
              | inr unknown ↦ absurd (ground (arith, ours, known, not_left, unknown, e2))
            ]
          ]
        ]
      ]

  update_state-Move :
      (o u w : Objective) (ss : SignedState)
      → update_state lib o u ss ≡ ok w
      → LedgersMove lib laws key u w
  unfolding update_state
  update_state-Move o u w ss e = elim (Bool-cases (length (signatures ss) == 0)) [
    | inl bare ↦
        subst (LedgersMove lib laws key u) (ground (arith, bare, e))
          (LedgersMove-refl lib laws key u)
    | inr signed ↦
        let added : (state_channel_id lib ss.state >>= λ id. fail_if (id == 0) zero_channel >>= λ _.
        fail_if (not (id == o.v.id)) wrong_channel >>= λ _.
        add_signed_state lib u.v ss >>= λ x. ok (record u { v = x.1 }))
            ≡ ok w =
          ground (arith, signed, e) in
        let (id, _, e1) = >>=-eq-ok (state_channel_id lib ss.state) _ added in
        let (_, _, e2) = >>=-eq-ok (fail_if (id == 0) zero_channel) _ e1 in
        let (_, _, e3) = >>=-eq-ok (fail_if (not (id == o.v.id)) wrong_channel) _ e2 in
        let (x, _, e4) = >>=-eq-ok (add_signed_state lib u.v ss) _ e3 in
        subst (LedgersMove lib laws key u) (ok_injective e4) (record {
          left = ConnectionMoves-refl lib laws u.to_my_left;
          right = ConnectionMoves-refl lib laws u.to_my_right;
        })
  ]

  update-Move :
      (o w : Objective) (id : ObjectiveId) (sp : SignedProposal) (ss : SignedState)
      → update lib o id sp ss ≡ ok w
      → LedgersMove lib laws key o w
  unfolding update
  update-Move o w id sp ss e =
      let (_, _, e1) = >>=-eq-ok (fail_if (not (equal_ids (id_of o) id)) mismatched_ids) _ e in
      let (u, hu, e2) = >>=-eq-ok (clone lib o) _ e1 in
      let (v, hv, e3) = >>=-eq-ok (update_proposal lib o u sp) _ e2 in
      LedgersMove-trans lib laws key o u w ((clone_parts lib laws key o u hu).1) (
        LedgersMove-trans lib laws key u v w (update_proposal-Move o u v sp hv)
          (update_state-Move o v w ss e3))

  with_status :
      (o u w : Objective)
      → LedgersMove lib laws key o u
      → w.to_my_left ≡ u.to_my_left
      → w.to_my_right ≡ u.to_my_right
      → LedgersMove lib laws key o w
  with_status o u w m l r = record {
    left = subst (ConnectionMoves lib laws o.to_my_left) (sym l) m.left;
    right = subst (ConnectionMoves lib laws o.to_my_right) (sym r) m.right;
  }

  approve-Move : (o w : Objective) → approve lib o ≡ ok w → LedgersMove lib laws key o w
  unfolding approve
  approve-Move o w e =
      let (u, hu, e1) = >>=-eq-ok (clone lib o) _ e in
      let same = sym (ok_injective e1) in
      with_status o u w ((clone_parts lib laws key o u hu).1) (ap (λ x. x.to_my_left) same)
        (ap (λ x. x.to_my_right) same)

  reject-Move : (o w : Objective) → reject lib o ≡ ok w → LedgersMove lib laws key o w
  unfolding reject
  reject-Move o w e =
      let (u, hu, e1) = >>=-eq-ok (clone lib o) _ e in
      let same = sym (ok_injective e1) in
      with_status o u w ((clone_parts lib laws key o u hu).1) (ap (λ x. x.to_my_left) same)
        (ap (λ x. x.to_my_right) same)

  crank-Move :
      (o : Objective) (r : Cranked)
      → crank lib key o ≡ ok r
      → LedgersMove lib laws key o r.objective
  unfolding crank
  crank-Move o r e = elim (Bool-cases (is_approved o.status)) [
    | inl active ↦ (crank-Funding lib laws key o (approved_status o.status active) r e).ledgers
    | inr idle ↦
        let (u, hu, e1) = >>=-eq-ok (clone lib o) _ e in
        let (s, m) = clone_parts lib laws key o u hu in
        let same : is_approved u.status ≡ false = ap is_approved s ∙ idle in
        subst (λ x. LedgersMove lib laws key o x.objective)
          (fail-eq-ok u waiting_for_nothing not_approved r (ground (arith, same, e1))) m
  ]

  -- One call that succeeds, or a crank, which returns an objective in any case.
  pub data Call : Objective → Objective → Type 0 where
    cranks : (o : Objective) (r : Cranked) → crank lib key o ≡ ok r → Call o r.objective
    updates :
        (o u : Objective) (id : ObjectiveId) (sp : SignedProposal) (ss : SignedState)
        → update lib o id sp ss ≡ ok u
        → Call o u
    approves : (o u : Objective) → approve lib o ≡ ok u → Call o u
    rejects : (o u : Objective) → reject lib o ≡ ok u → Call o u

  pub data Life : Objective → Objective → Type 0 where
    here : (o : Objective) → Life o o
    next : (o u e : Objective) → Call o u → Life u e → Life o e

  Call-Move : (o u : Objective) → Call o u → LedgersMove lib laws key o u
  Call-Move o u (cranks _ r h) = crank-Move o r h
  Call-Move o u (updates _ _ id sp ss h) = update-Move o u id sp ss h
  Call-Move o u (approves _ _ h) = approve-Move o u h
  Call-Move o u (rejects _ _ h) = reject-Move o u h

  -- Over any life of a virtual funding objective, with its cranks, updates, approvals and
  -- rejections in any order, a ledger that was valid is valid: both participants have signed its
  -- consensus state. It is the same ledger, with the same sum of balances and guarantees; and what
  -- it is to guarantee stays the same.
  pub Life-LedgersMove : (o e : Objective) → Life o e → LedgersMove lib laws key o e
  Life-LedgersMove o e (here _) = LedgersMove-refl lib laws key o
  Life-LedgersMove o e (next _ u _ c l) =
      LedgersMove-trans lib laws key o u e (Call-Move o u c) (Life-LedgersMove u e l)
