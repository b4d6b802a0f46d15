-- ===== src/Protocols/VirtualFund/Safety.antt =====
-- When a virtual funding objective signs and completes.
use go_nitro.Base.{
  ◌≡◌, ◌⊎◌, inl, inr, refl, ap, sym, ◌∙◌, true, Bool-cases, ok, >>=-eq-ok, ok_injective, arith,
  subst, Result-cases, Error,
}
use go_nitro.Types.Destination.{Bytes}
use go_nitro.State.Library.{Library}
use go_nitro.State.Recovery.{CurveLaws}
use go_nitro.State.Signed.{SignedState}
use go_nitro.Channel.{
  Channel, pre_fund_signed_by_me, post_fund_signed_by_me, pre_fund_complete, post_fund_complete,
}
use go_nitro.Channel.Updates.{sign_and_add_prefund, sign_and_add_postfund}
use go_nitro.Channel.Updates
use go_nitro.Protocols.{
  ObjectiveStatus, approved, completed, is_approved, SideEffects, no_effects, fail, stop,
  fail-eq-ok,
}
use go_nitro.Protocols.VirtualFund.{
  Objective, clone, clone_connection, funding_complete, is_alice, is_bob,
}
use go_nitro.Protocols.VirtualFund.Crank.{
  WaitingFor, waiting_for_complete_prefund, waiting_for_complete_funding, waiting_for_nothing,
  Cranked, announce, finish, update_side, update_ledgers, crank_post_fund, crank_funded,
  crank_funding, crank_signed, crank_pre_fund, crank,
}
use go_nitro.Protocols.VirtualFund.Invariant.{
  ConnectionMoves, ConnectionMoves-refl, ConnectionMoves-trans, clone_connection-Moves,
  update_side-Moves,
}

-- The objective is approved, or it is completed, its ledgers give the guarantees, and the postfund
-- state is complete.
abbrev pub IsFunded : Cranked → Type 0
IsFunded r =
    (r.objective.status ≡ approved)
    ⊎ (r.objective.status ≡ completed)
      × (r.waiting_for ≡ waiting_for_nothing)
      × (funding_complete r.objective ≡ ok true)
      × (post_fund_complete r.objective.v ≡ true)

with_channel :
    (o : Objective) (v : Channel) → funding_complete (record o { v = v }) ≡ funding_complete o
unfolding funding_complete is_alice is_bob
with_channel o v = refl

with_status :
    (o : Objective) (s : ObjectiveStatus)
    → funding_complete (record o { status = s }) ≡ funding_complete o
unfolding funding_complete is_alice is_bob
with_status o s = refl

module _ (lib : Library) (laws : CurveLaws lib) (key : Bytes) where
  -- In both connections only the ledgers have moved.
  pub record LedgersMove (o o' : Objective) : Type 0 where
    pub left : ConnectionMoves lib laws o.to_my_left o'.to_my_left
    pub right : ConnectionMoves lib laws o.to_my_right o'.to_my_right

  pub LedgersMove-refl : (o : Objective) → LedgersMove o o
  LedgersMove-refl o = record {
    left = ConnectionMoves-refl lib laws o.to_my_left;
    right = ConnectionMoves-refl lib laws o.to_my_right;
  }

  pub LedgersMove-trans : (o p q : Objective) → LedgersMove o p → LedgersMove p q → LedgersMove o q
  LedgersMove-trans o p q s t = record {
    left = ConnectionMoves-trans lib laws o.to_my_left p.to_my_left q.to_my_left s.left t.left;
    right =
        ConnectionMoves-trans lib laws o.to_my_right p.to_my_right q.to_my_right s.right t.right;
  }

  pub clone_parts : (o u : Objective) → clone lib o ≡ ok u → (u.status ≡ o.status) × LedgersMove o u
  unfolding clone
  clone_parts o u e =
      let (v, _, e1) = >>=-eq-ok (Updates.clone lib o.v) _ e in
      let (l, hl, e2) = >>=-eq-ok (clone_connection o.to_my_left) _ e1 in
      let (m, hm, e3) = >>=-eq-ok (clone_connection o.to_my_right) _ e2 in
      subst (λ x. (x.status ≡ o.status) × LedgersMove o x) (ok_injective e3)
        (
          refl,
          record {
            left = clone_connection-Moves lib laws o.to_my_left l hl;
            right = clone_connection-Moves lib laws o.to_my_right m hm;
          },
        )

  update_ledgers-Move :
      (o p : Objective) (se se' : SideEffects)
      → update_ledgers lib key o se ≡ ok (se', p)
      → LedgersMove o p × (p.v ≡ o.v) × (p.status ≡ o.status)
  unfolding update_ledgers
  update_ledgers-Move o p se se' e =
      let ((one, l), hl, e1) = >>=-eq-ok (update_side lib key (is_alice o) o.to_my_left se) _ e in
      let ((two, m), hm, e2) = >>=-eq-ok (update_side lib key (is_bob o) o.to_my_right one) _ e1 in
      subst (λ x. LedgersMove o x × (x.v ≡ o.v) × (x.status ≡ o.status))
        (ap (λ x. x.1) (ok_injective e2))
        (
          record {
            left = update_side-Moves lib laws key (is_alice o) o.to_my_left l se one hl;
            right = update_side-Moves lib laws key (is_bob o) o.to_my_right m one two hm;
          },
          refl,
          refl,
        )

  -- What a stage leaves, of an objective that came from the one before: nothing is submitted on
  -- chain, only the ledgers of the connections have moved, and the virtual channel is an early
  -- one unless the ledgers give the guarantees.
  pub record Stage (before : Objective) (Early : Channel → Type 0) (r : Cranked) : Type 0 where
    pub ledgers : LedgersMove before r.objective
    pub funded : IsFunded r
    pub careful : Early r.objective.v ⊎ (funding_complete r.objective ≡ ok true)

  module _ (before : Objective) (Early : Channel → Type 0) (at_first : Early before.v)
      (active : before.status ≡ approved) where
    failed-Stage :
        (w : WaitingFor) (x : Error) (r : Cranked) → fail before w x ≡ ok r → Stage before Early r
    failed-Stage w x r e =
        subst (Stage before Early) (fail-eq-ok before w x r e) (record {
          ledgers = LedgersMove-refl before;
          funded = inl active;
          careful = inl at_first;
        })

    finish-Stage :
        (o : Objective) (se : SideEffects)
        → LedgersMove before o
        → o.status ≡ approved
        → funding_complete o ≡ ok true
        → Stage before Early (finish o se)
    unfolding finish
    finish-Stage o se m s full = elim (Bool-cases (post_fund_complete o.v)) [
      | inl all ↦ rw all (record {
        ledgers = record { left = m.left; right = m.right };
        funded = inr (refl, refl, with_status o completed ∙ full, all);
        careful = inr (with_status o completed ∙ full);
      })
      | inr partial ↦ rw partial (record { ledgers = m; funded = inl s; careful = inr full })
    ]

    crank_post_fund-Stage :
        (o : Objective) (se : SideEffects) (r : Cranked)
        → LedgersMove before o
        → o.status ≡ approved
        → funding_complete o ≡ ok true
        → crank_post_fund lib key before o se ≡ ok r
        → Stage before Early r
    unfolding crank_post_fund
    crank_post_fund-Stage o se r m s full e = elim (Bool-cases (post_fund_signed_by_me o.v)) [
      | inl mine ↦ subst (Stage before Early) (ground (arith, mine, e)) (finish-Stage o se m s full)
      | inr unsigned ↦ elim (Result-cases (sign_and_add_postfund lib o.v key)) [
        | inl ((ss, v), h) ↦
            let signed : Objective = record o { v = v } in
            let made : finish signed (announce before se ss) ≡ r = ground (arith, unsigned, h, e) in
            subst (Stage before Early) made (
              finish-Stage signed (announce before se ss)
                (record { left = m.left; right = m.right }) s (with_channel o v ∙ full))
        | inr (x, h) ↦ failed-Stage waiting_for_nothing x r (ground (arith, unsigned, h, e))
      ]
    ]

    crank_funded-Stage :
        (o : Objective) (se : SideEffects) (r : Cranked)
        → LedgersMove before o
        → o.status ≡ approved
        → Early o.v
        → crank_funded lib key before o se ≡ ok r
        → Stage before Early r
    unfolding crank_funded
    crank_funded-Stage o se r m s early e =
        let (complete, hc, e1) = >>=-eq-ok (funding_complete o) _ e in
        elim (Bool-cases complete) [
          | inl full ↦ crank_post_fund-Stage o se r m s (hc ∙ ap ok full) (ground (arith, full, e1))
          | inr short ↦
              let made : stop o se waiting_for_complete_funding ≡ r = ground (arith, short, e1) in
              subst (Stage before Early) made
                (record { ledgers = m; funded = inl s; careful = inl early })
        ]

    crank_funding-Stage :
        (o : Objective) (se : SideEffects) (r : Cranked)
        → LedgersMove before o
        → o.status ≡ approved
        → Early o.v
        → crank_funding lib key before o se ≡ ok r
        → Stage before Early r
    unfolding crank_funding
    crank_funding-Stage o se r m s early e = elim (Result-cases (update_ledgers lib key o se)) [
      | inl ((se', p), h) ↦
          let (n, same_v, same_s) = update_ledgers-Move o p se se' h in
          crank_funded-Stage p se' r (LedgersMove-trans before o p m n) (same_s ∙ s)
            (subst Early (sym same_v) early) (ground (arith, h, e))
      | inr (x, h) ↦ failed-Stage waiting_for_nothing x r (ground (arith, h, e))
    ]

    crank_signed-Stage :
        (o : Objective) (se : SideEffects) (r : Cranked)
        → LedgersMove before o
        → o.status ≡ approved
        → Early o.v
        → crank_signed lib key before o se ≡ ok r
        → Stage before Early r
    unfolding crank_signed
    crank_signed-Stage o se r m s early e = elim (Bool-cases (pre_fund_complete o.v)) [
      | inl pre ↦ crank_funding-Stage o se r m s early (ground (arith, pre, e))
      | inr partial ↦
          let made : stop o se waiting_for_complete_prefund ≡ r = ground (arith, partial, e) in
          subst (Stage before Early) made
            (record { ledgers = m; funded = inl s; careful = inl early })
    ]

  -- The virtual channel as it was, or a copy of it, perhaps with the prefund state signed: there
  -- the postfund state is not signed by a crank.
  abbrev pub Early : Objective → Channel → Type 0
  Early o v =
      (v ≡ o.v)
      ⊎ (u : Objective) × (clone lib o ≡ ok u)
        × ((v ≡ u.v) ⊎ (ss : SignedState) × (sign_and_add_prefund lib u.v key ≡ ok (ss, v)))

  crank_pre_fund-Stage :
      (o u : Objective) (active : o.status ≡ approved) (r : Cranked)
      → clone lib o ≡ ok u
      → crank_pre_fund lib key o u ≡ ok r
      → Stage o (Early o) r
  unfolding crank_pre_fund
  crank_pre_fund-Stage o u active r hu e =
      let (s, m) = clone_parts o u hu in
      elim (Bool-cases (pre_fund_signed_by_me u.v)) [
        | inl mine ↦
            crank_signed-Stage o (Early o) (inl refl) active u no_effects r m (s ∙ active)
              (inr (u, hu, inl refl)) (ground (arith, mine, e))
        | inr unsigned ↦ elim (Result-cases (sign_and_add_prefund lib u.v key)) [
          | inl ((ss, v), h) ↦
              crank_signed-Stage o (Early o) (inl refl) active (record u { v = v })
                (announce o no_effects ss) r (record { left = m.left; right = m.right })
                (s ∙ active) (inr (u, hu, inr (ss, h))) (ground (arith, unsigned, h, e))
          | inr (x, h) ↦
              failed-Stage o (Early o) (inl refl) active waiting_for_nothing x r
                (ground (arith, unsigned, h, e))
        ]
      ]

  -- A crank of an approved virtual funding objective moves its ledgers only by the operations of
  -- consensus channels and by copying, so that valid ledgers stay valid, with the same participants
  -- and the same sum of funds. It leaves the objective approved, or completed with the guarantees
  -- given by the ledgers and the postfund state complete. Where the ledgers do not give the
  -- guarantees it signs no more than the prefund state of the virtual channel.
  pub crank-Funding :
      (o : Objective) (active : o.status ≡ approved) (r : Cranked)
      → crank lib key o ≡ ok r
      → Stage o (Early o) r
  unfolding crank
  crank-Funding o active r e =
      let (u, hu, e1) = >>=-eq-ok (clone lib o) _ e in
      let (s, _) = clone_parts o u hu in
      let running : is_approved u.status ≡ true = ap is_approved (s ∙ active) in
      crank_pre_fund-Stage o u active r hu (ground (arith, running, e1))
