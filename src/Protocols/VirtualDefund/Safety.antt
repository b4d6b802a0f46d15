-- ===== src/Protocols/VirtualDefund/Safety.antt =====
-- When a virtual defunding objective touches its ledgers, and when it completes.
use go_nitro.Base.{
  Bool, List, set, ◌≡◌, ◌⊎◌, inl, inr, refl, ap, sym, ◌∙◌, true, false, Bool-cases, Option, none,
  some, if◌then◌else◌, Error, ok, >>=-eq-ok, ok_injective, arith, subst, Result-cases,
}
use go_nitro.Types.Destination.{Bytes}
use go_nitro.State.Signature.{Signature}
use go_nitro.State.Data.{State}
use go_nitro.State.Library.{Library}
use go_nitro.State.Hashing
use go_nitro.State.Recovery.{CurveLaws}
use go_nitro.Consensus.Channel.{
  ConsensusChannel, is_leader, leader, follower, has_removal_been_proposed,
  has_removal_been_proposed_next,
}
use go_nitro.Consensus.Updates.{propose, sign_next_proposal}
use go_nitro.Consensus.Updates.History.{proposes, signs}
use go_nitro.Consensus.Support.Copies.{Moves, Moves-refl, Moves-trans, Step-Moves}
use go_nitro.Protocols.{ObjectiveStatus, approved, completed, SideEffects, fail, stop, fail-eq-ok}
use go_nitro.Protocols.VirtualDefund.{Objective, final_state, fully_signed, is_defunded, v_id}
use go_nitro.Protocols.VirtualDefund.Signed.{IsSigned, AreGood, stored_state, with_ledgers-IsSigned}
use go_nitro.Protocols.VirtualDefund.Crank.{
  WaitingFor, waiting_for_complete_ledger_defunding, waiting_for_nothing, Cranked, ledger_proposal,
  propose_removal, accept_removal, update_ledger_to_remove_guarantee, update_side, finish,
}

pub same_signed :
    (o : Objective) (s : ObjectiveStatus) → fully_signed (record o { status = s }) ≡ fully_signed o
unfolding fully_signed
same_signed o s = refl

module _ (lib : Library) (laws : CurveLaws lib) (key : Bytes) where
  -- The ledger, if there is one, has moved by its operations.
  abbrev pub LedgerMoves : Option ConsensusChannel → Option ConsensusChannel → Type 0
  LedgerMoves none none = Unit
  LedgerMoves none (some d) = ⊥
  LedgerMoves (some c) none = ⊥
  LedgerMoves (some c) (some d) = Moves lib c d

  pub LedgerMoves-refl : (c : Option ConsensusChannel) → LedgerMoves c c
  LedgerMoves-refl none = tt
  LedgerMoves-refl (some c) = Moves-refl lib c

  pub LedgerMoves-trans :
      (b c d : Option ConsensusChannel) → LedgerMoves b c → LedgerMoves c d → LedgerMoves b d
  LedgerMoves-trans none none none m n = tt
  LedgerMoves-trans none none (some d) m n = n
  LedgerMoves-trans none (some c) d m n = absurd m
  LedgerMoves-trans (some b) none d m n = absurd m
  LedgerMoves-trans (some b) (some c) none m n = absurd n
  LedgerMoves-trans (some b) (some c) (some d) m n = Moves-trans lib b c d m n

  propose-Moves :
      (o : Objective) (c l : ConsensusChannel) (se : SideEffects)
      → propose_removal lib key o c ≡ ok (se, l)
      → Moves lib c l
  unfolding propose_removal
  propose-Moves o c l se e =
      let (p, _, e1) = >>=-eq-ok (ledger_proposal lib key o c) _ e in
      let ((sp, m), hm, e2) = >>=-eq-ok (propose lib c p key) _ e1 in
      let (to, _, e3) = >>=-eq-ok (follower m) _ e2 in
      subst (Moves lib c) (ap (λ x. x.1) (ok_injective e3))
        (Step-Moves lib laws c m (proposes p key sp hm))

  accept-Moves :
      (o : Objective) (c l : ConsensusChannel) (se : SideEffects)
      → accept_removal lib key o c ≡ ok (se, l)
      → Moves lib c l
  unfolding accept_removal
  accept-Moves o c l se e =
      let (p, _, e1) = >>=-eq-ok (ledger_proposal lib key o c) _ e in
      let ((sp, m), hm, e2) = >>=-eq-ok (sign_next_proposal lib c p key) _ e1 in
      let (to, _, e3) = >>=-eq-ok (leader m) _ e2 in
      subst (Moves lib c) (ap (λ x. x.1) (ok_injective e3))
        (Step-Moves lib laws c m (signs p key sp hm))

  update_ledger-Moves :
      (o : Objective) (c l : ConsensusChannel) (se : SideEffects)
      → update_ledger_to_remove_guarantee lib key o c ≡ ok (se, l)
      → Moves lib c l
  unfolding update_ledger_to_remove_guarantee
  update_ledger-Moves o c l se e =
      let (id, _, e1) = >>=-eq-ok (v_id lib o) _ e in
      elim (Bool-cases (is_leader c)) [
        | inl leads ↦ elim (Bool-cases (has_removal_been_proposed c id)) [
          | inl again ↦
              subst (Moves lib c) {x = c} (ground (arith, leads, again, e1)) (Moves-refl lib c)
          | inr fresh ↦ propose-Moves o c l se (ground (arith, leads, fresh, e1))
        ]
        | inr follows ↦ elim (Bool-cases (has_removal_been_proposed_next c id)) [
          | inl next ↦ accept-Moves o c l se (ground (arith, follows, next, e1))
          | inr waits ↦
              subst (Moves lib c) {x = c} (ground (arith, follows, waits, e1)) (Moves-refl lib c)
        ]
      ]

  pub update_side-Moves :
      (absent : Bool) (o : Objective) (c d : Option ConsensusChannel) (se se' : SideEffects)
      → update_side lib key absent o c se ≡ ok (se', d)
      → LedgerMoves c d
  unfolding update_side is_defunded
  update_side-Moves true o c d se se' e =
      subst (LedgerMoves c) {x = c} (ground (arith, e)) (LedgerMoves-refl c)
  update_side-Moves false o none d se se' e =
      subst (LedgerMoves none) {x = none} (ground (arith, e)) tt
  update_side-Moves false o (some c) d se se' e =
      let (defunded, _, e1) = >>=-eq-ok (is_defunded lib o (some c)) _ e in
      elim (Bool-cases defunded) [
        | inl without ↦
            subst (LedgerMoves (some c)) {x = some c} (ground (arith, without, e1))
              (Moves-refl lib c)
        | inr funded ↦ elim (Result-cases (update_ledger_to_remove_guarantee lib key o c)) [
          | inr (x, h) ↦ absurd (ground (arith, funded, h, e1))
          | inl ((more, l), h) ↦
              let made : some l ≡ d = ground (arith, funded, h, e1) in
              subst (LedgerMoves (some c)) made (update_ledger-Moves o c l more h)
        ]
      ]

  -- The signatures that the objective holds, or those with the participant's own on the final
  -- state, by the key, entered at its position.
  abbrev pub IsHeld : Objective → List Signature → Type 0
  IsHeld before sigs =
      (sigs ≡ before.signatures)
      ⊎ (s : State) × (sig : Signature) × (final_state before ≡ ok s)
        × (Hashing.sign lib s key ≡ ok sig)
        × (sigs ≡ set before.signatures before.my_role sig)

  -- All three participants have signed the final state of the objective: none of the signatures
  -- that it holds, with the participant's own, is zero, and each is its participant's.
  pub record Agreed (before : Objective) : Type 0 where
    pub sigs : List Signature
    pub held : IsHeld before sigs
    pub full : fully_signed (record before { signatures = sigs }) ≡ true
    pub signed : IsSigned lib (record before { signatures = sigs })

  -- The objective is approved, or it is completed, all have signed, and no ledger has the
  -- guarantee.
  abbrev pub IsDefunded : Cranked → Type 0
  IsDefunded r =
      (r.objective.status ≡ approved)
      ⊎ (r.objective.status ≡ completed)
        × (r.waiting_for ≡ waiting_for_nothing)
        × (fully_signed r.objective ≡ true)
        × (is_defunded lib r.objective r.objective.to_my_left ≡ ok true)
        × (is_defunded lib r.objective r.objective.to_my_right ≡ ok true)

  -- What a crank leaves: the signatures that were held, with the participant's own, ledgers that
  -- only their operations have moved, and as they were unless all have signed.
  pub record Stage (before : Objective) (r : Cranked) : Type 0 where
    pub signed : IsSigned lib r.objective
    pub held : IsHeld before r.objective.signatures
    pub left : LedgerMoves before.to_my_left r.objective.to_my_left
    pub right : LedgerMoves before.to_my_right r.objective.to_my_right
    pub defunded : IsDefunded r
    pub careful :
        (r.objective.to_my_left ≡ before.to_my_left)
          × (r.objective.to_my_right ≡ before.to_my_right)
        ⊎ Agreed before

  -- An objective on the way, which came from the one before.
  pub record OnTheWay (before o : Objective) : Type 0 where
    pub signed : IsSigned lib o
    pub held : IsHeld before o.signatures
    pub active : o.status ≡ approved
    pub state : final_state o ≡ final_state before
    pub fixed : o.v_fixed ≡ before.v_fixed
    pub left : LedgerMoves before.to_my_left o.to_my_left
    pub right : LedgerMoves before.to_my_right o.to_my_right

  with_signatures-IsSigned :
      (before o : Objective)
      → OnTheWay before o
      → IsSigned lib (record before { signatures = o.signatures })
  with_signatures-IsSigned before o t = record {
    three = t.signed.three;
    good = λ s e.
        subst (λ f. AreGood lib s f.participants 0 o.signatures) t.fixed
          (t.signed.good s (t.state ∙ sym (stored_state lib before o.signatures) ∙ e));
  }

  full_before :
      (before o : Objective)
      → fully_signed o ≡ true
      → fully_signed (record before { signatures = o.signatures }) ≡ true
  unfolding fully_signed
  full_before before o full = full

  -- An objective on the way that all have signed.
  pub agreed : (before o : Objective) → OnTheWay before o → fully_signed o ≡ true → Agreed before
  agreed before o t full = record {
    sigs = o.signatures;
    held = t.held;
    full = full_before before o full;
    signed = with_signatures-IsSigned before o t;
  }

  pub same_defunded :
      (o : Objective) (s : ObjectiveStatus) (l r c : Option ConsensusChannel)
      → is_defunded lib (record o { status = s; to_my_left = l; to_my_right = r }) c
        ≡ is_defunded lib o c
  unfolding is_defunded v_id
  same_defunded o s l r none = refl
  same_defunded o s l r (some c) = refl

  pub failed-Stage :
      (before o : Objective) (w : WaitingFor) (x : Error) (r : Cranked)
      → OnTheWay before o
      → (o.to_my_left ≡ before.to_my_left) × (o.to_my_right ≡ before.to_my_right) ⊎ Agreed before
      → fail o w x ≡ ok r
      → Stage before r
  failed-Stage before o w x r t c e = subst (Stage before) (fail-eq-ok o w x r e) (record {
    signed = t.signed;
    held = t.held;
    left = t.left;
    right = t.right;
    defunded = inl t.active;
    careful = c;
  })

  pub finish-Stage :
      (before o : Objective) (se : SideEffects) (r : Cranked)
      → OnTheWay before o
      → fully_signed o ≡ true
      → finish lib key o se ≡ ok r
      → Stage before r
  unfolding finish
  finish-Stage before o se r t full e =
      let (l, hl, e1) = >>=-eq-ok (is_defunded lib o o.to_my_left) _ e in
      let (m, hm, e2) = >>=-eq-ok (is_defunded lib o o.to_my_right) _ e1 in
      elim (Bool-cases (if l then m else false)) [
        | inr partly ↦
            let made : stop o se waiting_for_complete_ledger_defunding ≡ r =
              ground (arith, partly, e2) in
            subst (Stage before) made (record {
              signed = t.signed;
              held = t.held;
              left = t.left;
              right = t.right;
              defunded = inl t.active;
              careful = inr (agreed before o t full);
            })
        | inl both ↦
            let made : stop (record o { status = completed }) se waiting_for_nothing ≡ r =
              ground (arith, both, e2) in
            subst (Stage before) made (record {
              signed = with_ledgers-IsSigned lib o completed o.to_my_left o.to_my_right t.signed;
              held = t.held;
              left = t.left;
              right = t.right;
              defunded = inr (
                refl,
                refl,
                same_signed o completed ∙ full,
                same_defunded o completed o.to_my_left o.to_my_right o.to_my_left
                    ∙ hl
                    ∙ ap ok (ground (arith, both)),
                same_defunded o completed o.to_my_left o.to_my_right o.to_my_right
                    ∙ hm
                    ∙ ap ok (ground (arith, both)),
              );
              careful = inr (agreed before o t full);
            })
      ]
