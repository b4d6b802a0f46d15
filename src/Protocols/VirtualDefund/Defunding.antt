-- ===== src/Protocols/VirtualDefund/Defunding.antt =====
-- Every stage of a virtual defunding crank leaves the ledgers alone until all have signed.
use go_nitro.Base.{
  ℕ, ◌≡◌, inl, inr, refl, sym, ◌∙◌, true, Bool-cases, not, Option, some, get_elem?, set,
  if◌then◌else◌, ok, >>=-eq-ok, ok_injective, arith, subst, Result-cases, ◌>>=◌, not_approved,
}
use go_nitro.Types.Destination.{Address, Bytes}
use go_nitro.State.Signature.{Signature}
use go_nitro.State.Data.{State}
use go_nitro.State.Library.{Library}
use go_nitro.State.Hashing
use go_nitro.State.Signing.{address_from_secret_key}
use go_nitro.State.Recovery.{CurveLaws, recover_signer-sign}
use go_nitro.Consensus.Channel.{ConsensusChannel}
use go_nitro.Protocols.{
  approved, is_approved, SideEffects, no_effects, fail, stop, create_signed_state_messages,
}
use go_nitro.Protocols.VirtualDefund.{
  Objective, clone, final_state, fully_signed, is_alice, is_bob, id_of, signed_final_state,
  signed_by_me,
}
use go_nitro.Protocols.VirtualDefund.Signed.{
  IsSigned, store-IsSigned, with_ledgers-IsSigned, clone-same,
}
use go_nitro.Protocols.VirtualDefund.Crank.{
  waiting_for_complete_final, waiting_for_nothing, Cranked, update_side, crank_right, crank_left,
  crank_signed, crank_announce, crank_sign, crank,
}
use go_nitro.Protocols.VirtualDefund.Safety.{
  LedgerMoves, LedgerMoves-refl, LedgerMoves-trans, update_side-Moves, Stage, OnTheWay, agreed,
  failed-Stage, finish-Stage,
}

module _ (lib : Library) (laws : CurveLaws lib) (key : Bytes) (before : Objective)
    (v : IsSigned lib before) (active : before.status ≡ approved) where
  -- An objective with the ledgers of the one before.
  abbrev SameLedgers : Objective → Type 0
  SameLedgers o = (o.to_my_left ≡ before.to_my_left) × (o.to_my_right ≡ before.to_my_right)

  same_full :
      (o : Objective) (l r : Option ConsensusChannel)
      → fully_signed (record o { to_my_left = l; to_my_right = r }) ≡ fully_signed o
  unfolding fully_signed
  same_full o l r = refl

  same_final :
      (o : Objective) (l r : Option ConsensusChannel)
      → final_state (record o { to_my_left = l; to_my_right = r }) ≡ final_state o
  unfolding final_state
  same_final o l r = refl

  -- The objective of a crank goes on with other ledgers.
  moved :
      (o : Objective) (l r : Option ConsensusChannel)
      → OnTheWay lib laws key before o
      → LedgerMoves lib laws key before.to_my_left l
      → LedgerMoves lib laws key before.to_my_right r
      → OnTheWay lib laws key before (record o { to_my_left = l; to_my_right = r })
  moved o l r t m n = record {
    signed = with_ledgers-IsSigned lib o o.status l r t.signed;
    held = t.held;
    active = t.active;
    state = same_final o l r ∙ t.state;
    fixed = t.fixed;
    left = m;
    right = n;
  }

  start : OnTheWay lib laws key before before
  start = record {
    signed = v;
    held = inl refl;
    active = active;
    state = refl;
    fixed = refl;
    left = LedgerMoves-refl lib laws key before.to_my_left;
    right = LedgerMoves-refl lib laws key before.to_my_right;
  }

  crank_right-Stage :
      (o : Objective) (se : SideEffects) (r : Cranked)
      → OnTheWay lib laws key before o
      → fully_signed o ≡ true
      → o.to_my_right ≡ before.to_my_right
      → crank_right lib key before o se ≡ ok r
      → Stage lib laws key before r
  unfolding crank_right
  crank_right-Stage o se r t full same e =
      elim (Result-cases (update_side lib key (is_bob o) o o.to_my_right se)) [
        | inl ((se', d), h) ↦
            finish-Stage lib laws key before (record o { to_my_right = d }) se' r
              (moved o o.to_my_left d t t.left (
                LedgerMoves-trans lib laws key before.to_my_right o.to_my_right d t.right
                  (update_side-Moves lib laws key (is_bob o) o o.to_my_right d se se' h)))
              (same_full o o.to_my_left d ∙ full) (ground (arith, h, e))
        | inr (x, h) ↦
            failed-Stage lib laws key before (record before { to_my_left = o.to_my_left })
              waiting_for_nothing x r
              (moved before o.to_my_left before.to_my_right start t.left
                (LedgerMoves-refl lib laws key before.to_my_right))
              (inr (agreed lib laws key before o t full)) (ground (arith, h, e))
      ]

  crank_left-Stage :
      (o : Objective) (se : SideEffects) (r : Cranked)
      → OnTheWay lib laws key before o
      → fully_signed o ≡ true
      → SameLedgers o
      → crank_left lib key before o se ≡ ok r
      → Stage lib laws key before r
  unfolding crank_left
  crank_left-Stage o se r t full (l, m) e =
      elim (Result-cases (update_side lib key (is_alice o) o o.to_my_left se)) [
        | inl ((se', d), h) ↦
            crank_right-Stage (record o { to_my_left = d }) se' r
              (moved o d o.to_my_right t
                (LedgerMoves-trans lib laws key before.to_my_left o.to_my_left d t.left
                  (update_side-Moves lib laws key (is_alice o) o o.to_my_left d se se' h))
                t.right)
              (same_full o d o.to_my_right ∙ full) m (ground (arith, h, e))
        | inr (x, h) ↦
            failed-Stage lib laws key before before waiting_for_nothing x r start (inl (refl, refl))
              (ground (arith, h, e))
      ]

  crank_signed-Stage :
      (o : Objective) (se : SideEffects) (r : Cranked)
      → OnTheWay lib laws key before o
      → SameLedgers o
      → crank_signed lib key before o se ≡ ok r
      → Stage lib laws key before r
  unfolding crank_signed
  crank_signed-Stage o se r t same e = elim (Bool-cases (fully_signed o)) [
    | inl full ↦ crank_left-Stage o se r t full same (ground (arith, full, e))
    | inr partly ↦
        let made : stop o se waiting_for_complete_final ≡ r = ground (arith, partly, e) in
        subst (Stage lib laws key before) made (record {
          signed = t.signed;
          held = t.held;
          left = t.left;
          right = t.right;
          defunded = inl t.active;
          careful = inl same;
        })
  ]

  module _ (me : Address) (mine : address_from_secret_key lib key ≡ ok me)
      (here : get_elem? before.v_fixed.participants before.my_role ≡ some me) where
    same_stored :
        (i : ℕ) (sig : Signature)
        → final_state (record before { signatures = set before.signatures i sig })
          ≡ final_state before
    unfolding final_state
    same_stored i sig = refl

    -- The participant's own signature keeps the objective signed.
    stored :
        (s : State) (sig : Signature)
        → final_state before ≡ ok s
        → Hashing.sign lib s key ≡ ok sig
        → OnTheWay lib laws key before
            (record before { signatures = set before.signatures before.my_role sig })
    stored s sig hs h = record {
      signed =
          store-IsSigned lib before before.my_role sig
            (λ t ht. inr (
              me,
              here,
              recover_signer-sign lib t key sig me laws mine
                  (subst (λ x. Hashing.sign lib x key ≡ ok sig) (ok_injective (sym hs ∙ ht)) h),
            ))
            v;
      held = inr (s, sig, hs, h, refl);
      active = active;
      state = same_stored before.my_role sig;
      fixed = refl;
      left = LedgerMoves-refl lib laws key before.to_my_left;
      right = LedgerMoves-refl lib laws key before.to_my_right;
    }

    crank_announce-Stage :
        (s : State) (sig : Signature) (r : Cranked)
        → final_state before ≡ ok s
        → Hashing.sign lib s key ≡ ok sig
        → crank_announce lib key before before sig ≡ ok r
        → Stage lib laws key before r
    unfolding crank_announce
    crank_announce-Stage s sig r hs h e =
        let signed : Objective = record before {
          signatures = set before.signatures before.my_role sig;
        } in
        elim (Result-cases (signed_final_state lib signed)) [
          | inr (x, hx) ↦
              failed-Stage lib laws key before signed waiting_for_nothing x r (stored s sig hs h)
                (inl (refl, refl)) (ground (arith, hx, e))
          | inl (ss, hx) ↦
              let announced : (id_of lib signed >>= λ id.
              crank_signed lib key before signed (record no_effects {
                messages_to_send = create_signed_state_messages id ss signed.my_role;
              }))
                  ≡ ok r =
                ground (arith, hx, e) in
              let (id, _, e1) = >>=-eq-ok (id_of lib signed) _ announced in
              crank_signed-Stage signed _ r (stored s sig hs h) (refl, refl) e1
        ]

    crank_sign-Stage :
        (r : Cranked) → crank_sign lib key before before ≡ ok r → Stage lib laws key before r
    unfolding crank_sign
    crank_sign-Stage r e =
        let (s, hs, e1) = >>=-eq-ok (final_state before) _ e in
        elim (Result-cases (Hashing.sign lib s key)) [
          | inr (x, h) ↦
              failed-Stage lib laws key before before waiting_for_nothing x r start
                (inl (refl, refl)) (ground (arith, h, e1))
          | inl (sig, h) ↦ crank_announce-Stage s sig r hs h (ground (arith, h, e1))
        ]

    crank_approved-Stage :
        (r : Cranked)
        → (signed_by_me before >>= λ signed.
            if signed
            then crank_signed lib key before before no_effects
            else crank_sign lib key before before)
          ≡ ok r
        → Stage lib laws key before r
    crank_approved-Stage r e =
        let (signed, _, e1) = >>=-eq-ok (signed_by_me before) _ e in
        elim (Bool-cases signed) [
          | inl known ↦
              crank_signed-Stage before no_effects r start (refl, refl) (ground (arith, known, e1))
          | inr fresh ↦ crank_sign-Stage r (ground (arith, fresh, e1))
        ]

module _ (lib : Library) (laws : CurveLaws lib) (key : Bytes) where
  -- Let the key be that of the participant the objective is for. A crank of an approved objective
  -- whose signatures are its participants' or zero leaves such an objective, with the signatures
  -- that it held, or these with the participant's own on the final state. It moves a ledger only by
  -- the operations of consensus channels and by copying, and only if all three signatures, the own
  -- one with those held before, are there. The objective is completed only when all have signed and
  -- no ledger has the guarantee.
  pub crank-VirtualDefunding :
      (o : Objective) (me : Address) (r : Cranked)
      → IsSigned lib o
      → o.status ≡ approved
      → address_from_secret_key lib key ≡ ok me
      → get_elem? o.v_fixed.participants o.my_role ≡ some me
      → crank lib key o ≡ ok r
      → Stage lib laws key o r
  unfolding crank
  crank-VirtualDefunding o me r v active mine here e =
      let (u, hu, e1) = >>=-eq-ok (clone o) _ e in
      let same = clone-same o u hu in
      let e2 =
        subst
          (λ x.
            (if not (is_approved x.status)
              then fail x waiting_for_nothing not_approved
              else (signed_by_me x >>= λ signed.
                  if signed then crank_signed lib key o x no_effects else crank_sign lib key o x))
            ≡ ok r)
          (sym same) e1 in
      crank_approved-Stage lib laws key o v active me mine here r (ground (arith, active, e2))
