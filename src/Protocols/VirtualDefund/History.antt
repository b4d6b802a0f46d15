-- ===== src/Protocols/VirtualDefund/History.antt =====
-- A virtual defunding objective over its life: cranks, updates, approval and rejection.
use go_nitro.Base.{
  ℕ, suc, set, ◌∷◌, Bool, ◌≡◌, inl, inr, refl, ap, sym, ◌∙◌, false, Bool-cases, not, Option, some,
  List, [], get_elem?, ◌==◌, length, ok, deref, or_fail, not_found, fail_if, >>=-eq-ok,
  ok_injective, arith, subst, ◌>>=◌, not_approved, mismatched_ids, wrong_channel,
}
use go_nitro.Types.Destination.{Address, Destination, Bytes}
use go_nitro.State.Signature
use go_nitro.State.Signature.{zero_signature, Signature}
use go_nitro.State.Library.{Library}
use go_nitro.State.Hashing.{state_channel_id}
use go_nitro.State.Signing.{address_from_secret_key}
use go_nitro.State.Recovery.{CurveLaws}
use go_nitro.State.Signed.{SignedState, signatures}
use go_nitro.Channel.{Channel, post_fund_state}
use go_nitro.Consensus.Proposal.{SignedProposal}
use go_nitro.Consensus.Channel.{ConsensusChannel}
use go_nitro.Consensus.Updates.History.{receives}
use go_nitro.Consensus.Support.Copies.{Moves, Moves-refl, Step-Moves}
use go_nitro.Protocols.{
  ObjectiveId, ObjectiveStatus, approved, rejected, is_approved, equal_ids, fail-eq-ok,
  approved_status,
}
use go_nitro.Protocols.VirtualDefund.{
  Objective, ObjectiveRequest, clone, approve, reject, find_ledgers, new_objective,
  update_signatures, update_state, update, id_of, v_id, is_zero, validate_signature,
}
use go_nitro.Protocols.VirtualDefund.Received.{
  Takes, Received, ignored, on_left, on_right, update_proposal-Received,
}
use go_nitro.Protocols.VirtualDefund.Signed.{
  IsSigned, with_ledgers-IsSigned, clone-same, update-IsSigned,
}
use go_nitro.Protocols.VirtualDefund.Crank.{waiting_for_nothing, Cranked, crank}
use go_nitro.Protocols.VirtualDefund.Safety.{LedgerMoves, LedgerMoves-refl, LedgerMoves-trans}
use go_nitro.Protocols.VirtualDefund.Defunding.{crank-VirtualDefunding}

-- A new objective has no signatures.
pub new_objective-IsSigned :
    (lib : Library) (request : ObjectiveRequest) (pre_approve : Bool) (my_address : Address)
    (get_channel : Destination → Option Channel) (get_ledger : Address → Option ConsensusChannel)
    (o : Objective)
    → new_objective request pre_approve my_address get_channel get_ledger ≡ ok o
    → IsSigned lib o
unfolding new_objective is_zero Signature.equal
new_objective-IsSigned lib request pre_approve my_address get_channel get_ledger o e =
    let (v, _, e1) = >>=-eq-ok (or_fail (get_channel request.channel_id) not_found) _ e in
    let (initial, _, e2) = >>=-eq-ok (deref (get_elem? (post_fund_state v).outcome 0)) _ e1 in
    let ((left, right), _, e3) = >>=-eq-ok (find_ledgers v.fp my_address get_ledger) _ e2 in
    subst (IsSigned lib) (ok_injective e3)
      (record { three = refl; good = λ s h. (inl refl, (inl refl, (inl refl, tt))) })

module _ (lib : Library) (laws : CurveLaws lib) (key : Bytes) where
  -- The signatures are the participants' or zero, and only their operations move the ledgers.
  pub record IsKept (o e : Objective) : Type 0 where
    pub signed : IsSigned lib e
    pub left : LedgerMoves lib laws key o.to_my_left e.to_my_left
    pub right : LedgerMoves lib laws key o.to_my_right e.to_my_right

  IsKept-refl : (o : Objective) → IsSigned lib o → IsKept o o
  IsKept-refl o v = record {
    signed = v;
    left = LedgerMoves-refl lib laws key o.to_my_left;
    right = LedgerMoves-refl lib laws key o.to_my_right;
  }

  IsKept-trans : (o u e : Objective) → IsKept o u → IsKept u e → IsKept o e
  IsKept-trans o u e m n = record {
    signed = n.signed;
    left = LedgerMoves-trans lib laws key o.to_my_left u.to_my_left e.to_my_left m.left n.left;
    right =
        LedgerMoves-trans lib laws key o.to_my_right u.to_my_right e.to_my_right m.right n.right;
  }

  Takes-Moves : (sp : SignedProposal) (c d : ConsensusChannel) → Takes lib sp c d → Moves lib c d
  Takes-Moves sp c d (inl h) = Step-Moves lib laws c d (receives sp h)
  Takes-Moves sp c d (inr same) = subst (Moves lib c) same (Moves-refl lib c)

  -- The ledgers of an update.
  abbrev LedgersMove : Objective → Objective → Type 0
  LedgersMove o e =
      LedgerMoves lib laws key o.to_my_left e.to_my_left
      × LedgerMoves lib laws key o.to_my_right e.to_my_right

  Received-LedgersMove :
      (sp : SignedProposal) (u w : Objective) → Received lib sp u w → LedgersMove u w
  Received-LedgersMove sp u w (ignored e) =
      subst (LedgersMove u) e
        (LedgerMoves-refl lib laws key u.to_my_left, LedgerMoves-refl lib laws key u.to_my_right)
  Received-LedgersMove sp u w (on_left c d h t e) = subst (LedgersMove u) e (
    subst (λ x. LedgerMoves lib laws key x (some d)) (sym h) (Takes-Moves sp c d t),
    LedgerMoves-refl lib laws key u.to_my_right,
  )
  Received-LedgersMove sp u w (on_right c d h t e) = subst (LedgersMove u) e (
    LedgerMoves-refl lib laws key u.to_my_left,
    subst (λ x. LedgerMoves lib laws key x (some d)) (sym h) (Takes-Moves sp c d t),
  )

  update_signatures-LedgersMove :
      (o w : Objective) (incoming : List Signature) (i : ℕ) (rest : List Signature)
      → update_signatures lib o incoming i rest ≡ ok w
      → LedgersMove o w
  unfolding update_signatures
  update_signatures-LedgersMove o w incoming i [] e =
      subst (LedgersMove o) (ok_injective e)
        (LedgerMoves-refl lib laws key o.to_my_left, LedgerMoves-refl lib laws key o.to_my_right)
  update_signatures-LedgersMove o w incoming i (x ∷ rest) e =
      let (sig, _, e1) = >>=-eq-ok (deref (get_elem? incoming i)) _ e in
      elim (Bool-cases (is_zero sig)) [
        | inl absent ↦
            update_signatures-LedgersMove o w incoming (suc i) rest (ground (arith, absent, e1))
        | inr present ↦ elim (Bool-cases (is_zero x)) [
          | inr known ↦ elim (Bool-cases (Signature.equal x sig)) [
            | inl same ↦
                update_signatures-LedgersMove o w incoming (suc i) rest
                  (ground (arith, present, known, same, e1))
            | inr differs ↦ absurd (ground (arith, present, known, differs, e1))
          ]
          | inl fresh ↦
              let stored = record o { signatures = set o.signatures i sig } in
              let (_, _, e2) =
                >>=-eq-ok (validate_signature lib o sig i)
                  (λ _. update_signatures lib stored incoming (suc i) rest) {y = w}
                  (ground (arith, present, fresh, e1)) in
              update_signatures-LedgersMove stored w incoming (suc i) rest e2
        ]
      ]

  update_state-LedgersMove :
      (o u w : Objective) (ss : SignedState) → update_state lib o u ss ≡ ok w → LedgersMove u w
  unfolding update_state
  update_state-LedgersMove o u w ss e = elim (Bool-cases (length (signatures ss) == 0)) [
    | inl bare ↦
        subst (LedgersMove u) {x = u} {y = w} (ground (arith, bare, e))
          (LedgerMoves-refl lib laws key u.to_my_left, LedgerMoves-refl lib laws key u.to_my_right)
    | inr some_signed ↦
        let taken : (state_channel_id lib ss.state >>= λ incoming. v_id lib u >>= λ id.
        fail_if (not (incoming == id)) wrong_channel >>= λ _.
        update_signatures lib u (signatures ss) 0 o.signatures)
            ≡ ok w =
          ground (arith, some_signed, e) in
        let (incoming, _, e1) = >>=-eq-ok (state_channel_id lib ss.state) _ taken in
        let (id, _, e2) = >>=-eq-ok (v_id lib u) _ e1 in
        let (_, _, e3) = >>=-eq-ok (fail_if (not (incoming == id)) wrong_channel) _ e2 in
        update_signatures-LedgersMove u w (signatures ss) 0 o.signatures e3
  ]

  update-IsKept :
      (o w : Objective) (id : ObjectiveId) (ss : SignedState) (sp : SignedProposal)
      → IsSigned lib o
      → update lib o id ss sp ≡ ok w
      → IsKept o w
  unfolding update
  update-IsKept o w id ss sp v e =
      let (my_id, _, e1) = >>=-eq-ok (id_of lib o) _ e in
      let (_, _, e2) = >>=-eq-ok (fail_if (not (equal_ids my_id id)) mismatched_ids) _ e1 in
      let (u, hu, e3) = >>=-eq-ok (clone o) _ e2 in
      let (x, hx, e4) = >>=-eq-ok (update_state lib o u ss) _ e3 in
      let (l, r) =
        subst (λ y. LedgersMove y x) (sym (clone-same o u hu))
          (update_state-LedgersMove o u x ss hx) in
      let (l', r') = Received-LedgersMove sp x w (update_proposal-Received lib o x w sp e4) in
      record {
        signed = update-IsSigned lib o w id ss sp v e;
        left = LedgerMoves-trans lib laws key o.to_my_left x.to_my_left w.to_my_left l l';
        right = LedgerMoves-trans lib laws key o.to_my_right x.to_my_right w.to_my_right r r';
      }

  with_status-eq :
      (o u : Objective) (s : ObjectiveStatus)
      → o ≡ u
      → record o { status = s } ≡ record u { status = s }
  with_status-eq o u s e i = record (e i) { status = s }

  -- Approval and rejection change the status only.
  status-IsKept :
      (o u w : Objective) (s : ObjectiveStatus)
      → IsSigned lib o
      → clone o ≡ ok u
      → record u { status = s } ≡ w
      → IsKept o w
  status-IsKept o u w s v h e =
      subst (IsKept o) (with_status-eq o u s (clone-same o u h) ∙ e) (record {
        signed = with_ledgers-IsSigned lib o s o.to_my_left o.to_my_right v;
        left = LedgerMoves-refl lib laws key o.to_my_left;
        right = LedgerMoves-refl lib laws key o.to_my_right;
      })

  idle-IsKept :
      (o : Objective) (r : Cranked)
      → IsSigned lib o
      → is_approved o.status ≡ false
      → crank lib key o ≡ ok r
      → IsKept o r.objective
  unfolding crank
  idle-IsKept o r v idle e =
      let (u, hu, e1) = >>=-eq-ok (clone o) _ e in
      let same = clone-same o u hu in
      let off : is_approved u.status ≡ false = ap (λ x. is_approved x.status) (sym same) ∙ idle in
      subst (λ x. IsKept o x.objective)
        (fail-eq-ok u waiting_for_nothing not_approved r (ground (arith, off, e1)))
        (subst (IsKept o) same (IsKept-refl o v))

  -- A call of an objective that succeeds; a crank is by the participant that it is for.
  pub data Call : Objective → Objective → Type 0 where
    cranks :
        (o : Objective) (me : Address) (r : Cranked)
        → address_from_secret_key lib key ≡ ok me
        → get_elem? o.v_fixed.participants o.my_role ≡ some me
        → crank lib key o ≡ ok r
        → Call o r.objective
    updates :
        (o u : Objective) (id : ObjectiveId) (ss : SignedState) (sp : SignedProposal)
        → update lib o id ss sp ≡ ok u
        → Call o u
    approves : (o u : Objective) → approve o ≡ ok u → Call o u
    rejects : (o u : Objective) → reject o ≡ ok u → Call o u

  pub data Life : Objective → Objective → Type 0 where
    here : (o : Objective) → Life o o
    next : (o u e : Objective) → Call o u → Life u e → Life o e

  Call-IsKept : (o u : Objective) → IsSigned lib o → Call o u → IsKept o u
  unfolding approve reject
  Call-IsKept o u v (cranks _ me r mine own h) = elim (Bool-cases (is_approved o.status)) [
    | inl active ↦
        let s =
          crank-VirtualDefunding lib laws key o me r v (approved_status o.status active) mine own
            h in
        record { signed = s.signed; left = s.left; right = s.right }
    | inr idle ↦ idle-IsKept o r v idle h
  ]
  Call-IsKept o u v (updates _ _ id ss sp h) = update-IsKept o u id ss sp v h
  Call-IsKept o u v (approves _ _ h) =
      let (w, hw, e) = >>=-eq-ok (clone o) _ h in status-IsKept o w u approved v hw (ok_injective e)
  Call-IsKept o u v (rejects _ _ h) =
      let (w, hw, e) = >>=-eq-ok (clone o) _ h in status-IsKept o w u rejected v hw (ok_injective e)

  -- Over any life of a virtual defunding objective, with its cranks, updates, approvals and
  -- rejections in any order, each signature that it holds stays zero or its participant's on the
  -- final state, and its ledgers change only by the operations of consensus channels and by
  -- copying: one that was valid is valid, and has the same funds in all.
  pub Life-IsKept : (o e : Objective) → IsSigned lib o → Life o e → IsKept o e
  Life-IsKept o e v (here _) = IsKept-refl o v
  Life-IsKept o e v (next _ u _ c l) =
      let k = Call-IsKept o u v c in IsKept-trans o u e k (Life-IsKept u e k.signed l)
