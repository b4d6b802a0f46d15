-- ===== src/Protocols/VirtualDefund/Signed.antt =====
-- The signatures that a virtual defunding objective collects are its participants' on the final state.
use go_nitro.Base.{
  ℕ, zero, suc, ◌+◌, ◌<◌, ◌≡◌, ◌⊎◌, inl, inr, refl, ap, sym, ◌∙◌, true, Bool-cases, not, Option,
  some, List, [], ◌∷◌, length, get_elem?, set, ◌==◌, ltb, ok, fail_if, fail_if-eq-ok, deref,
  or_fail-eq-ok, >>=-eq-ok, ok_injective, arith, subst, panicked, wrong_index, wrong_signer,
  wrong_channel, mismatched_ids, ◌>>=◌,
}
use go_nitro.Types.Destination.{Address}
use go_nitro.Outcome.Exit.{SingleAssetExit, clone_single}
use go_nitro.State.Signature
use go_nitro.State.Signature.{Signature}
use go_nitro.State.Data.{State, clone_fixed_part}
use go_nitro.State.Equality.{clone_allocations}
use go_nitro.State.Library.{Library}
use go_nitro.State.Hashing.{recover_signer, state_channel_id}
use go_nitro.State.Signed.{SignedState, signatures}
use go_nitro.Consensus.Support.Copies.{clone_fixed_part-eq}
use go_nitro.Consensus.Proposal.{SignedProposal}
use go_nitro.Consensus.Channel.{ConsensusChannel}
use go_nitro.Protocols.{ObjectiveStatus, ObjectiveId, equal_ids}
use go_nitro.Protocols.VirtualDefund.{
  Objective, is_zero, all_signed, fully_signed, final_state, clone, validate_signature,
  update_signatures, update_state, update, v_id, id_of,
}
use go_nitro.Protocols.VirtualDefund.Received.{
  Received, ignored, on_left, on_right, update_proposal-Received,
}

pub clone_single-eq : (s : SingleAssetExit) → clone_single s ≡ s
unfolding clone_single
clone_single-eq s = ap (λ a. record s { allocations = a }) (clone_allocations s.allocations)

-- A copy of an objective is the objective.
pub clone-same : (o u : Objective) → clone o ≡ ok u → o ≡ u
unfolding clone
clone-same o u e =
    let (f, hf, e1) = >>=-eq-ok (clone_fixed_part o.v_fixed) _ e in
    let p = clone_fixed_part-eq o.v_fixed f hf in
    (λ i. record o { v_fixed = p i; initial_outcome = sym (clone_single-eq o.initial_outcome) i })
    ∙ ok_injective e1

module _ (lib : Library) (s : State) (participants : List Address) where
  -- The signature is zero, or recovers to the participant at the position.
  abbrev pub IsGood : ℕ → Signature → Type 0
  IsGood i sig =
      (is_zero sig ≡ true)
      ⊎ (a : Address) × (get_elem? participants i ≡ some a) × (recover_signer lib s sig ≡ ok a)

  -- The same of each signature of a list that stands from the position on.
  abbrev pub AreGood : ℕ → List Signature → Type 0
  AreGood i [] = Unit
  AreGood i (sig ∷ sigs) = IsGood i sig × AreGood (suc i) sigs

  AreGood-set :
      (i j k : ℕ) (sigs : List Signature) (sig : Signature)
      → k ≡ i + j
      → IsGood k sig
      → AreGood i sigs
      → AreGood i (set sigs j sig)
  AreGood-set i j k [] sig e g h = tt
  AreGood-set i zero k (x ∷ sigs) sig e g (_, h) =
      (subst (λ n. IsGood n sig) (omega (arith, e)) g, h)
  AreGood-set i (suc j) k (x ∷ sigs) sig e g (y, h) =
      (y, AreGood-set (suc i) j k sigs sig (omega (arith, e)) g h)

  -- Where none is zero, each recovers to its participant.
  AreGood-all :
      (i j k : ℕ) (sigs : List Signature)
      → k ≡ i + j
      → j < length sigs
      → all_signed sigs ≡ true
      → AreGood i sigs
      → (sig : Signature) × (get_elem? sigs j ≡ some sig)
        × (a : Address) × (get_elem? participants k ≡ some a)
        × (recover_signer lib s sig ≡ ok a)
  unfolding all_signed
  AreGood-all i j k [] e lt full h = absurd (omega (arith, lt))
  AreGood-all i j k (x ∷ sigs) e lt full (inl z, h) = absurd (ground (arith, z, full))
  AreGood-all i zero k (x ∷ sigs) e lt full (inr (a, p, r), h) =
      (x, refl, a, ap (get_elem? participants) (omega (arith, e)) ∙ p, r)
  AreGood-all i (suc j) k (x ∷ sigs) e lt full (inr (a, p, r), h) =
      AreGood-all (suc i) j k sigs (omega (arith, e)) (omega (arith, lt)) (ground (arith, full)) h

length-set :
    (sigs : List Signature) (i : ℕ) (sig : Signature) → length (set sigs i sig) ≡ length sigs
length-set [] i sig = refl
length-set (x ∷ sigs) zero sig = refl
length-set (x ∷ sigs) (suc i) sig = ap suc (length-set sigs i sig)

module _ (lib : Library) where
  -- Of the three signatures of the objective each is zero, or its participant's on the final state.
  pub record IsSigned (o : Objective) : Type 0 where
    pub three : length o.signatures ≡ 3
    pub good :
        (s : State) → final_state o ≡ ok s → AreGood lib s o.v_fixed.participants 0 o.signatures

  pub stored_state :
      (o : Objective) (sigs : List Signature)
      → final_state (record o { signatures = sigs }) ≡ final_state o
  unfolding final_state
  stored_state o sigs = refl

  pub store-IsSigned :
      (o : Objective) (i : ℕ) (sig : Signature)
      → ((s : State) → final_state o ≡ ok s → IsGood lib s o.v_fixed.participants i sig)
      → IsSigned o
      → IsSigned (record o { signatures = set o.signatures i sig })
  store-IsSigned o i sig g v = record {
    three = length-set o.signatures i sig ∙ v.three;
    good = λ s e.
        let e' = sym (stored_state o (set o.signatures i sig)) ∙ e in
        AreGood-set lib s o.v_fixed.participants 0 i i o.signatures sig (omega arith) (g s e')
          (v.good s e');
  }

  validated :
      (o : Objective) (sig : Signature) (i : ℕ) (u : Unit {0}) (s : State)
      → validate_signature lib o sig i ≡ ok u
      → final_state o ≡ ok s
      → IsGood lib s o.v_fixed.participants i sig
  unfolding validate_signature
  validated o sig i u s e hs =
      let (_, _, e1) = >>=-eq-ok (fail_if (ltb 2 i) wrong_index) _ e in
      let (t, ht, e2) = >>=-eq-ok (final_state o) _ e1 in
      let (a, ha, e3) = >>=-eq-ok (recover_signer lib t sig) _ e2 in
      let (p, hp, e4) = >>=-eq-ok (deref (get_elem? o.v_fixed.participants i)) _ e3 in
      let same : t ≡ s = ok_injective (sym ht ∙ hs) in
      let who : a ≡ p = ground (arith, fail_if-eq-ok (not (a == p)) wrong_signer e4) in
      inr (
        p,
        or_fail-eq-ok (get_elem? o.v_fixed.participants i) panicked hp,
        ap (λ x. recover_signer lib x sig) (sym same) ∙ ha ∙ ap ok who,
      )

  update_signatures-IsSigned :
      (o w : Objective) (incoming : List Signature) (i : ℕ) (rest : List Signature)
      → IsSigned o
      → update_signatures lib o incoming i rest ≡ ok w
      → IsSigned w
  unfolding update_signatures
  update_signatures-IsSigned o w incoming i [] v e = subst IsSigned (ok_injective e) v
  update_signatures-IsSigned o w incoming i (x ∷ rest) v e =
      let (sig, _, e1) = >>=-eq-ok (deref (get_elem? incoming i)) _ e in
      elim (Bool-cases (is_zero sig)) [
        | inl absent ↦
            update_signatures-IsSigned o w incoming (suc i) rest v (ground (arith, absent, e1))
        | inr present ↦ elim (Bool-cases (is_zero x)) [
          | inr known ↦ elim (Bool-cases (Signature.equal x sig)) [
            | inl same ↦
                update_signatures-IsSigned o w incoming (suc i) rest v
                  (ground (arith, present, known, same, e1))
            | inr differs ↦ absurd (ground (arith, present, known, differs, e1))
          ]
          | inl fresh ↦
              let stored = record o { signatures = set o.signatures i sig } in
              let (u, hu, e2) =
                >>=-eq-ok (validate_signature lib o sig i)
                  (λ _. update_signatures lib stored incoming (suc i) rest) {y = w}
                  (ground (arith, present, fresh, e1)) in
              update_signatures-IsSigned stored w incoming (suc i) rest
                (store-IsSigned o i sig (λ s hs. validated o sig i u s hu hs) v) e2
        ]
      ]

  abbrev pub with_ledgers :
      Objective → ObjectiveStatus → Option ConsensusChannel → Option ConsensusChannel → Objective
  with_ledgers o s l r = record o { status = s; to_my_left = l; to_my_right = r }

  same_state :
      (o : Objective) (s : ObjectiveStatus) (l r : Option ConsensusChannel)
      → final_state (with_ledgers o s l r) ≡ final_state o
  unfolding final_state
  same_state o s l r = refl

  pub with_ledgers-IsSigned :
      (o : Objective) (s : ObjectiveStatus) (l r : Option ConsensusChannel)
      → IsSigned o
      → IsSigned (with_ledgers o s l r)
  with_ledgers-IsSigned o s l r v = record {
    three = v.three;
    good = λ t e. v.good t (sym (same_state o s l r) ∙ e);
  }

  update_state-IsSigned :
      (o u w : Objective) (ss : SignedState)
      → IsSigned u
      → update_state lib o u ss ≡ ok w
      → IsSigned w
  unfolding update_state
  update_state-IsSigned o u w ss v e = elim (Bool-cases (length (signatures ss) == 0)) [
    | inl bare ↦ subst IsSigned {x = u} (ground (arith, bare, e)) v
    | inr some_signed ↦
        let taken : (state_channel_id lib ss.state >>= λ incoming. v_id lib u >>= λ id.
        fail_if (not (incoming == id)) wrong_channel >>= λ _.
        update_signatures lib u (signatures ss) 0 o.signatures)
            ≡ ok w =
          ground (arith, some_signed, e) in
        let (incoming, _, e1) = >>=-eq-ok (state_channel_id lib ss.state) _ taken in
        let (id, _, e2) = >>=-eq-ok (v_id lib u) _ e1 in
        let (_, _, e3) = >>=-eq-ok (fail_if (not (incoming == id)) wrong_channel) _ e2 in
        update_signatures-IsSigned u w (signatures ss) 0 o.signatures v e3
  ]

  Received-IsSigned :
      (sp : SignedProposal) (u w : Objective) → Received lib sp u w → IsSigned u → IsSigned w
  Received-IsSigned sp u w (ignored e) v = subst IsSigned e v
  Received-IsSigned sp u w (on_left c d _ _ e) v =
      subst IsSigned e (with_ledgers-IsSigned u u.status (some d) u.to_my_right v)
  Received-IsSigned sp u w (on_right c d _ _ e) v =
      subst IsSigned e (with_ledgers-IsSigned u u.status u.to_my_left (some d) v)

  -- An update keeps that each signature of the objective is zero, or its participant's on the final
  -- state of the virtual channel.
  pub update-IsSigned :
      (o w : Objective) (id : ObjectiveId) (ss : SignedState) (sp : SignedProposal)
      → IsSigned o
      → update lib o id ss sp ≡ ok w
      → IsSigned w
  unfolding update
  update-IsSigned o w id ss sp v e =
      let (my_id, _, e1) = >>=-eq-ok (id_of lib o) _ e in
      let (_, _, e2) = >>=-eq-ok (fail_if (not (equal_ids my_id id)) mismatched_ids) _ e1 in
      let (u, hu, e3) = >>=-eq-ok (clone o) _ e2 in
      let (x, hx, e4) = >>=-eq-ok (update_state lib o u ss) _ e3 in
      Received-IsSigned sp x w (update_proposal-Received lib o x w sp e4)
        (update_state-IsSigned o u x ss (subst IsSigned (clone-same o u hu) v) hx)

  -- Where the signatures of an objective are its participants' or zero, and all are there, each of
  -- the three participants has signed the final state.
  pub fully_signed_lem :
      (o : Objective) (s : State) (i : ℕ)
      → IsSigned o
      → fully_signed o ≡ true
      → final_state o ≡ ok s
      → i < 3
      → (sig : Signature) × (get_elem? o.signatures i ≡ some sig)
        × (a : Address) × (get_elem? o.v_fixed.participants i ≡ some a)
        × (recover_signer lib s sig ≡ ok a)
  unfolding fully_signed
  fully_signed_lem o s i v full e lt =
      AreGood-all lib s o.v_fixed.participants 0 i i o.signatures (omega arith)
        (omega (arith, v.three, lt)) full (v.good s e)
