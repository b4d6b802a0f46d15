-- ===== src/Consensus/Updates/Invariant.antt =====
-- The invariant of a ledger channel, and that every operation keeps it.
use go_nitro.Base.{
  ℕ, ◌≡◌, inl, inr, refl, ap, sym, ◌∙◌, Bool-cases, not, ◌==◌, leb, List, [], ◌∷◌, ◌++◌, IsMap, ok,
  fail_if, fail_if-eq-ok, >>=-eq-ok, ok_injective, arith, subst, not_leader, not_follower,
  leader_did_not_sign, follower_did_not_sign,
}
use go_nitro.Types.Destination.{Bytes}
use go_nitro.State.Signature.{Signature}
use go_nitro.State.Data.{FixedPart}
use go_nitro.State.Library.{Library}
use go_nitro.State.Hashing.{validate, channel_id}
use go_nitro.State.Recovery.{CurveLaws}
use go_nitro.Consensus.LedgerOutcome.{LedgerOutcome}
use go_nitro.Consensus.LedgerOutcome
use go_nitro.Consensus.LedgerOutcome.Copy.{clone-eq}
use go_nitro.Consensus.Proposal.{Proposal, SignedProposal}
use go_nitro.Consensus.Vars.{Vars}
use go_nitro.Consensus.Vars.Funds.{handle_proposal-Kept, handle_proposal_turn}
use go_nitro.Consensus.Channel.{
  ConsensusChannel, participant, leader_index, follower_index, candidate, apply_queue,
  latest_proposed_vars, recover_vars_signer, validate_proposal_id, new_consensus_channel,
}
use go_nitro.Consensus.Updates.{
  propose, receive, countersign, leader_loop, leader_receive, sign_first, sign_next_proposal,
  follower_receive,
}
use go_nitro.Consensus.Updates.Queue.{
  SignedBy, Queued, Queued-append, sign-SignedBy, candidate-eq, not-equal,
}
use go_nitro.Consensus.Updates.Inversion.{
  propose-Proposed, follower_receive-Received, countersign-Countersigned, sign_first-SignedFirst,
}

module _ (lib : Library) where
  -- Both participants have signed the consensus state, its map has each target once, and the
  -- queue leads on from it under the leader's signatures.
  pub record IsValid (c : ConsensusChannel) : Type 0 where
    pub leader_signed : SignedBy lib c.fp leader_index c.current.vars c.current.leader_signature
    pub follower_signed :
        SignedBy lib c.fp follower_index c.current.vars c.current.follower_signature
    pub keyed : IsMap c.current.vars.outcome.guarantees
    pub queued : Queued lib c.fp c.id c.current.vars c.proposal_queue

  latest-eq :
      (c : ConsensusChannel) (u : Vars)
      → latest_proposed_vars c ≡ ok u
      → apply_queue c.current.vars c.proposal_queue ≡ ok u
  unfolding latest_proposed_vars
  latest-eq c u h = let (v, p, q) = >>=-eq-ok (candidate c) _ h in rw (candidate-eq c v p) q

  -- A channel that the constructor accepts is valid.
  pub new_consensus_channel-IsValid :
      (fp : FixedPart) (i turn : ℕ) (o : LedgerOutcome) (g h : Signature) (c : ConsensusChannel)
      → IsMap o.guarantees
      → new_consensus_channel lib fp i turn o g h ≡ ok c
      → IsValid c
  unfolding new_consensus_channel
  new_consensus_channel-IsValid fp i turn o g h c m e =
      let (_, _, e1) = >>=-eq-ok (validate lib fp) _ e in
      let (id, _, e2) = >>=-eq-ok (channel_id lib fp) _ e1 in
      let (o', ho, e3) = >>=-eq-ok (LedgerOutcome.clone o) _ e2 in
      let vars : Vars = record { turn_num = turn; outcome = o' } in
      let (a, ha, e4) = >>=-eq-ok (recover_vars_signer lib fp vars g) _ e3 in
      let (p, hp, e5) = >>=-eq-ok (participant fp leader_index) _ e4 in
      let (_, same, e6) = >>=-eq-ok (fail_if (not (a == p)) leader_did_not_sign) _ e5 in
      let (b, hb, e7) = >>=-eq-ok (recover_vars_signer lib fp vars h) _ e6 in
      let (q, hq, e8) = >>=-eq-ok (participant fp follower_index) _ e7 in
      let (_, same', e9) = >>=-eq-ok (fail_if (not (b == q)) follower_did_not_sign) _ e8 in
      let l = not-equal a p (fail_if-eq-ok (not (a == p)) leader_did_not_sign same) in
      let f = not-equal b q (fail_if-eq-ok (not (b == q)) follower_did_not_sign same') in
      subst IsValid (ok_injective e9) (record {
        leader_signed = record { signer = p; stands = hp; recovers = ha ∙ ap ok l };
        follower_signed = record { signer = q; stands = hq; recovers = hb ∙ ap ok f };
        keyed = subst (λ x. IsMap x.guarantees) (clone-eq o o' ho) m;
        queued = tt;
      })

  -- A valid channel with another queue that leads on from its consensus state is valid.
  queue-IsValid :
      (c : ConsensusChannel) (q : List SignedProposal)
      → IsValid c
      → Queued lib c.fp c.id c.current.vars q
      → IsValid (record c { proposal_queue = q })
  queue-IsValid c q v h = record {
    leader_signed = v.leader_signed;
    follower_signed = v.follower_signed;
    keyed = v.keyed;
    queued = h;
  }

  -- A proposal of the leader keeps the channel valid: it bears the leader's signature on the
  -- state that the whole queue leads to.
  pub propose-IsValid :
      (c c' : ConsensusChannel) (p : Proposal) (key : Bytes) (sp : SignedProposal)
      → CurveLaws lib
      → IsValid c
      → propose lib c p key ≡ ok (sp, c')
      → IsValid c'
  propose-IsValid c c' p key sp laws v e =
      let d = propose-Proposed lib c c' p key sp e in
      let made : SignedProposal = record {
        signature = d.signature;
        proposal = p;
        turn_num = d.vars.turn_num;
      } in
      let by =
        subst (λ n. SignedBy lib c.fp n d.vars d.signature) d.leads
          (sign-SignedBy lib c d.vars key d.signature laws d.signs) in
      let longer =
        Queued-append lib c.fp c.id c.current.vars d.latest d.vars c.proposal_queue made v.queued
          (latest-eq c d.latest d.known) d.handled refl d.own by in
      subst IsValid d.result (
        queue-IsValid c (c.proposal_queue ++ sp ∷ []) v (
          subst (λ s. Queued lib c.fp c.id c.current.vars (c.proposal_queue ++ s ∷ [])) d.message
            longer))

  -- A proposal that the follower receives keeps the channel valid.
  pub follower_receive-IsValid :
      (c c' : ConsensusChannel) (p : SignedProposal)
      → IsValid c
      → follower_receive lib c p ≡ ok c'
      → IsValid c'
  follower_receive-IsValid c c' p v e =
      let d = follower_receive-Received lib c c' p e in
      subst IsValid d.result (
        queue-IsValid c (c.proposal_queue ++ p ∷ []) v (
          Queued-append lib c.fp c.id c.current.vars d.latest d.vars c.proposal_queue p v.queued
            (latest-eq c d.latest d.known) d.handled
            (d.turn ∙ sym (handle_proposal_turn d.latest p.proposal d.vars d.handled)) d.own
            d.by_leader))

  sign_first-IsValid :
      (c c' : ConsensusChannel) (p : Proposal) (key : Bytes) (sp : SignedProposal)
      (q : List SignedProposal)
      → CurveLaws lib
      → IsValid c
      → c.my_index ≡ follower_index
      → Queued lib c.fp c.id c.current.vars q
      → sign_first lib c p key q ≡ ok (sp, c')
      → IsValid c'
  unfolding sign_first
  sign_first-IsValid c c' p key sp [] laws v i h e = cc
  sign_first-IsValid c c' p key sp (x ∷ q) laws v i (w, hw, turn, id, by, rest) e =
      let d = sign_first-SignedFirst lib c c' p key sp x q e in
      let same_vars : w ≡ d.vars = ok_injective (sym hw ∙ d.handled) in
      subst IsValid d.result (record {
        leader_signed = subst (λ r. SignedBy lib c.fp leader_index r x.signature) same_vars by;
        follower_signed =
            subst (λ n. SignedBy lib c.fp n d.vars d.signature) i
              (sign-SignedBy lib c d.vars key d.signature laws d.signs);
        keyed = (handle_proposal-Kept c.current.vars x.proposal d.vars v.keyed d.handled).keyed;
        queued = subst (λ r. Queued lib c.fp c.id r q) same_vars rest;
      })

  -- When the follower countersigns the first proposal, the new consensus state bears both
  -- signatures, and the rest of the queue leads on from it.
  pub sign_next_proposal-IsValid :
      (c c' : ConsensusChannel) (p : Proposal) (key : Bytes) (sp : SignedProposal)
      → CurveLaws lib
      → IsValid c
      → sign_next_proposal lib c p key ≡ ok (sp, c')
      → IsValid c'
  unfolding sign_next_proposal
  sign_next_proposal-IsValid c c' p key sp laws v e =
      let (_, role, e1) =
        >>=-eq-ok (fail_if (not (c.my_index == follower_index)) not_follower) _ e in
      let (_, own, e2) = >>=-eq-ok (validate_proposal_id c p) _ e1 in
      let i = not-equal c.my_index follower_index (fail_if-eq-ok _ not_follower role) in
      sign_first-IsValid c c' p key sp c.proposal_queue laws v i v.queued e2

  countersign-IsValid :
      (c c' : ConsensusChannel) (cs x : SignedProposal) (v : Vars) (q : List SignedProposal)
      → IsMap v.outcome.guarantees
      → SignedBy lib c.fp leader_index v x.signature
      → Queued lib c.fp c.id v q
      → countersign lib c cs v x q ≡ ok c'
      → IsValid c'
  countersign-IsValid c c' cs x v q m by h e =
      let d = countersign-Countersigned lib c c' cs x v q e in
      subst IsValid d.result
        (record { leader_signed = by; follower_signed = d.by_follower; keyed = m; queued = h })

  leader_loop-IsValid :
      (c c' : ConsensusChannel) (cs : SignedProposal) (v : Vars) (q : List SignedProposal)
      → IsMap v.outcome.guarantees
      → Queued lib c.fp c.id v q
      → leader_loop lib c cs v q ≡ ok c'
      → IsValid c'
  unfolding leader_loop
  leader_loop-IsValid c c' cs v [] m h e = cc
  leader_loop-IsValid c c' cs v (x ∷ q) m (w, hw, turn, id, by, rest) e =
      let m' = (handle_proposal-Kept v x.proposal w m hw).keyed in
      elim (Bool-cases (w.turn_num == cs.turn_num)) [
        | inl hit ↦ countersign-IsValid c c' cs x w q m' by rest (ground (arith, hw, e))
        | inr miss ↦ leader_loop-IsValid c c' cs w q m' rest (ground (arith, hw, e))
      ]

  -- When the leader receives its countersigned proposal, the new consensus state bears both
  -- signatures, and the rest of the queue leads on from it; a stale one changes nothing.
  pub leader_receive-IsValid :
      (c c' : ConsensusChannel) (cs : SignedProposal)
      → IsValid c
      → leader_receive lib c cs ≡ ok c'
      → IsValid c'
  unfolding leader_receive
  leader_receive-IsValid c c' cs v e =
      let (_, role, e1) = >>=-eq-ok (fail_if (not (c.my_index == leader_index)) not_leader) _ e in
      let (_, own, e2) = >>=-eq-ok (validate_proposal_id c cs.proposal) _ e1 in
      let (u, hu, e3) = >>=-eq-ok (candidate c) _ e2 in
      let same = candidate-eq c u hu in
      elim (Bool-cases (leb cs.turn_num u.turn_num)) [
        | inl stale ↦ subst IsValid (ground (arith, e3)) v
        | inr fresh ↦
            leader_loop-IsValid c c' cs u c.proposal_queue
              (subst (λ r. IsMap r.outcome.guarantees) same v.keyed)
              (subst (λ r. Queued lib c.fp c.id r c.proposal_queue) same v.queued)
              (ground (arith, e3))
      ]

  -- Whatever a valid channel receives, it stays valid.
  pub receive-IsValid :
      (c c' : ConsensusChannel) (sp : SignedProposal)
      → IsValid c
      → receive lib c sp ≡ ok c'
      → IsValid c'
  unfolding receive
  receive-IsValid c c' sp v e =
      ground (arith, follower_receive-IsValid c c' sp v, leader_receive-IsValid c c' sp v)
