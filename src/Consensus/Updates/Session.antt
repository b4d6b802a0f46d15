-- ===== src/Consensus/Updates/Session.antt =====
-- The two copies of a ledger channel: what one sends, the other accepts, and they stay the same.
use go_nitro.Base.{
  ℕ, ◌+◌, ◌^◌, ◌<◌, ◌≡◌, refl, ap, sym, ◌∙◌, subst, true, false, not, ◌==◌, leb, List, [], ◌∷◌,
  ◌++◌, ok, fail_if, fail_if-eq-ok, >>=-eq-ok, arith, incorrect_channel_id, not_follower,
}
use go_nitro.Types.Destination.{Bytes}
use go_nitro.Types.Funds.{Funds}
use go_nitro.State.Library.{Library}
use go_nitro.State.Recovery.{CurveLaws}
use go_nitro.Consensus.Proposal.{Proposal, SignedProposal, equal_proposal}
use go_nitro.Consensus.Vars.{Vars, handle_proposal, next_turn}
use go_nitro.Consensus.Vars.Funds.{handle_proposal_turn}
use go_nitro.Consensus.Channel.{
  ConsensusChannel, leader_index, follower_index, candidate, latest_proposed_vars, recover_signer,
  leader, validate_proposal_id,
}
use go_nitro.Consensus.Updates.{
  propose, leader_loop, countersign, leader_receive, sign_first, sign_next_proposal,
  follower_receive,
}
use go_nitro.Consensus.Updates.Queue.{SignedBy, sign-SignedBy, not-equal}
use go_nitro.Consensus.Updates.Inversion.{propose-Proposed, sign_first-SignedFirst}

-- The follower's copy of the leader's channel.
abbrev as_follower : ConsensusChannel → Funds → ConsensusChannel
as_follower c funding = record c { my_index = follower_index; on_chain_funding = funding }

-- The first channel is the leader's and the second the follower's copy of it; only what each has
-- seen on chain may differ.
pub record Mirrors (l f : ConsensusChannel) : Type 0 where
  pub leads : l.my_index ≡ leader_index
  pub funding : Funds
  pub copied : f ≡ as_follower l funding

latest_same :
    (l : ConsensusChannel) (x : Funds)
    → latest_proposed_vars (as_follower l x) ≡ latest_proposed_vars l
unfolding latest_proposed_vars candidate
latest_same l x = refl

candidate_same : (l : ConsensusChannel) (x : Funds) → candidate (as_follower l x) ≡ candidate l
unfolding candidate
candidate_same l x = refl

own_id :
    (c : ConsensusChannel) (p : Proposal) → p.ledger_id ≡ c.id → validate_proposal_id c p ≡ ok tt
unfolding validate_proposal_id
own_id c p h = ground (arith, h)

self_equal : (n m : ℕ) → n ≡ m → (n == m) ≡ true
self_equal n m h = ground (arith, h)

module _ (lib : Library) where
  accepts :
      (l : ConsensusChannel) (x : Funds) (p : SignedProposal) (u w : Vars)
      → p.proposal.ledger_id ≡ l.id
      → latest_proposed_vars l ≡ ok u
      → handle_proposal u p.proposal ≡ ok w
      → p.turn_num ≡ w.turn_num
      → SignedBy lib l.fp leader_index w p.signature
      → follower_receive lib (as_follower l x) p
        ≡ ok (record (as_follower l x) { proposal_queue = l.proposal_queue ++ p ∷ [] })
  unfolding follower_receive validate_proposal_id recover_signer leader
  accepts l x p u w own hu hw turn by =
      let t =
        self_equal p.turn_num (next_turn u.turn_num)
          (turn ∙ handle_proposal_turn u p.proposal w hw) in
      let s = self_equal by.signer by.signer refl in
      rw
        (
          own_id (as_follower l x) p.proposal own,
          latest_same l x ∙ hu,
          t,
          hw,
          by.recovers,
          by.stands,
          s,
        )
        refl

  -- What the leader proposes, the follower accepts, and their copies have the same queue again.
  pub propose_delivered :
      (l f l' : ConsensusChannel) (p : Proposal) (key : Bytes) (sp : SignedProposal)
      → CurveLaws lib
      → Mirrors l f
      → propose lib l p key ≡ ok (sp, l')
      → (f' : ConsensusChannel) × (follower_receive lib f sp ≡ ok f') × Mirrors l' f'
  propose_delivered l f l' p key sp laws m e =
      let d = propose-Proposed lib l l' p key sp e in
      let made : SignedProposal = record {
        signature = d.signature;
        proposal = p;
        turn_num = d.vars.turn_num;
      } in
      let by =
        subst (λ n. SignedBy lib l.fp n d.vars d.signature) m.leads
          (sign-SignedBy lib l d.vars key d.signature laws d.signs) in
      let longer : ConsensusChannel = record l { proposal_queue = l.proposal_queue ++ sp ∷ [] } in
      (
        as_follower longer m.funding,
        ap (λ c. follower_receive lib c sp) m.copied
            ∙ subst
                (λ s.
                  follower_receive lib (as_follower l m.funding) s
                  ≡ ok (record (as_follower l m.funding) {
                    proposal_queue = l.proposal_queue ++ s ∷ [];
                  }))
                d.message
                (accepts l m.funding made d.latest d.vars d.own d.known d.handled refl by),
        subst (λ c. Mirrors c (as_follower longer m.funding)) d.result
            (record { leads = m.leads; funding = m.funding; copied = refl }),
      )

  loop_accepts :
      (l : ConsensusChannel) (sp cs : SignedProposal) (q : List SignedProposal) (v w : Vars)
      → handle_proposal v sp.proposal ≡ ok w
      → w.turn_num ≡ cs.turn_num
      → SignedBy lib l.fp follower_index w cs.signature
      → leader_loop lib l cs v (sp ∷ q)
        ≡ ok (record l {
          current = record {
            vars = w;
            leader_signature = sp.signature;
            follower_signature = cs.signature;
          };
          proposal_queue = q;
        })
  unfolding leader_loop countersign
  loop_accepts l sp cs q v w hw turn by =
      rw
        (
          hw,
          self_equal w.turn_num cs.turn_num turn,
          by.recovers,
          by.stands,
          self_equal by.signer by.signer refl,
        )
        refl

  same_ledger : (p q : Proposal) → equal_proposal p q ≡ true → p.ledger_id ≡ q.ledger_id
  unfolding equal_proposal
  same_ledger p q h = ground (arith, h)

  leader_accepts :
      (l : ConsensusChannel) (sp cs : SignedProposal) (q : List SignedProposal) (v w : Vars)
      → l.my_index ≡ leader_index
      → cs.proposal.ledger_id ≡ l.id
      → candidate l ≡ ok v
      → l.proposal_queue ≡ sp ∷ q
      → v.turn_num < cs.turn_num
      → handle_proposal v sp.proposal ≡ ok w
      → w.turn_num ≡ cs.turn_num
      → SignedBy lib l.fp follower_index w cs.signature
      → leader_receive lib l cs
        ≡ ok (record l {
          current = record {
            vars = w;
            leader_signature = sp.signature;
            follower_signature = cs.signature;
          };
          proposal_queue = q;
        })
  unfolding leader_receive
  leader_accepts l sp cs q v w role own hv hq fresh hw turn by =
      let newer : leb cs.turn_num v.turn_num ≡ false = ground (arith, fresh) in
      rw (self_equal l.my_index leader_index role, own_id l cs.proposal own, hv, newer, hq)
        (loop_accepts l sp cs q v w hw turn by)

  countersigned_first :
      (l f f' : ConsensusChannel) (p : Proposal) (key : Bytes) (cs : SignedProposal)
      (qs : List SignedProposal)
      → CurveLaws lib
      → Mirrors l f
      → l.current.vars.turn_num + 1 < 2 ^ 64
      → p.ledger_id ≡ l.id
      → l.proposal_queue ≡ qs
      → sign_first lib f p key qs ≡ ok (cs, f')
      → (l' : ConsensusChannel) × (leader_receive lib l cs ≡ ok l') × Mirrors l' f'
  unfolding sign_first
  countersigned_first l f f' p key cs [] laws m small own hq e = cc
  countersigned_first l f f' p key cs (sp ∷ q) laws m small own hq e =
      let c = as_follower l m.funding in
      let d =
        sign_first-SignedFirst lib c f' p key cs sp q
          (ap (λ x. sign_first lib x p key (sp ∷ q)) (sym m.copied) ∙ e) in
      let turn = handle_proposal_turn l.current.vars sp.proposal d.vars d.handled in
      let ledger = same_ledger sp.proposal p d.expects in
      let made : SignedProposal = record {
        signature = d.signature;
        proposal = sp.proposal;
        turn_num = d.vars.turn_num;
      } in
      let accepted =
        leader_accepts l sp made q l.current.vars d.vars m.leads (ledger ∙ own)
          (sym (candidate_same l m.funding) ∙ d.copies) hq (ground (arith, turn, small)) d.handled
          refl (sign-SignedBy lib c d.vars key d.signature laws d.signs) in
      (
        record l {
          current = record {
            vars = d.vars;
            leader_signature = sp.signature;
            follower_signature = d.signature;
          };
          proposal_queue = q;
        },
        ap (λ s. leader_receive lib l s) (sym d.message) ∙ accepted,
        record { leads = m.leads; funding = m.funding; copied = sym d.result },
      )

  -- What the follower countersigns, the leader accepts as long as the turn number does not wrap
  -- around, and both copies have the same consensus state, with both signatures, and the same
  -- queue again.
  pub countersigned_delivered :
      (l f f' : ConsensusChannel) (p : Proposal) (key : Bytes) (cs : SignedProposal)
      → CurveLaws lib
      → Mirrors l f
      → l.current.vars.turn_num + 1 < 2 ^ 64
      → sign_next_proposal lib f p key ≡ ok (cs, f')
      → (l' : ConsensusChannel) × (leader_receive lib l cs ≡ ok l') × Mirrors l' f'
  unfolding sign_next_proposal validate_proposal_id
  countersigned_delivered l f f' p key cs laws m small e =
      let (_, role, e1) =
        >>=-eq-ok (fail_if (not (f.my_index == follower_index)) not_follower) _ e in
      let (_, own, e2) = >>=-eq-ok (validate_proposal_id f p) _ e1 in
      let id =
        not-equal p.ledger_id f.id (fail_if-eq-ok _ incorrect_channel_id own)
        ∙ ap (λ c. c.id) m.copied in
      countersigned_first l f f' p key cs l.proposal_queue laws m small id refl (
        subst (λ q. sign_first lib f p key q ≡ ok (cs, f')) (ap (λ c. c.proposal_queue) m.copied)
          e2)
