-- ===== src/Consensus/Updates/History.antt =====
-- Any history of a ledger channel: what all its operations leave alone.
use go_nitro.Base.{
  ◌≡◌, ◌≤◌, ◌⊎◌, inl, inr, refl, ap, sym, ◌∙◌, Bool-cases, not, ◌==◌, leb, List, [], ◌∷◌, ◌++◌,
  IsMap, ok, fail_if, >>=-eq-ok, arith, subst, not_leader, not_follower,
}
use go_nitro.Types.Destination.{Bytes}
use go_nitro.State.Library.{Library}
use go_nitro.State.Recovery.{CurveLaws}
use go_nitro.Consensus.Proposal.{Proposal, SignedProposal}
use go_nitro.Consensus.Vars.{Vars, handle_proposal}
use go_nitro.Consensus.Vars.Funds.{total_funds, handle_proposal-Kept}
use go_nitro.Consensus.Channel.{
  ConsensusChannel, leader_index, follower_index, candidate, validate_proposal_id,
}
use go_nitro.Consensus.Updates.{
  propose, receive, countersign, leader_loop, leader_receive, sign_first, sign_next_proposal,
  follower_receive,
}
use go_nitro.Consensus.Updates.Queue.{candidate-eq, SignedBy}
use go_nitro.Consensus.Updates.Invariant.{
  IsValid, propose-IsValid, receive-IsValid, sign_next_proposal-IsValid,
}
use go_nitro.Consensus.Updates.Inversion.{
  propose-Proposed, follower_receive-Received, countersign-Countersigned, sign_first-SignedFirst,
}

-- The constants of the channel and the funds of its consensus state are the same.
pub record Same (c c' : ConsensusChannel) : Type 0 where
  pub fixed : c'.fp ≡ c.fp
  pub name : c'.id ≡ c.id
  pub role : c'.my_index ≡ c.my_index
  pub funding : c'.on_chain_funding ≡ c.on_chain_funding
  pub total : total_funds c'.current.vars.outcome ≡ total_funds c.current.vars.outcome

Same-queue :
    (c c' : ConsensusChannel) (q : List SignedProposal)
    → record c { proposal_queue = q } ≡ c'
    → Same c c'
Same-queue c c' q e =
    subst (Same c) e
      (record { fixed = refl; name = refl; role = refl; funding = refl; total = refl })

module _ (lib : Library) where
  propose-Same :
      (c c' : ConsensusChannel) (p : Proposal) (key : Bytes) (sp : SignedProposal)
      → propose lib c p key ≡ ok (sp, c')
      → Same c c'
  propose-Same c c' p key sp e = Same-queue c c' _ (propose-Proposed lib c c' p key sp e).result

  follower_receive-Same :
      (c c' : ConsensusChannel) (p : SignedProposal) → follower_receive lib c p ≡ ok c' → Same c c'
  follower_receive-Same c c' p e = Same-queue c c' _ (follower_receive-Received lib c c' p e).result

  -- What the leader's loop ends with: the countersigned turn number, the funds of the vars that
  -- it began with, and the queue without a part in front.
  pub record Advanced (c c' : ConsensusChannel) (cs : SignedProposal) (v : Vars)
      (q : List SignedProposal) : Type 0 where
    pub reached : c'.current.vars.turn_num ≡ cs.turn_num
    pub countersigned : c'.current.follower_signature ≡ cs.signature
    pub by_follower : SignedBy lib c.fp follower_index c'.current.vars cs.signature
    pub kept : total_funds c'.current.vars.outcome ≡ total_funds v.outcome
    pub dropped : List SignedProposal
    pub trimmed : q ≡ dropped ++ c'.proposal_queue
    pub constants :
        (c'.fp ≡ c.fp)
        × (c'.id ≡ c.id)
        × (c'.my_index ≡ c.my_index)
        × (c'.on_chain_funding ≡ c.on_chain_funding)

  countersign-Advanced :
      (c c' : ConsensusChannel) (cs x : SignedProposal) (v : Vars) (q : List SignedProposal)
      → v.turn_num ≡ cs.turn_num
      → countersign lib c cs v x q ≡ ok c'
      → Advanced c c' cs v q
  countersign-Advanced c c' cs x v q hit e =
      let d = countersign-Countersigned lib c c' cs x v q e in
      subst (λ r. Advanced c r cs v q) d.result
        (record {
          reached = hit;
          countersigned = refl;
          by_follower = d.by_follower;
          kept = refl;
          dropped = [];
          trimmed = refl;
          constants = (refl, refl, refl, refl);
        })

  leader_loop-Advanced :
      (c c' : ConsensusChannel) (cs : SignedProposal) (v : Vars) (q : List SignedProposal)
      → IsMap v.outcome.guarantees
      → leader_loop lib c cs v q ≡ ok c'
      → Advanced c c' cs v q
  unfolding leader_loop
  leader_loop-Advanced c c' cs v [] m e = cc
  leader_loop-Advanced c c' cs v (x ∷ q) m e =
      let (w, hw, e1) = >>=-eq-ok (handle_proposal v x.proposal) _ e in
      let k = handle_proposal-Kept v x.proposal w m hw in
      let a : Advanced c c' cs w q = elim (Bool-cases (w.turn_num == cs.turn_num)) [
        | inl hit ↦
            countersign-Advanced c c' cs x w q (ground (arith, hit)) (ground (arith, hit, e1))
        | inr miss ↦ leader_loop-Advanced c c' cs w q k.keyed (ground (arith, miss, e1))
      ] in
      record {
        reached = a.reached;
        countersigned = a.countersigned;
        by_follower = a.by_follower;
        kept = a.kept ∙ k.total;
        dropped = x ∷ a.dropped;
        trimmed = ap (λ r. x ∷ r) a.trimmed;
        constants = a.constants;
      }

  -- A leader that accepts a message either finds its turn number not above the consensus one and
  -- changes nothing, or moves the consensus state to that turn number, under the signature from the
  -- message, which recovers to the follower, and with the same funds, and cuts the queue in front.
  pub leader_receive_cases :
      (c c' : ConsensusChannel) (cs : SignedProposal)
      → IsMap c.current.vars.outcome.guarantees
      → leader_receive lib c cs ≡ ok c'
      → ((cs.turn_num ≤ c.current.vars.turn_num) × (c ≡ c'))
        ⊎ Advanced c c' cs c.current.vars c.proposal_queue
  unfolding leader_receive
  leader_receive_cases c c' cs m e =
      let (_, role, e1) = >>=-eq-ok (fail_if (not (c.my_index == leader_index)) not_leader) _ e in
      let (_, own, e2) = >>=-eq-ok (validate_proposal_id c cs.proposal) _ e1 in
      let (u, hu, e3) = >>=-eq-ok (candidate c) _ e2 in
      let same = candidate-eq c u hu in
      elim (Bool-cases (leb cs.turn_num u.turn_num)) [
        | inl stale ↦
            inl (ground (arith, ap (λ r. r.turn_num) same, stale), ground (arith, stale, e3))
        | inr fresh ↦ inr (
            subst (λ r. Advanced c c' cs r c.proposal_queue) (sym same)
              (leader_loop-Advanced c c' cs u c.proposal_queue
                (subst (λ r. IsMap r.outcome.guarantees) same m) (ground (arith, fresh, e3))))
      ]

  leader_receive-Same :
      (c c' : ConsensusChannel) (cs : SignedProposal)
      → IsMap c.current.vars.outcome.guarantees
      → leader_receive lib c cs ≡ ok c'
      → Same c c'
  leader_receive-Same c c' cs m e = elim (leader_receive_cases c c' cs m e) [
    | inl stale ↦ subst (Same c) stale.1 (Same-queue c c c.proposal_queue refl)
    | inr a ↦ record {
      fixed = a.constants.0;
      name = a.constants.1;
      role = a.constants.2;
      funding = a.constants.3;
      total = a.kept;
    }
  ]

  receive-Same :
      (c c' : ConsensusChannel) (sp : SignedProposal)
      → IsMap c.current.vars.outcome.guarantees
      → receive lib c sp ≡ ok c'
      → Same c c'
  unfolding receive
  receive-Same c c' sp m e =
      ground (arith, follower_receive-Same c c' sp, leader_receive-Same c c' sp m)

  sign_first-Same :
      (c c' : ConsensusChannel) (p : Proposal) (key : Bytes) (sp : SignedProposal)
      (q : List SignedProposal)
      → IsMap c.current.vars.outcome.guarantees
      → sign_first lib c p key q ≡ ok (sp, c')
      → Same c c'
  unfolding sign_first
  sign_first-Same c c' p key sp [] m e = cc
  sign_first-Same c c' p key sp (x ∷ q) m e =
      let d = sign_first-SignedFirst lib c c' p key sp x q e in
      subst (Same c) d.result (record {
        fixed = refl;
        name = refl;
        role = refl;
        funding = refl;
        total = (handle_proposal-Kept c.current.vars x.proposal d.vars m d.handled).total;
      })

  sign_next_proposal-Same :
      (c c' : ConsensusChannel) (p : Proposal) (key : Bytes) (sp : SignedProposal)
      → IsMap c.current.vars.outcome.guarantees
      → sign_next_proposal lib c p key ≡ ok (sp, c')
      → Same c c'
  unfolding sign_next_proposal
  sign_next_proposal-Same c c' p key sp m e =
      let (_, _, e1) = >>=-eq-ok (fail_if (not (c.my_index == follower_index)) not_follower) _ e in
      let (_, _, e2) = >>=-eq-ok (validate_proposal_id c p) _ e1 in
      sign_first-Same c c' p key sp c.proposal_queue m e2

  -- One call that succeeds. A call that fails changes nothing.
  pub data Step (c c' : ConsensusChannel) : Type 0 where
    proposes :
        (p : Proposal) (key : Bytes) (sp : SignedProposal)
        → propose lib c p key ≡ ok (sp, c')
        → Step c c'
    receives : (sp : SignedProposal) → receive lib c sp ≡ ok c' → Step c c'
    signs :
        (p : Proposal) (key : Bytes) (sp : SignedProposal)
        → sign_next_proposal lib c p key ≡ ok (sp, c')
        → Step c c'

  pub data Reach (c : ConsensusChannel) : ConsensusChannel → Type 0 where
    here : Reach c c
    next : {d e : ConsensusChannel} → Reach c d → Step d e → Reach c e

  pub Step-IsValid :
      (c d : ConsensusChannel) → CurveLaws lib → IsValid lib c → Step c d → IsValid lib d × Same c d
  Step-IsValid c d laws v (proposes p key sp e) =
      (propose-IsValid lib c d p key sp laws v e, propose-Same c d p key sp e)
  Step-IsValid c d laws v (receives sp e) =
      (receive-IsValid lib c d sp v e, receive-Same c d sp v.keyed e)
  Step-IsValid c d laws v (signs p key sp e) = (
    sign_next_proposal-IsValid lib c d p key sp laws v e,
    sign_next_proposal-Same c d p key sp v.keyed e,
  )

  Same-trans : {b c d : ConsensusChannel} → Same b c → Same c d → Same b d
  Same-trans s t = record {
    fixed = t.fixed ∙ s.fixed;
    name = t.name ∙ s.name;
    role = t.role ∙ s.role;
    funding = t.funding ∙ s.funding;
    total = t.total ∙ s.total;
  }

  -- After any history of calls a valid channel is valid: its consensus state bears the signatures
  -- of both participants; and its identity, its participants and the sum of all balances and
  -- guarantees are what they were.
  pub Reach-IsValid :
      (c d : ConsensusChannel)
      → CurveLaws lib
      → IsValid lib c
      → Reach c d
      → IsValid lib d × Same c d
  Reach-IsValid c d laws v here = (v, Same-queue c c c.proposal_queue refl)
  Reach-IsValid c d laws v (next {d = b} r s) =
      let (w, t) = Reach-IsValid c b laws v r in
      let (w', t') = Step-IsValid b d laws w s in (w', Same-trans t t')
