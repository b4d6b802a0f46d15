-- ===== src/Consensus/Updates/Inversion.antt =====
-- What each operation has checked and done where it succeeds.
use go_nitro.Base.{
  ℕ, ◌≡◌, ap, sym, ◌∙◌, true, not, ◌==◌, List, [], ◌∷◌, ◌++◌, Error, ok, fail_if, fail_if-eq-ok,
  >>=-eq-ok, ok_injective, arith, incorrect_channel_id, not_leader, not_follower, wrong_signer,
  non_matching_proposals, invalid_turn_num, invalid_proposal_signature,
}
use go_nitro.Types.Destination.{Bytes}
use go_nitro.State.Signature.{Signature}
use go_nitro.State.Library.{Library}
use go_nitro.Consensus.Proposal.{Proposal, SignedProposal, equal_proposal}
use go_nitro.Consensus.Vars.{Vars, handle_proposal, next_turn}
use go_nitro.Consensus.Channel.{
  ConsensusChannel, participant, leader_index, follower_index, candidate, latest_proposed_vars,
  recover_vars_signer, recover_signer, sign, leader, validate_proposal_id,
}
use go_nitro.Consensus.Updates.{propose, countersign, sign_first, follower_receive}
use go_nitro.Consensus.Updates.Queue.{candidate-eq, not-equal, SignedBy}

-- A check that compares two numbers has passed.
passed : (a b : ℕ) (e : Error) {u : Unit {0}} → fail_if (not (a == b)) e ≡ ok u → a ≡ b
passed a b e h = not-equal a b (fail_if-eq-ok (not (a == b)) e h)

validated :
    (c : ConsensusChannel) (p : Proposal) {u : Unit {0}}
    → validate_proposal_id c p ≡ ok u
    → p.ledger_id ≡ c.id
unfolding validate_proposal_id
validated c p h = passed p.ledger_id c.id incorrect_channel_id h

module _ (lib : Library) where
  pub record Proposed (c : ConsensusChannel) (p : Proposal) (key : Bytes) (sp : SignedProposal)
      (c' : ConsensusChannel) : Type 0 where
    pub latest : Vars
    pub vars : Vars
    pub signature : Signature
    pub leads : c.my_index ≡ leader_index
    pub own : p.ledger_id ≡ c.id
    pub known : latest_proposed_vars c ≡ ok latest
    pub handled : handle_proposal latest p ≡ ok vars
    pub signs : sign lib c vars key ≡ ok signature
    pub message : record { signature = signature; proposal = p; turn_num = vars.turn_num } ≡ sp
    pub result : record c { proposal_queue = c.proposal_queue ++ sp ∷ [] } ≡ c'

  pub propose-Proposed :
      (c c' : ConsensusChannel) (p : Proposal) (key : Bytes) (sp : SignedProposal)
      → propose lib c p key ≡ ok (sp, c')
      → Proposed c p key sp c'
  unfolding propose
  propose-Proposed c c' p key sp e =
      let (_, role, e1) = >>=-eq-ok (fail_if (not (c.my_index == leader_index)) not_leader) _ e in
      let (_, own, e2) =
        >>=-eq-ok (fail_if (not (p.ledger_id == c.id)) incorrect_channel_id) _ e1 in
      let (u, hu, e3) = >>=-eq-ok (latest_proposed_vars c) _ e2 in
      let (w, hw, e4) = >>=-eq-ok (handle_proposal u p) _ e3 in
      let (sig, hs, e5) = >>=-eq-ok (sign lib c w key) _ e4 in
      let made = ok_injective e5 in
      let sent = ap (λ r. r.0) made in
      record {
        latest = u;
        vars = w;
        signature = sig;
        leads = passed c.my_index leader_index not_leader role;
        own = passed p.ledger_id c.id incorrect_channel_id own;
        known = hu;
        handled = hw;
        signs = hs;
        message = sent;
        result =
            ap (λ s. record c { proposal_queue = c.proposal_queue ++ s ∷ [] }) (sym sent)
            ∙ ap (λ r. r.1) made;
      }

  pub record Received (c : ConsensusChannel) (p : SignedProposal) (c' : ConsensusChannel)
      : Type 0 where
    pub latest : Vars
    pub vars : Vars
    pub own : p.proposal.ledger_id ≡ c.id
    pub known : latest_proposed_vars c ≡ ok latest
    pub turn : p.turn_num ≡ next_turn latest.turn_num
    pub handled : handle_proposal latest p.proposal ≡ ok vars
    pub by_leader : SignedBy lib c.fp leader_index vars p.signature
    pub result : record c { proposal_queue = c.proposal_queue ++ p ∷ [] } ≡ c'

  pub follower_receive-Received :
      (c c' : ConsensusChannel) (p : SignedProposal)
      → follower_receive lib c p ≡ ok c'
      → Received c p c'
  unfolding follower_receive recover_signer leader
  follower_receive-Received c c' p e =
      let (_, role, e1) =
        >>=-eq-ok (fail_if (not (c.my_index == follower_index)) not_follower) _ e in
      let (_, own, e2) = >>=-eq-ok (validate_proposal_id c p.proposal) _ e1 in
      let (u, hu, e3) = >>=-eq-ok (latest_proposed_vars c) _ e2 in
      let (_, turn, e4) =
        >>=-eq-ok (fail_if (not (p.turn_num == next_turn u.turn_num)) invalid_turn_num) _ e3 in
      let (w, hw, e5) = >>=-eq-ok (handle_proposal u p.proposal) _ e4 in
      let (a, ha, e6) = >>=-eq-ok (recover_signer lib c w p.signature) _ e5 in
      let (b, hb, e7) = >>=-eq-ok (leader c) _ e6 in
      let (_, by, e8) = >>=-eq-ok (fail_if (not (a == b)) invalid_proposal_signature) _ e7 in
      record {
        latest = u;
        vars = w;
        own = validated c p.proposal own;
        known = hu;
        turn = passed p.turn_num _ invalid_turn_num turn;
        handled = hw;
        by_leader = record {
          signer = b;
          stands = hb;
          recovers = ha ∙ ap ok (passed a b invalid_proposal_signature by);
        };
        result = ok_injective e8;
      }

  pub record Countersigned (c : ConsensusChannel) (cs x : SignedProposal) (v : Vars)
      (q : List SignedProposal) (c' : ConsensusChannel) : Type 0 where
    pub by_follower : SignedBy lib c.fp follower_index v cs.signature
    pub result :
        record c {
          current = record {
            vars = v;
            leader_signature = x.signature;
            follower_signature = cs.signature;
          };
          proposal_queue = q;
        }
        ≡ c'

  pub countersign-Countersigned :
      (c c' : ConsensusChannel) (cs x : SignedProposal) (v : Vars) (q : List SignedProposal)
      → countersign lib c cs v x q ≡ ok c'
      → Countersigned c cs x v q c'
  unfolding countersign
  countersign-Countersigned c c' cs x v q e =
      let (a, ha, e1) = >>=-eq-ok (recover_vars_signer lib c.fp v cs.signature) _ e in
      let (b, hb, e2) = >>=-eq-ok (participant c.fp follower_index) _ e1 in
      let (_, same, e3) = >>=-eq-ok (fail_if (not (a == b)) wrong_signer) _ e2 in
      record {
        by_follower = record {
          signer = b;
          stands = hb;
          recovers = ha ∙ ap ok (passed a b wrong_signer same);
        };
        result = ok_injective e3;
      }

  pub record SignedFirst (c : ConsensusChannel) (expected : Proposal) (key : Bytes)
      (x : SignedProposal) (q : List SignedProposal) (cs : SignedProposal) (c' : ConsensusChannel)
      : Type 0 where
    pub vars : Vars
    pub signature : Signature
    pub expects : equal_proposal x.proposal expected ≡ true
    pub copies : candidate c ≡ ok c.current.vars
    pub handled : handle_proposal c.current.vars x.proposal ≡ ok vars
    pub signs : sign lib c vars key ≡ ok signature
    pub message :
        record { signature = signature; proposal = x.proposal; turn_num = vars.turn_num } ≡ cs
    pub result :
        record c {
          current = record {
            vars = vars;
            leader_signature = x.signature;
            follower_signature = signature;
          };
          proposal_queue = q;
        }
        ≡ c'

  pub sign_first-SignedFirst :
      (c c' : ConsensusChannel) (p : Proposal) (key : Bytes) (cs x : SignedProposal)
      (q : List SignedProposal)
      → sign_first lib c p key (x ∷ q) ≡ ok (cs, c')
      → SignedFirst c p key x q cs c'
  unfolding sign_first
  sign_first-SignedFirst c c' p key cs x q e =
      let (_, same, e1) =
        >>=-eq-ok (fail_if (not (equal_proposal x.proposal p)) non_matching_proposals) _ e in
      let (u, hu, e2) = >>=-eq-ok (candidate c) _ e1 in
      let (w, hw, e3) = >>=-eq-ok (handle_proposal u x.proposal) _ e2 in
      let (sig, hs, e4) = >>=-eq-ok (sign lib c w key) _ e3 in
      let at_current = candidate-eq c u hu in
      record {
        vars = w;
        signature = sig;
        expects = ground (arith, fail_if-eq-ok _ non_matching_proposals same);
        copies = hu ∙ ap ok (sym at_current);
        handled = ap (λ r. handle_proposal r x.proposal) at_current ∙ hw;
        signs = hs;
        message = ap (λ r. r.0) (ok_injective e4);
        result = ap (λ r. r.1) (ok_injective e4);
      }
