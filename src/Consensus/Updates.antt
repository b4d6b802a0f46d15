-- ===== src/Consensus/Updates.antt =====
-- channel/consensus_channel/leader_channel.go and follower_channel.go: what changes a channel.
pub mod Queue
pub mod Inversion
pub mod Invariant
pub mod History
pub mod Session
use go_nitro.Base.{
  ℕ, Bool, not, List, [], ◌∷◌, ◌++◌, length, ◌==◌, leb, if◌then◌else◌, Result, ok, err, fail_if,
  deref, or_fail, ◌>>=◌, ◌>>◌, incorrect_channel_id, not_leader, not_follower,
  proposal_queue_exhausted, wrong_signer, no_proposals, non_matching_proposals,
  invalid_proposal_signature, invalid_turn_num, malformed_channel,
}
use go_nitro.Types.Destination.{Bytes}
use go_nitro.State.Library.{Library}
use go_nitro.Consensus.Proposal.{Proposal, SignedProposal, equal_proposal}
use go_nitro.Consensus.Vars.{Vars, handle_proposal, next_turn}
use go_nitro.Consensus.Channel.{
  ConsensusChannel, SignedVars, leader_index, follower_index, participant, is_leader, is_follower,
  leader, validate_proposal_id, candidate, latest_proposed_vars, recover_vars_signer,
  recover_signer, sign,
}

module _ (lib : Library) where
  -- `Propose`: the proposal that the leader signs stands last in the queue.
  unfoldable pub propose :
      ConsensusChannel → Proposal → Bytes → Result (SignedProposal × ConsensusChannel)
  propose c proposal secret_key = do
    fail_if (not (c.my_index == leader_index)) not_leader
    fail_if (not (proposal.ledger_id == c.id)) incorrect_channel_id
    latest ← latest_proposed_vars c
    vars ← handle_proposal latest proposal
    signature ← sign lib c vars secret_key
    let signed : SignedProposal = record {
      signature = signature;
      proposal = proposal;
      turn_num = vars.turn_num;
    }
    ok (signed, record c { proposal_queue = c.proposal_queue ++ signed ∷ [] })

  -- What `leaderReceive` does at our proposal with the countersigned turn number: `vars` is what
  -- the proposal leads to, and `rest` the queue behind it.
  pub countersign :
      ConsensusChannel
      → SignedProposal
      → Vars
      → SignedProposal
      → List SignedProposal
      → Result ConsensusChannel
  countersign c countersigned vars our_p rest = do
    signer ← recover_vars_signer lib c.fp vars countersigned.signature
    follower ← participant c.fp follower_index
    fail_if (not (signer == follower)) wrong_signer
    ok (record c {
      current = record {
        vars = vars;
        leader_signature = our_p.signature;
        follower_signature = countersigned.signature;
      };
      proposal_queue = rest;
    })

  -- The loop of `leaderReceive`, over what is left of the queue.
  leader_loop :
      ConsensusChannel → SignedProposal → Vars → List SignedProposal → Result ConsensusChannel
  unfolding countersign
  leader_loop c countersigned before [] = err proposal_queue_exhausted
  leader_loop c countersigned before (our_p ∷ rest) = do
    vars ← handle_proposal before our_p.proposal
    let next = leader_loop c countersigned vars rest
    if vars.turn_num == countersigned.turn_num
        then countersign c countersigned vars our_p rest
        else next

  -- `leaderReceive`
  unfoldable pub leader_receive : ConsensusChannel → SignedProposal → Result ConsensusChannel
  unfolding leader_loop
  leader_receive c countersigned = do
    fail_if (not (c.my_index == leader_index)) not_leader
    validate_proposal_id c countersigned.proposal
    vars ← candidate c
    let loop = leader_loop c countersigned vars c.proposal_queue
    if leb countersigned.turn_num vars.turn_num then ok c else loop

  -- What `SignNextProposal` does with the queue: it signs the first proposal.
  pub sign_first :
      ConsensusChannel
      → Proposal
      → Bytes
      → List SignedProposal
      → Result (SignedProposal × ConsensusChannel)
  sign_first c expected secret_key [] = err no_proposals
  sign_first c expected secret_key (signed ∷ rest) = do
    fail_if (not (equal_proposal signed.proposal expected)) non_matching_proposals
    before ← candidate c
    vars ← handle_proposal before signed.proposal
    signature ← sign lib c vars secret_key
    ok (
      record { signature = signature; proposal = signed.proposal; turn_num = vars.turn_num },
      record c {
        current = record {
          vars = vars;
          leader_signature = signed.signature;
          follower_signature = signature;
        };
        proposal_queue = rest;
      },
    )

  -- `SignNextProposal`
  unfoldable pub sign_next_proposal :
      ConsensusChannel → Proposal → Bytes → Result (SignedProposal × ConsensusChannel)
  unfolding sign_first
  sign_next_proposal c expected secret_key = do
    fail_if (not (c.my_index == follower_index)) not_follower
    validate_proposal_id c expected
    sign_first c expected secret_key c.proposal_queue

  -- `followerReceive`
  unfoldable pub follower_receive : ConsensusChannel → SignedProposal → Result ConsensusChannel
  follower_receive c p = do
    fail_if (not (c.my_index == follower_index)) not_follower
    validate_proposal_id c p.proposal
    latest ← latest_proposed_vars c
    fail_if (not (p.turn_num == next_turn latest.turn_num)) invalid_turn_num
    vars ← handle_proposal latest p.proposal
    signer ← recover_signer lib c vars p.signature
    leader_addr ← leader c
    fail_if (not (signer == leader_addr)) invalid_proposal_signature
    ok (record c { proposal_queue = c.proposal_queue ++ p ∷ [] })

  -- `Receive`
  unfoldable pub receive : ConsensusChannel → SignedProposal → Result ConsensusChannel
  receive c sp =
      if is_follower c
      then follower_receive c sp
      else if is_leader c
      then leader_receive c sp
      else err malformed_channel
