-- ===== src/Consensus/Channel.antt =====
-- channel/consensus_channel/consensus_channel.go: the channel, its queries and its constructor. A
-- method that mutates the receiver returns the new channel; one that fails leaves it as it was.
use go_nitro.Base.{
  ℕ, Bool, true, false, ◌&&◌, not, List, [], ◌∷◌, get_elem?, ◌==◌, if◌then◌else◌, Result, ok, err,
  fail_if, deref, incorrect_channel_id, wrong_turn_num, leader_did_not_sign, follower_did_not_sign,
  wrong_signing_address, ◌>>=◌, ◌>>◌,
}
use go_nitro.Types.Destination.{Address, Destination, Bytes}
use go_nitro.Types.Funds.{Funds}
use go_nitro.State.Signature.{Signature}
use go_nitro.State.Data.{FixedPart}
use go_nitro.State.Library.{Library}
use go_nitro.State.Signing.{address_from_secret_key}
use go_nitro.State.Hashing.{channel_id, validate}
use go_nitro.State.Hashing
use go_nitro.Consensus.Guarantee.{Guarantee}
use go_nitro.Consensus.LedgerOutcome.{LedgerOutcome, includes, includes_target, funding_targets}
use go_nitro.Consensus.LedgerOutcome
use go_nitro.Consensus.Proposal.{Proposal, SignedProposal, add_proposal, remove_proposal, type_of}
use go_nitro.Consensus.Vars.{Vars, handle_proposal, as_state}

-- `Leader` and `Follower`, the positions of the two participants.
abbrev pub leader_index : ℕ
leader_index = 0

abbrev pub follower_index : ℕ
follower_index = 1

pub record SignedVars : Type 0 where
  pub vars : Vars
  pub leader_signature : Signature
  pub follower_signature : Signature

pub record ConsensusChannel : Type 0 where
  pub my_index : ℕ
  pub fp : FixedPart
  pub id : Destination
  pub on_chain_funding : Funds
  pub current : SignedVars
  pub proposal_queue : List SignedProposal

-- `c.fp.Participants[i]`
abbrev pub participant : FixedPart → ℕ → Result Address
participant fp i = deref (get_elem? fp.participants i)

-- `ConsensusChannel.IsLeader`
unfoldable pub is_leader : ConsensusChannel → Bool
is_leader c = c.my_index == leader_index

-- `ConsensusChannel.IsFollower`
unfoldable pub is_follower : ConsensusChannel → Bool
is_follower c = c.my_index == follower_index

-- `ConsensusChannel.Leader`
unfoldable pub leader : ConsensusChannel → Result Address
leader c = participant c.fp leader_index

-- `ConsensusChannel.Follower`
unfoldable pub follower : ConsensusChannel → Result Address
follower c = participant c.fp follower_index

-- `ConsensusChannel.ConsensusTurnNum`
unfoldable pub consensus_turn_num : ConsensusChannel → ℕ
consensus_turn_num c = c.current.vars.turn_num

-- `ConsensusChannel.Includes`
unfoldable pub channel_includes : ConsensusChannel → Guarantee → Bool
channel_includes c g = includes c.current.vars.outcome g

-- `ConsensusChannel.IncludesTarget`
unfoldable pub channel_includes_target : ConsensusChannel → Destination → Bool
channel_includes_target c target = includes_target c.current.vars.outcome target

-- `ConsensusChannel.FundingTargets`
unfoldable pub channel_funding_targets : ConsensusChannel → List Destination
channel_funding_targets c = funding_targets c.current.vars.outcome

-- The proposal removes the guarantee for the target.
abbrev pub removes : Destination → Proposal → Bool
removes target p = elim (type_of p) [
  | add_proposal ↦ false
  | remove_proposal ↦ p.to_remove.target == target
]

removal_queued : Destination → List SignedProposal → Bool
removal_queued target [] = false
removal_queued target (p ∷ q) = if removes target p.proposal then true else removal_queued target q

-- `ConsensusChannel.HasRemovalBeenProposed`
unfoldable pub has_removal_been_proposed : ConsensusChannel → Destination → Bool
unfolding removal_queued
has_removal_been_proposed c target = removal_queued target c.proposal_queue

-- `ConsensusChannel.HasRemovalBeenProposedNext`
unfoldable pub has_removal_been_proposed_next : ConsensusChannel → Destination → Bool
has_removal_been_proposed_next c target = elim c.proposal_queue [
  | [] ↦ false
  | p ∷ q ↦ removes target p.proposal
]

-- `validateProposalID`
unfoldable pub validate_proposal_id : ConsensusChannel → Proposal → Result (Unit {0})
validate_proposal_id c p = fail_if (not (p.ledger_id == c.id)) incorrect_channel_id

-- A copy of the current vars, to be changed.
unfoldable pub candidate : ConsensusChannel → Result Vars
candidate c = do
  o ← LedgerOutcome.clone c.current.vars.outcome
  ok (record { turn_num = c.current.vars.turn_num; outcome = o })

-- The loop of `latestProposedVars`.
unfoldable pub apply_queue : Vars → List SignedProposal → Result Vars
apply_queue vars [] = ok vars
apply_queue vars (p ∷ q) = do vars' ← handle_proposal vars p.proposal; apply_queue vars' q

-- `latestProposedVars`
unfoldable pub latest_proposed_vars : ConsensusChannel → Result Vars
unfolding apply_queue candidate
latest_proposed_vars c = do vars ← candidate c; apply_queue vars c.proposal_queue

-- `ConsensusChannel.IsProposed`
unfoldable pub is_proposed : ConsensusChannel → Guarantee → Result Bool
is_proposed c g = do
  latest ← latest_proposed_vars c
  ok (includes latest.outcome g && not (channel_includes c g))

-- The vars after `HandleProposal`, which it leaves as they were when it fails.
abbrev pub after : Vars → Result Vars → Vars
after vars (ok vars') = vars'
after vars (err e) = vars

-- `ConsensusChannel.IsProposedNext`; the turn number is compared before the error is returned.
unfoldable pub is_proposed_next : ConsensusChannel → Guarantee → Result Bool
is_proposed_next c g = do
  vars ← candidate c
  elim c.proposal_queue [
    | [] ↦ ok false
    | p ∷ q ↦ do
      let handled = handle_proposal vars p.proposal
      fail_if (not ((after vars handled).turn_num == p.turn_num)) wrong_turn_num
      vars' ← handled
      ok (includes vars'.outcome g && not (channel_includes c g))
  ]

module _ (lib : Library) where
  -- `vars.AsState(fp).RecoverSigner(sig)`
  unfoldable pub recover_vars_signer : FixedPart → Vars → Signature → Result Address
  recover_vars_signer fp vars sig = do s ← as_state vars fp; Hashing.recover_signer lib s sig

  -- `ConsensusChannel.recoverSigner`
  unfoldable pub recover_signer : ConsensusChannel → Vars → Signature → Result Address
  recover_signer c vars sig = recover_vars_signer c.fp vars sig

  -- `ConsensusChannel.sign`
  unfoldable pub sign : ConsensusChannel → Vars → Bytes → Result Signature
  sign c vars secret_key = do
    signer ← address_from_secret_key lib secret_key
    me ← participant c.fp c.my_index
    fail_if (not (me == signer)) wrong_signing_address
    s ← as_state vars c.fp
    Hashing.sign lib s secret_key

  -- `newConsensusChannel`
  unfoldable pub new_consensus_channel :
      FixedPart → ℕ → ℕ → LedgerOutcome → Signature → Signature → Result ConsensusChannel
  new_consensus_channel fp my_index initial_turn_num outcome leader_signature follower_signature =
      do
        validate lib fp
        id ← channel_id lib fp
        o ← LedgerOutcome.clone outcome
        let vars : Vars = record { turn_num = initial_turn_num; outcome = o }
        leader_addr ← recover_vars_signer fp vars leader_signature
        p0 ← participant fp leader_index
        fail_if (not (leader_addr == p0)) leader_did_not_sign
        follower_addr ← recover_vars_signer fp vars follower_signature
        p1 ← participant fp follower_index
        fail_if (not (follower_addr == p1)) follower_did_not_sign
        ok (record {
          my_index = my_index;
          fp = fp;
          id = id;
          on_chain_funding = [];
          current = record {
            vars = vars;
            leader_signature = leader_signature;
            follower_signature = follower_signature;
          };
          proposal_queue = [];
        })
