-- ===== src/Tests/Consensus.antt =====
-- One proposal through a ledger channel: proposed, received, countersigned, received again.
use go_nitro.Base.{ℕ, ◌+◌, ◌^◌, ◌≡◌, ◌≤◌, ◌⊎◌, refl, some, [], ◌∷◌, pos, ok, sort, ◌-ℤ◌, ◌⊎◌}
use go_nitro.State.Hashing
use go_nitro.State.Hashing.{validate, channel_id, state_channel_id, encode, hash}
use go_nitro.Types.Destination.{Destination, bytes, is_external}
use go_nitro.State.Signature.{split_signature, join_signature}
use go_nitro.State.Signing.{
  message_digest, sign_ethereum_message, recover_ethereum_message_signer, address_from_secret_key,
}
use go_nitro.State.Data.{fixed_part, equal_pointers}
use go_nitro.Consensus.Guarantee.{Guarantee, guarantee_as_allocation, equal_guarantee}
use go_nitro.Consensus.LedgerOutcome.{LedgerOutcome, as_outcome}
use go_nitro.Consensus.LedgerOutcome
use go_nitro.Consensus.Proposal.{Proposal, SignedProposal, zero_remove, equal_proposal}
use go_nitro.Consensus.Vars.{handle_proposal, as_state}
use go_nitro.Consensus.Channel.{
  ConsensusChannel, new_consensus_channel, latest_proposed_vars, sign, candidate,
  recover_vars_signer, recover_signer, leader, validate_proposal_id, is_leader, is_follower,
}
use go_nitro.Consensus.Updates.{
  propose, sign_next_proposal, follower_receive, leader_receive, receive,
}
use go_nitro.Consensus.Updates.Invariant.{
  IsValid, new_consensus_channel-IsValid, propose-IsValid, follower_receive-IsValid,
}
use go_nitro.Consensus.Updates.History.{
  Advanced, leader_receive_cases, Same, here, next, proposes, receives, Reach-IsValid,
}
use go_nitro.Tests.Data.{toy, toy-CurveLaws, leader_key, follower_key, signature_of, fixed}

abbrev funded : LedgerOutcome
funded = record {
  asset_address = 0;
  leader = record { destination = 1; amount = pos 100 };
  follower = record { destination = 2; amount = pos 50 };
  guarantees = [];
}

abbrev ledger_id : Destination
ledger_id = 2 ^ 255 + 2

-- The channel at the start, as each participant holds it.
abbrev pub start : ℕ → ConsensusChannel
start i = record {
  my_index = i;
  fp = fixed;
  id = ledger_id;
  on_chain_funding = [];
  current = record {
    vars = record { turn_num = 0; outcome = funded };
    leader_signature = signature_of 11;
    follower_signature = signature_of 22;
  };
  proposal_queue = [];
}

start_run :
    (i : ℕ)
    → new_consensus_channel toy fixed i 0 funded (signature_of 11) (signature_of 22) ≡ ok (start i)
unfolding new_consensus_channel validate channel_id LedgerOutcome.clone recover_vars_signer as_state
    as_outcome Hashing.recover_signer hash encode state_channel_id fixed_part
    recover_ethereum_message_signer message_digest join_signature is_external bytes sort
start_run i = refl

pub start-IsValid : (i : ℕ) → IsValid toy (start i)
start-IsValid i =
    new_consensus_channel-IsValid toy fixed i 0 funded (signature_of 11) (signature_of 22) (start i)
      tt (start_run i)

abbrev guarantee : Guarantee
guarantee = record { amount = some (pos 30); target = 5; left = 1; right = 2 }

abbrev pub addition : Proposal
addition = record {
  ledger_id = ledger_id;
  to_add = record { guarantee = guarantee; left_deposit = some (pos 20) };
  to_remove = zero_remove;
}

abbrev pub signed : SignedProposal
signed = record { signature = signature_of 11; proposal = addition; turn_num = 1 }

-- The channel with the proposal in its queue.
abbrev pub pending : ℕ → ConsensusChannel
pending i = record (start i) { proposal_queue = signed ∷ [] }

-- The channel when the proposal has both signatures.
abbrev pub agreed : ℕ → ConsensusChannel
agreed i = record (start i) {
  current = record {
    vars = record {
      turn_num = 1;
      outcome = record {
        asset_address = 0;
        leader = record { destination = 1; amount = pos 80 };
        follower = record { destination = 2; amount = pos 40 };
        guarantees = (5, guarantee) ∷ [];
      };
    };
    leader_signature = signature_of 11;
    follower_signature = signature_of 22;
  };
}

abbrev pub countersigned : SignedProposal
countersigned = record { signature = signature_of 22; proposal = addition; turn_num = 1 }

pub propose_run : propose toy (start 0) addition leader_key ≡ ok (signed, pending 0)
unfolding propose latest_proposed_vars LedgerOutcome.clone handle_proposal sign as_state as_outcome
    Hashing.sign hash encode state_channel_id channel_id fixed_part sign_ethereum_message
    message_digest split_signature bytes address_from_secret_key guarantee_as_allocation sort ◌-ℤ◌
propose_run = refl

follower_receive_run : follower_receive toy (start 1) signed ≡ ok (pending 1)
unfolding follower_receive validate_proposal_id latest_proposed_vars LedgerOutcome.clone
    handle_proposal recover_signer recover_vars_signer leader as_state as_outcome
    Hashing.recover_signer hash encode state_channel_id channel_id fixed_part
    recover_ethereum_message_signer message_digest join_signature bytes guarantee_as_allocation sort
    ◌-ℤ◌
follower_receive_run = refl

pub sign_next_proposal_run :
    sign_next_proposal toy (pending 1) addition follower_key ≡ ok (countersigned, agreed 1)
unfolding sign_next_proposal validate_proposal_id equal_pointers equal_proposal equal_guarantee
    LedgerOutcome.clone candidate handle_proposal sign as_state as_outcome Hashing.sign hash encode
    state_channel_id channel_id fixed_part sign_ethereum_message message_digest split_signature
    bytes address_from_secret_key guarantee_as_allocation sort ◌-ℤ◌
sign_next_proposal_run = refl

leader_receive_run : leader_receive toy (pending 0) countersigned ≡ ok (agreed 0)
unfolding leader_receive validate_proposal_id LedgerOutcome.clone candidate handle_proposal
    recover_vars_signer as_state as_outcome Hashing.recover_signer hash encode state_channel_id
    channel_id fixed_part recover_ethereum_message_signer message_digest join_signature bytes
    guarantee_as_allocation sort ◌-ℤ◌
leader_receive_run = refl

receive_run : receive toy (pending 0) countersigned ≡ ok (agreed 0)
unfolding receive is_follower is_leader
receive_run = leader_receive_run

leader_pending-IsValid : IsValid toy (pending 0)
leader_pending-IsValid =
    propose-IsValid toy (start 0) (pending 0) addition leader_key signed toy-CurveLaws
      (start-IsValid 0) propose_run

follower_pending-IsValid : IsValid toy (pending 1)
follower_pending-IsValid =
    follower_receive-IsValid toy (start 1) (pending 1) signed (start-IsValid 1) follower_receive_run

leader_receive_cases_example :
    ((1 ≤ 0) × (pending 0 ≡ agreed 0))
    ⊎ Advanced toy (pending 0) (agreed 0) countersigned (pending 0).current.vars (signed ∷ [])
leader_receive_cases_example =
    leader_receive_cases toy (pending 0) (agreed 0) countersigned tt leader_receive_run

-- The leader proposes and gets the proposal back.
Reach-IsValid_example : IsValid toy (agreed 0) × Same (start 0) (agreed 0)
Reach-IsValid_example = Reach-IsValid toy (start 0) (agreed 0) toy-CurveLaws (start-IsValid 0) (
    next (next here (proposes addition leader_key signed propose_run))
      (receives countersigned receive_run))
