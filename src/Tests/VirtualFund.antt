-- ===== src/Tests/VirtualFund.antt =====
-- A virtual funding objective of Alice, who proposes the guarantee to her ledger.
use go_nitro.Base.{ℕ, ◌+ℤ◌, ◌-ℤ◌, ◌≡◌, ◌^◌, ◌+◌, refl, false, some, none, [], ◌∷◌, pos, ok, sort}
use go_nitro.State.Data.{State, fixed_part, equal_pointers}
use go_nitro.State.Data
use go_nitro.State.Signed
use go_nitro.State.Signed.{SignedState, has_signature_for_participant, has_all_signatures}
use go_nitro.State.Signature.{split_signature}
use go_nitro.State.Signing.{address_from_secret_key, sign_ethereum_message, message_digest}
use go_nitro.State.Hashing
use go_nitro.State.Hashing.{validate, channel_id, state_channel_id, encode, hash}
use go_nitro.Outcome.Exit
use go_nitro.Outcome.Allocation.{clone_all}
use go_nitro.Types.Destination.{is_external, bytes}
use go_nitro.Types.Funds
use go_nitro.Channel.{Channel, pre_fund_state, pre_fund_signed_by_me, pre_fund_complete}
use go_nitro.Channel.Updates
use go_nitro.Channel.Updates.{new}
use go_nitro.Consensus.Guarantee.{guarantee_as_allocation}
use go_nitro.Consensus.LedgerOutcome.{as_outcome, includes}
use go_nitro.Consensus.LedgerOutcome
use go_nitro.Consensus.Proposal.{SignedProposal, new_add_proposal}
use go_nitro.Consensus.Vars.{handle_proposal, as_state}
use go_nitro.Consensus.Vars
use go_nitro.Consensus.Channel.{
  ConsensusChannel, latest_proposed_vars, sign, candidate, is_leader, follower, is_proposed,
  channel_includes,
}
use go_nitro.Consensus.Updates.{propose}
use go_nitro.Consensus.Support.{clone_channel}
use go_nitro.Protocols.{approved, no_effects, merge_effects, stop}
use go_nitro.Protocols.Messages.{create_signed_proposal_message}
use go_nitro.Protocols.VirtualFund.{Objective, clone, is_alice, is_bob, funding_complete}
use go_nitro.Protocols.VirtualFund.Ledgers.{
  Connection, GuaranteeInfo, funded, expected_proposal, update_ledger_with_guarantee,
}
use go_nitro.Protocols.VirtualFund.Crank.{Cranked, crank, waiting_for_complete_funding}
use go_nitro.Protocols.VirtualFund.Safety.{Stage, Early, LedgersMove, crank-Funding}
use go_nitro.Protocols.VirtualFund.History.{cranks, here, next, Life-LedgersMove}
use go_nitro.Tests.Data.{toy, toy-CurveLaws, leader_key, signature_of}
use go_nitro.Tests.Consensus.{start}

abbrev state_of : ℕ → State
state_of turn = record {
  chain_id = some (pos 9001);
  participants = 11 ∷ 22 ∷ 44 ∷ [];
  channel_nonce = some (pos 7);
  app_definition = 0;
  challenge_duration = some (pos 60);
  app_data = [];
  outcome = [];
  turn_num = turn;
  is_final = false;
}

abbrev v : Channel
v = record {
  id = 2 ^ 255 + 3;
  my_index = 0;
  on_chain_funding = [];
  fp = fixed_part (state_of 0);
  signed_state_for_turn_num =
      (
        0,
        record {
          state = state_of 0;
          sigs = (0, signature_of 11) ∷ (1, signature_of 22) ∷ (2, signature_of 44) ∷ [];
        },
      )
      ∷ (1, record { state = state_of 1; sigs = [] })
      ∷ [];
  latest_supported_state_turn_num = 0;
}

abbrev info : GuaranteeInfo
info = record {
  left = 1;
  right = 2;
  left_amount = (0, pos 20) ∷ [];
  right_amount = (0, pos 10) ∷ [];
  guarantee_destination = 2 ^ 255 + 3;
}

abbrev connection : ConsensusChannel → Connection
connection c = record { channel = c; guarantee_info = info }

abbrev alice : Objective
alice = record {
  status = approved;
  v = v;
  to_my_left = none;
  to_my_right = some (connection (start 0));
  n = 1;
  my_role = 0;
  a0 = (0, pos 20) ∷ [];
  b0 = (0, pos 10) ∷ [];
}

abbrev proposed : SignedProposal
proposed = record {
  signature = signature_of 11;
  proposal =
      new_add_proposal (start 0).id
        (record { amount = some (pos 30); target = 2 ^ 255 + 3; left = 1; right = 2 })
        (some (pos 20));
  turn_num = 1;
}

abbrev asked : Cranked
asked =
    stop
      (record alice {
        to_my_right = some (connection (record (start 0) { proposal_queue = proposed ∷ [] }));
      })
      (record no_effects {
        messages_to_send = create_signed_proposal_message 22 (proposed ∷ []) ∷ [];
      })
      waiting_for_complete_funding

crank_run : crank toy leader_key alice ≡ ok asked
unfolding crank clone Updates.clone Data.clone pre_fund_state new validate channel_id is_external
    state_channel_id Signed.clone pre_fund_signed_by_me has_signature_for_participant
    pre_fund_complete has_all_signatures Funds.clone ◌+ℤ◌ ◌-ℤ◌ Exit.clone clone_all is_alice is_bob
    funding_complete clone_channel funded update_ledger_with_guarantee is_proposed channel_includes
    includes latest_proposed_vars handle_proposal candidate LedgerOutcome.clone sign
    address_from_secret_key as_state as_outcome Hashing.sign hash encode sign_ethereum_message
    message_digest split_signature propose follower is_leader expected_proposal new_add_proposal
    create_signed_proposal_message sort bytes fixed_part Vars.clone Funds.add
    guarantee_as_allocation merge_effects
crank_run = refl

crank-Funding_example :
    Stage toy toy-CurveLaws leader_key alice (Early toy toy-CurveLaws leader_key alice) asked
crank-Funding_example = crank-Funding toy toy-CurveLaws leader_key alice refl asked crank_run

Life-LedgersMove_example : LedgersMove toy toy-CurveLaws leader_key alice asked.objective
Life-LedgersMove_example = Life-LedgersMove toy toy-CurveLaws leader_key alice asked.objective (
    next alice asked.objective asked.objective (cranks alice asked crank_run)
      (here asked.objective))
