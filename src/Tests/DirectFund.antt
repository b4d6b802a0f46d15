-- ===== src/Tests/DirectFund.antt =====
-- A direct funding objective: its deposit, and the ledger channel that it ends in.
use go_nitro.Base.{
  List, ℕ, ◌+ℤ◌, ◌-ℤ◌, ◌≡◌, ◌^◌, ◌+◌, refl, true, false, some, [], ◌∷◌, pos, ok, sort,
}
use go_nitro.State.Data.{State, fixed_part}
use go_nitro.State.Data
use go_nitro.Outcome.Exit
use go_nitro.Outcome.Allocation.{clone_all}
use go_nitro.State.Signed
use go_nitro.State.Hashing
use go_nitro.State.Hashing.{validate, channel_id, state_channel_id, hash, encode}
use go_nitro.State.Signing.{recover_ethereum_message_signer, message_digest}
use go_nitro.State.Signature.{join_signature}
use go_nitro.Consensus.LedgerOutcome
use go_nitro.Consensus.LedgerOutcome.{from_exit, as_outcome}
use go_nitro.Consensus.Vars.{as_state}
use go_nitro.Types.Destination.{is_external, bytes}
use go_nitro.Channel.Updates
use go_nitro.Channel.Updates.{new}
use go_nitro.State.Signed.{
  SignedState, has_signature_for_participant, has_all_signatures, get_participant_signature,
}
use go_nitro.Types.Funds
use go_nitro.Channel.{
  Channel, pre_fund_state, pre_fund_signed_by_me, pre_fund_complete, post_fund_complete,
  signed_post_fund_state,
}
use go_nitro.Consensus.Channel.{ConsensusChannel, new_consensus_channel, recover_vars_signer}
use go_nitro.Consensus.Updates.Invariant.{IsValid}
use go_nitro.Protocols.{
  stop, approved, deposit_transaction, no_effects, ChainTransaction, ChainEvent, deposited,
}
use go_nitro.Protocols.DirectFund.{
  Objective, clone, amount_to_deposit, safe_to_deposit, funding_complete, create_consensus_channel,
  only_exit, update_with_chain_event,
}
use go_nitro.Protocols.DirectFund.Crank.{Cranked, crank, waiting_for_complete_funding}
use go_nitro.Protocols.DirectFund.Safety.{Stage, crank-Stage}
use go_nitro.Protocols.Lives.{AtMostOne, here, next}
use go_nitro.Protocols.DirectFund.History.{
  Call, IsDue, submitted, cranks, observes, Life-OneDeposit,
}
use go_nitro.Protocols.DirectFund.Ledger.{create_consensus_channel-IsValid}
use go_nitro.Tests.Data.{toy, leader_key, signature_of}

abbrev pub state_of : ℕ → State
state_of turn = record {
  chain_id = some (pos 1337);
  participants = 11 ∷ 22 ∷ [];
  channel_nonce = some (pos 7);
  app_definition = 0;
  challenge_duration = some (pos 60);
  app_data = [];
  outcome =
      record {
        asset = 0;
        metadata = [];
        allocations =
            record { destination = 11; amount = pos 5; allocation_type = 0; metadata = [] }
            ∷ record { destination = 22; amount = pos 5; allocation_type = 0; metadata = [] }
            ∷ [];
      }
      ∷ [];
  turn_num = turn;
  is_final = false;
}

abbrev pub signed_at : ℕ → SignedState
signed_at turn = record {
  state = state_of turn;
  sigs = (0, signature_of 11) ∷ (1, signature_of 22) ∷ [];
}

abbrev pub unsigned_at : ℕ → SignedState
unsigned_at turn = record { state = state_of turn; sigs = [] }

abbrev pub channel : Channel
channel = record {
  id = 2 ^ 255 + 2;
  my_index = 0;
  on_chain_funding = (0, pos 0) ∷ [];
  fp = fixed_part (state_of 0);
  signed_state_for_turn_num = (0, signed_at 0) ∷ (1, unsigned_at 1) ∷ [];
  latest_supported_state_turn_num = 0;
}

abbrev funding : Objective
funding = record {
  status = approved;
  c = channel;
  my_deposit_safety_threshold = (0, pos 0) ∷ [];
  my_deposit_target = (0, pos 5) ∷ [];
  fully_funded_threshold = (0, pos 10) ∷ [];
  latest_block_number = 0;
  transaction_submitted = false;
}

abbrev deposited_crank : Cranked
deposited_crank =
    stop (record funding { transaction_submitted = true })
      (record no_effects {
        transactions_to_submit = deposit_transaction (2 ^ 255 + 2) ((0, pos 5) ∷ []) ∷ [];
      })
      waiting_for_complete_funding

crank_run : crank toy leader_key funding ≡ ok deposited_crank
unfolding crank clone Updates.clone Data.clone pre_fund_state new validate channel_id is_external
    state_channel_id Signed.clone pre_fund_signed_by_me has_signature_for_participant
    pre_fund_complete has_all_signatures amount_to_deposit Funds.clone safe_to_deposit
    funding_complete Funds.is_non_zero ◌+ℤ◌ ◌-ℤ◌ Exit.clone clone_all
crank_run = refl

crank-Stage_example : Stage funding deposited_crank
crank-Stage_example = crank-Stage toy leader_key funding deposited_crank refl crank_run

abbrev funded : Objective
funded = record funding {
  c = record channel {
    on_chain_funding = (0, pos 10) ∷ [];
    signed_state_for_turn_num = (0, signed_at 0) ∷ (1, signed_at 1) ∷ [];
    latest_supported_state_turn_num = 1;
  };
}

abbrev ledger : ConsensusChannel
ledger = record {
  my_index = 0;
  fp = fixed_part (state_of 0);
  id = 2 ^ 255 + 2;
  on_chain_funding = (0, pos 10) ∷ [];
  current = record {
    vars = record {
      turn_num = 1;
      outcome = record {
        asset_address = 0;
        leader = record { destination = 11; amount = pos 5 };
        follower = record { destination = 22; amount = pos 5 };
        guarantees = [];
      };
    };
    leader_signature = signature_of 11;
    follower_signature = signature_of 22;
  };
  proposal_queue = [];
}

create_run : create_consensus_channel toy funded ≡ ok ledger
unfolding create_consensus_channel post_fund_complete has_all_signatures signed_post_fund_state
    get_participant_signature only_exit from_exit new_consensus_channel validate channel_id
    LedgerOutcome.clone recover_vars_signer as_state as_outcome Hashing.recover_signer hash encode
    state_channel_id fixed_part recover_ethereum_message_signer message_digest join_signature
    is_external bytes sort Funds.clone ◌+ℤ◌
create_run = refl

create_consensus_channel-IsValid_example :
    IsValid toy ledger × (ledger.on_chain_funding ≡ Funds.clone funded.c.on_chain_funding)
create_consensus_channel-IsValid_example =
    create_consensus_channel-IsValid toy funded ledger create_run

-- The deposit arrives on chain.
abbrev arrived : ChainEvent
arrived = deposited (2 ^ 255 + 2) 9 0 (pos 5) (pos 5)

abbrev observed : Objective
observed = record funding {
  c = record channel { on_chain_funding = (0, pos 5) ∷ [] };
  latest_block_number = 9;
  transaction_submitted = true;
}

observe_run : update_with_chain_event toy deposited_crank.objective arrived ≡ ok observed
unfolding update_with_chain_event clone Updates.clone Data.clone pre_fund_state new validate
    channel_id is_external state_channel_id Signed.clone Funds.clone ◌+ℤ◌ Exit.clone clone_all
observe_run = refl

abbrev transactions : List ChainTransaction
transactions = deposit_transaction (2 ^ 255 + 2) ((0, pos 5) ∷ []) ∷ []

Life-OneDeposit_example :
    AtMostOne submitted (Call toy leader_key) (IsDue toy leader_key) funding transactions observed
Life-OneDeposit_example = Life-OneDeposit toy leader_key funding transactions observed (
    next funding deposited_crank.objective observed transactions []
      (cranks funding deposited_crank crank_run)
      (next deposited_crank.objective observed observed [] []
        (observes deposited_crank.objective observed arrived observe_run) (here observed)))
