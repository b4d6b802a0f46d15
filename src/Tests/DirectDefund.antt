-- ===== src/Tests/DirectDefund.antt =====
-- A direct defunding objective: its withdrawal and its end.
use go_nitro.Base.{List, ◌+ℤ◌, ◌-ℤ◌, ◌≡◌, ◌^◌, ◌+◌, refl, true, false, [], ◌∷◌, pos, ok}
use go_nitro.State.Data.{State, fixed_part}
use go_nitro.State.Data
use go_nitro.Outcome.Exit
use go_nitro.Outcome.Allocation.{clone_all}
use go_nitro.State.Signed
use go_nitro.State.Hashing.{validate, channel_id, state_channel_id}
use go_nitro.Types.Destination.{is_external}
use go_nitro.Channel.Updates
use go_nitro.Channel.Updates.{new}
use go_nitro.State.Signed.{SignedState, has_signature_for_participant}
use go_nitro.Types.Funds
use go_nitro.Channel.{pre_fund_state, latest_signed_state, latest_supported_state}
use go_nitro.Protocols.{
  approved, withdraw_all_transaction, no_effects, ChainTransaction, ChainEvent, allocation_updated,
  stop,
}
use go_nitro.Protocols.DirectDefund.{Objective, clone, fully_withdrawn, update_with_chain_event}
use go_nitro.Protocols.DirectDefund.Crank.{Cranked, crank, waiting_for_withdraw}
use go_nitro.Protocols.DirectDefund.Safety.{Stage, crank-Defunding}
use go_nitro.Protocols.Lives.{AtMostOne, here, next}
use go_nitro.Protocols.DirectDefund.History.{
  Call, IsDue, submitted, cranks, observes, Life-OneWithdrawal,
}
use go_nitro.Tests.Data.{toy, leader_key, signature_of}
use go_nitro.Tests.DirectFund.{state_of, signed_at, unsigned_at, channel}

abbrev final : SignedState
final = record {
  state = record (state_of 2) { is_final = true };
  sigs = (0, signature_of 11) ∷ (1, signature_of 22) ∷ [];
}

abbrev closing : Objective
closing = record {
  status = approved;
  c = record channel {
    on_chain_funding = (0, pos 10) ∷ [];
    signed_state_for_turn_num = (0, signed_at 0) ∷ (1, unsigned_at 1) ∷ (2, final) ∷ [];
    latest_supported_state_turn_num = 2;
  };
  final_turn_num = 2;
  transaction_submitted = false;
}

abbrev transactions : List ChainTransaction
transactions = withdraw_all_transaction (2 ^ 255 + 2) final ∷ []

abbrev withdrawn : Cranked
withdrawn =
    stop (record closing { transaction_submitted = true })
      (record no_effects { transactions_to_submit = transactions }) waiting_for_withdraw

crank_run : crank toy leader_key closing ≡ ok withdrawn
unfolding crank clone Updates.clone Data.clone pre_fund_state new validate channel_id is_external
    state_channel_id Signed.clone has_signature_for_participant Funds.clone latest_signed_state
    latest_supported_state fully_withdrawn Funds.is_non_zero ◌+ℤ◌ ◌-ℤ◌ Exit.clone clone_all
crank_run = refl

crank-Defunding_example : Stage closing withdrawn
crank-Defunding_example = crank-Defunding toy leader_key closing withdrawn refl crank_run

abbrev paid : ChainEvent
paid = allocation_updated (2 ^ 255 + 2) 9 0 (pos 0)

abbrev emptied : Objective
emptied = record closing {
  c = record (closing.c) { on_chain_funding = (0, pos 0) ∷ [] };
  transaction_submitted = true;
}

observe_run : update_with_chain_event toy withdrawn.objective paid ≡ ok emptied
unfolding update_with_chain_event clone Updates.clone Data.clone pre_fund_state new validate
    channel_id is_external state_channel_id Signed.clone Funds.clone ◌+ℤ◌ Exit.clone clone_all
observe_run = refl

Life-OneWithdrawal_example :
    AtMostOne submitted (Call toy leader_key) (IsDue toy leader_key) closing transactions emptied
Life-OneWithdrawal_example = Life-OneWithdrawal toy leader_key closing transactions emptied (
    next closing withdrawn.objective emptied transactions [] (cranks closing withdrawn crank_run) (
      next withdrawn.objective emptied emptied [] []
        (observes withdrawn.objective emptied paid observe_run) (here emptied)))
