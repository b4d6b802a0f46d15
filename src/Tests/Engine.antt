-- ===== src/Tests/Engine.antt =====
-- The engine makes progress with an objective, and refuses one.
use go_nitro.Protocols
use go_nitro.Consensus.Vars
use go_nitro.Consensus.Updates
use go_nitro.Consensus.Proposal
use go_nitro.Base
use go_nitro.State.Signed
use go_nitro.Consensus.LedgerOutcome
use go_nitro.Consensus.Channel
use go_nitro.State.Signing
use go_nitro.State.Signature
use go_nitro.Protocols.VirtualDefund.Crank
use go_nitro.Store
use go_nitro.State.Hashing
use go_nitro.State.Data
use go_nitro.Outcome.Exit
use go_nitro.Outcome.Allocation
use go_nitro.Engine.Objectives
use go_nitro.Base.{◌≡◌, ◌^◌, ◌+◌, refl, none, some, [], ◌∷◌, ok, true, false, Bool}
use go_nitro.Protocols.{unapproved, rejected}
use go_nitro.Protocols.Messages.{ObjectivePayload}
use go_nitro.State.Signed.{SignedState}
use go_nitro.Channel.{zero_signed_state}
use go_nitro.Protocols.VirtualDefund
use go_nitro.Store.{MemStore, Objective, of_virtual_defund}
use go_nitro.Store.Serde.{marshal_virtual_defund, ledger_with_id}
use go_nitro.Engine.{Engine, ObjectiveChangeEvent, no_change, attempt_progress, take_state}
use go_nitro.Engine.Progress.{Progress, attempt_progress-Progress}
use go_nitro.Engine.Handling.{Handled, take_state-Handled}
use go_nitro.Consensus.Serde.{marshal_consensus_channel}
use go_nitro.Tests.Data.{toy}
use go_nitro.Tests.VirtualDefund.{alice, ledger, asked}
use go_nitro.Tests.Store.{empty, after, id}

abbrev idle : MemStore → Engine
idle ms = record { store = ms; sent = []; submitted = [] }

abbrev asked_engine : Engine
asked_engine = record {
  store = record after {
    virtual_defunds = (2 ^ 255 + 3, marshal_virtual_defund asked.objective) ∷ [];
    consensus_channels =
        (
          2 ^ 255 + 2,
          marshal_consensus_channel (record ledger {
            proposal_queue = (elim asked.objective.to_my_right [
              | none ↦ []
              | some l ↦ l.proposal_queue
            ]);
          }),
        )
        ∷ [];
  };
  sent = asked.effects.messages_to_send;
  submitted = [];
}

progress_run :
    attempt_progress toy (idle empty) (of_virtual_defund alice) ≡ ok (asked_engine, no_change)
unfolding attempt_progress Objectives.crank Crank.crank VirtualDefund.clone Data.clone_fixed_part
    VirtualDefund.signed_by_me VirtualDefund.is_zero Signature.equal VirtualDefund.final_state
    Exit.clone_single Allocation.clone_all Hashing.sign Hashing.hash Hashing.encode
    Hashing.state_channel_id Hashing.channel_id Signing.sign_ethereum_message
    Signature.split_signature VirtualDefund.signed_final_state Signed.add_signature
    Hashing.recover_signer Signing.recover_ethereum_message_signer Signed.new_signed_state
    Data.state_from_fixed_and_variable_part Signature.join_signature VirtualDefund.id_of
    VirtualDefund.fully_signed VirtualDefund.is_alice VirtualDefund.is_bob VirtualDefund.is_defunded
    Channel.channel_includes_target LedgerOutcome.includes_target Channel.is_leader
    Channel.has_removal_been_proposed Updates.propose Proposal.new_remove_proposal
    Channel.latest_proposed_vars LedgerOutcome.clone Vars.handle_proposal Base.◌-ℤ◌ Channel.sign
    Signing.address_from_secret_key Vars.as_state LedgerOutcome.as_outcome Base.sort
    Channel.follower Store.set_objective Protocols.merge_effects Base.◌+ℤ◌
progress_run = refl

attempt_progress-Progress_example :
    Progress toy (idle empty) asked_engine (of_virtual_defund alice) no_change
attempt_progress-Progress_example =
    attempt_progress-Progress toy (idle empty) asked_engine (of_virtual_defund alice) no_change
      progress_run

abbrev proposed : VirtualDefund.Objective
proposed = record alice { status = unapproved }

abbrev refused : VirtualDefund.Objective
refused = record alice { status = rejected; to_my_left = some (ledger_with_id 0) }

abbrev stored : MemStore
stored = record after {
  virtual_defunds = (2 ^ 255 + 3, marshal_virtual_defund proposed) ∷ [];
  channel_to_objective = [];
}

abbrev stored_refused : MemStore
stored_refused = record stored {
  virtual_defunds = (2 ^ 255 + 3, marshal_virtual_defund refused) ∷ [];
  consensus_channels =
      (2 ^ 255 + 2, marshal_consensus_channel ledger)
      ∷ (0, marshal_consensus_channel (ledger_with_id 0))
      ∷ [];
}

abbrev entry : ObjectivePayload SignedState
entry = record { payload = zero_signed_state; objective_id = id }

abbrev refuse_all : Objective → Bool
refuse_all o = false

abbrev report : ObjectiveChangeEvent
report = record no_change { completed_objectives = of_virtual_defund refused ∷ [] }

take_run : take_state toy refuse_all (idle stored) entry ≡ ok (idle stored_refused, report, true)
unfolding take_state Store.get_objective_by_id marshal_virtual_defund Store.status_of
    Objectives.reject VirtualDefund.reject Data.clone_fixed_part Store.set_objective
    Hashing.channel_id Exit.clone_single Allocation.clone_all
take_run = refl

take_state-Handled_example :
    Handled toy refuse_all (idle stored) (idle stored_refused) entry report true
take_state-Handled_example =
    take_state-Handled toy refuse_all (idle stored) (idle stored_refused) entry report true take_run
