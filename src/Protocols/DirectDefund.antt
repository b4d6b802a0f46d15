-- ===== src/Protocols/DirectDefund.antt =====
-- protocols/directdefund/directdefund.go: closing a funded ledger channel and withdrawing from the
-- chain. A method returns a changed copy.
pub mod Crank
pub mod Safety
pub mod History
use go_nitro.Base.{
  ℕ, Bool, true, false, ◌&&◌, not, length, ◌==◌, if◌then◌else◌, insert, Result, ok, err, fail_if,
  ◌>>=◌, ◌>>◌, not_empty, update_in_progress, no_final_state, not_final, unexpected_turn,
  unsigned_event, mismatched_ids, unhandled_event,
}
use go_nitro.Types.Destination.{Destination}
use go_nitro.Types.Funds
use go_nitro.State.Data
use go_nitro.State.Data.{State, fixed_part}
use go_nitro.State.Library.{Library}
use go_nitro.State.Hashing.{validate, state_channel_id}
use go_nitro.State.Signed.{SignedState, signatures}
use go_nitro.Channel.{Channel, latest_signed_state, latest_supported_state, zero_signed_state}
use go_nitro.Channel.Updates.{new, add_signed_state}
use go_nitro.Channel.Updates
use go_nitro.Consensus.Vars.{as_state, next_turn}
use go_nitro.Consensus.Channel.{ConsensusChannel, channel_funding_targets}
use go_nitro.Consensus.Support.{supported_signed_state}
use go_nitro.Protocols.{
  ObjectiveId, direct_defund, equal_ids, ObjectiveStatus, unapproved, approved, rejected,
  ChainEvent, deposited, allocation_updated, concluded,
}

pub record Objective : Type 0 where
  pub status : ObjectiveStatus
  pub c : Channel
  pub final_turn_num : ℕ
  pub transaction_submitted : Bool

-- `isInConsensusOrFinalState`: its text of the error for a channel without states differs from the
-- one that `LatestSignedState` gives, which then goes on with the zero signed state.
unfoldable pub is_in_consensus_or_final_state : Channel → Result Bool
is_in_consensus_or_final_state c =
    let latest : SignedState = elim (latest_signed_state c) [
      | ok ss ↦ ss
      | err e ↦ zero_signed_state
    ] in
    let agreed = do supported ← latest_supported_state c; ok (Data.equal latest.state supported)
    in if latest.state.is_final then ok true else agreed

-- `Objective.Id`
unfoldable pub id_of : Objective → ObjectiveId
id_of o = record { prefix = direct_defund; channel = o.c.id }

-- `fullyWithdrawn`
unfoldable pub fully_withdrawn : Objective → Bool
fully_withdrawn o = not (Funds.is_non_zero o.c.on_chain_funding)

module _ (lib : Library) where
  -- `CreateChannelFromConsensusChannel`
  unfoldable pub create_channel_from_consensus_channel : ConsensusChannel → Result Channel
  create_channel_from_consensus_channel cc = do
    ss ← supported_signed_state lib cc
    s ← as_state cc.current.vars (fixed_part ss.state)
    c ← new lib s cc.my_index
    (added, c') ←
        add_signed_state lib (record c { on_chain_funding = Funds.clone cc.on_chain_funding }) ss
    ok c'

  -- `NewObjective`; the store's lookup is a parameter.
  unfoldable pub new_objective :
      Destination → Bool → (Destination → Result ConsensusChannel) → Result Objective
  unfolding create_channel_from_consensus_channel is_in_consensus_or_final_state
  new_objective channel_id pre_approve get_consensus_channel = do
    cc ← get_consensus_channel channel_id
    fail_if (not (length (channel_funding_targets cc) == 0)) not_empty
    c ← create_channel_from_consensus_channel cc
    can_create ← is_in_consensus_or_final_state c
    fail_if (not can_create) update_in_progress
    copy ← Updates.clone lib c
    latest ← latest_supported_state c
    ok (record {
      status = if pre_approve then approved else unapproved;
      c = copy;
      final_turn_num = if not latest.is_final then next_turn latest.turn_num else latest.turn_num;
      transaction_submitted = false;
    })

  -- `ConstructObjectiveFromState`
  unfoldable pub construct_objective_from_state :
      State → Bool → (Destination → Result ConsensusChannel) → Result Objective
  unfolding new_objective
  construct_objective_from_state s pre_approve get_consensus_channel = do
    fail_if (not s.is_final) no_final_state
    validate lib (fixed_part s)
    id ← state_channel_id lib s
    new_objective id pre_approve get_consensus_channel

  -- `Objective.clone`
  unfoldable pub clone : Objective → Result Objective
  clone o = do
    c ← Updates.clone lib o.c
    ok (record {
      status = o.status;
      c = c;
      final_turn_num = o.final_turn_num;
      transaction_submitted = o.transaction_submitted;
    })

  -- `Objective.Approve` and `Objective.Reject`
  unfoldable pub approve : Objective → Result Objective
  unfolding clone
  approve o = do updated ← clone o; ok (record updated { status = approved })

  unfoldable pub reject : Objective → Result Objective
  unfolding clone
  reject o = do updated ← clone o; ok (record updated { status = rejected })

  -- `Objective.Update`; what `AddSignedState` returns is dropped.
  unfoldable pub update : Objective → ObjectiveId → SignedState → Result Objective
  unfolding clone id_of
  update o id ss = do
    fail_if (not (equal_ids (id_of o) id)) mismatched_ids
    fail_if (length (signatures ss) == 0) unsigned_event
    fail_if (not ss.state.is_final) not_final
    fail_if (not (o.final_turn_num == ss.state.turn_num)) unexpected_turn
    updated ← clone o
    (added, c) ← add_signed_state lib updated.c ss
    ok (record updated { c = c })

  -- `Objective.UpdateWithChainEvent`
  unfoldable pub update_with_chain_event : Objective → ChainEvent → Result Objective
  unfolding clone
  update_with_chain_event o event = do
    updated ← clone o
    elim event [
      | allocation_updated channel block asset amount ↦ ok (record updated {
        c = record (updated.c) {
          on_chain_funding = insert asset amount updated.c.on_chain_funding;
        };
      })
      | concluded channel block ↦ ok updated
      | _ ↦ err unhandled_event
    ]
