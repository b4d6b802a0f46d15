-- ===== src/Engine.antt =====
-- client/engine/engine.go: what the engine does with an event: the objective that it concerns is read
-- or made, updated, cranked, stored, and its effects are executed.
pub mod Objectives
pub mod Progress
pub mod Admission
pub mod Handling
use go_nitro.Base.{
  Bool, true, false, Option, none, some, List, [], ◌∷◌, ◌++◌, if◌then◌else◌, Error, Result, ok, err,
  fail_if, panicked, ◌>>=◌, ◌>>◌, no_such_objective, unhandled_chain_event, blocked, not_empty,
}
use go_nitro.Types.Destination.{Address, Destination}
use go_nitro.State.Library.{Library}
use go_nitro.State.Signed.{SignedState}
use go_nitro.Consensus.Proposal.{Proposal, SignedProposal}
use go_nitro.Protocols.{
  ObjectiveId, ObjectiveStatus, unapproved, completed, SideEffects, Message, ChainTransaction,
  ChainEvent, deposited, allocation_updated, concluded, zero_signed_proposal, direct_defund,
}
use go_nitro.Protocols.Messages.{
  ObjectivePayload, signed_states, signed_proposals, proposal_objective_id,
}
use go_nitro.Protocols.DirectFund
use go_nitro.Protocols.DirectDefund
use go_nitro.Protocols.VirtualFund
use go_nitro.Protocols.VirtualDefund
use go_nitro.Channel.{zero_signed_state}
use go_nitro.Store.{
  MemStore, Objective, of_direct_fund, of_direct_defund, of_virtual_fund, of_virtual_defund,
  status_of, set_objective, get_objective_by_id, get_objective_by_channel_id,
  release_channel_from_ownership, owns_channel, set_consensus_channel, destroy_channel,
  destroy_consensus_channel, get_consensus_channel, get_consensus_channel_by_id, get_channel_by_id,
  get_channels_by_participant,
}
use go_nitro.Engine.Objectives.{
  Cranked, crank, approve, reject, update, update_with_chain_event,
  construct_objective_from_message, Request, request_virtual_fund, request_virtual_defund,
  request_direct_fund, request_direct_defund, requested,
}

-- The store, and what was sent to peers and to the chain, oldest first.
pub record Engine : Type 0 where
  pub store : MemStore
  pub sent : List Message
  pub submitted : List ChainTransaction

pub record ObjectiveChangeEvent : Type 0 where
  pub completed_objectives : List Objective
  pub failed_objectives : List ObjectiveId

abbrev pub no_change : ObjectiveChangeEvent
no_change = record { completed_objectives = []; failed_objectives = [] }

-- `ChannelID`
abbrev pub event_channel : ChainEvent → Destination
event_channel (deposited channel block asset amount held) = channel
event_channel (allocation_updated channel block asset amount) = channel
event_channel (concluded channel block) = channel

abbrev pub is_unapproved : ObjectiveStatus → Bool
is_unapproved unapproved = true
is_unapproved _ = false

abbrev pub is_completed : ObjectiveStatus → Bool
is_completed completed = true
is_completed _ = false

-- `PermissivePolicy.ShouldApprove`
unfoldable pub permissive : Objective → Bool
permissive o = is_unapproved (status_of o)

-- `executeSideEffects`; no channel is ever made for the proposals, and a send to it blocks.
unfoldable pub execute_side_effects : Engine → SideEffects → Result Engine
execute_side_effects e effects =
    let executed : Engine = record e {
      sent = e.sent ++ effects.messages_to_send;
      submitted = e.submitted ++ effects.transactions_to_submit;
    } in
    elim effects.proposals_to_process [ [] ↦ ok executed | p ∷ ps ↦ err blocked ]

abbrev pub unless_failed : Option Error → Result (Unit {0})
unless_failed none = ok tt
unless_failed (some e) = err e

-- The channel of a direct defunding objective that was just approved.
unfoldable pub destroy_if_direct_defund : MemStore → Objective → MemStore
unfolding destroy_consensus_channel
destroy_if_direct_defund ms (of_direct_defund o) = destroy_consensus_channel ms o.c.id
destroy_if_direct_defund ms _ = ms

module _ (lib : Library) where
  -- `spawnConsensusChannelIfDirectFundObjective`
  unfoldable pub spawn_consensus_channel : MemStore → Objective → Result MemStore
  unfolding set_consensus_channel destroy_channel
  spawn_consensus_channel ms (of_direct_fund o) = do
    c ← DirectFund.create_consensus_channel lib o
    ok (destroy_channel (set_consensus_channel ms c) c.id)
  spawn_consensus_channel ms _ = ok ms

  -- The part of `attemptProgress` for a crank that waits for nothing, and for one that waits.
  unfoldable pub settle : MemStore → Cranked → Result (MemStore × ObjectiveChangeEvent)
  unfolding spawn_consensus_channel release_channel_from_ownership owns_channel
  settle ms r =
      let settled = (do
        owns ← owns_channel lib r.objective
        ms' ← spawn_consensus_channel (release_channel_from_ownership ms owns) r.objective
        ok (ms', record no_change { completed_objectives = r.objective ∷ [] })) in
      if r.waiting then ok (ms, no_change) else settled

  -- `attemptProgress`
  unfoldable pub attempt_progress : Engine → Objective → Result (Engine × ObjectiveChangeEvent)
  unfolding settle execute_side_effects
  attempt_progress e o = do
    r ← crank lib e.store.key o
    unless_failed r.failure
    (stored, failure) ← set_objective lib e.store r.objective
    unless_failed failure
    (ms, change) ← settle stored r
    e' ← execute_side_effects (record e { store = ms }) r.effects
    ok (e', change)

  -- `getOrCreateObjective`: the store, and the objective.
  unfoldable pub get_or_create_objective :
      MemStore → ObjectiveId → SignedState → Result (MemStore × Objective)
  get_or_create_objective ms id ss =
      let created = (do
        o ← construct_objective_from_message lib ms id ss
        (ms', failure) ← set_objective lib ms o
        unless_failed failure
        ok (ms', o)) in
      elim (get_objective_by_id ms id) [
        | ok o ↦ ok (ms, o)
        | err no_such_objective ↦ created
        | err e ↦ err e
      ]

  -- `handleProposal`
  unfoldable pub handle_proposal : Engine → Proposal → Result (Engine × ObjectiveChangeEvent)
  unfolding attempt_progress
  handle_proposal e p = do
    o ← get_objective_by_id e.store (proposal_objective_id p)
    attempt_progress e o

  -- `handleChainEvent`
  unfoldable pub handle_chain_event : Engine → ChainEvent → Result (Engine × ObjectiveChangeEvent)
  unfolding attempt_progress
  handle_chain_event e event =
      let handled : Objective → Result (Engine × ObjectiveChangeEvent) =
        λ o. (do u ← update_with_chain_event lib o event; attempt_progress e u) in
      elim (get_objective_by_channel_id e.store (event_channel event)) [
        | none ↦ ok (e, no_change)
        | some o ↦ handled o
      ]

  -- The store once the objective of a request is made: a ledger that is being defunded is destroyed.
  abbrev pub governed : MemStore → Request → MemStore
  governed ms (request_direct_defund channel) = destroy_consensus_channel ms channel
  governed ms _ = ms

  -- `handleAPIEvent`, for a request.
  unfoldable pub handle_api_event : Engine → Request → Result (Engine × ObjectiveChangeEvent)
  unfolding attempt_progress destroy_consensus_channel
  handle_api_event e request = do
    o ← requested lib e.store request
    attempt_progress (record e { store = governed e.store request }) o

  -- The objectives that a request names as failed.
  abbrev failed_request : Request → ObjectiveChangeEvent
  failed_request (request_direct_defund channel) = record no_change {
    failed_objectives = record { prefix = direct_defund; channel = channel } ∷ [];
  }
  failed_request _ = no_change

  -- The case of `Run` for a request: a ledger that is not empty is reported, and the engine goes on.
  unfoldable pub run_api_event : Engine → Request → Result (Engine × ObjectiveChangeEvent)
  unfolding handle_api_event
  run_api_event e request = elim (handle_api_event e request) [
    | ok r ↦ ok r
    | err not_empty ↦ ok (e, failed_request request)
    | err x ↦ err x
  ]

  module _ (should_approve : Objective → Bool) where
    -- The policy on an unapproved objective: the engine, the objective, and whether it is rejected.
    unfoldable pub admit : Engine → Objective → Result (Engine × Objective × Bool)
    admit e o =
        let approving = (do
          a ← approve lib o
          ok (record e { store = destroy_if_direct_defund e.store a }, a, false)) in
        let rejecting = (do
          r ← reject lib o
          (ms, failure) ← set_objective lib e.store r
          unless_failed failure
          ok (record e { store = ms }, r, true)) in
        if is_unapproved (status_of o)
        then (if should_approve o then approving else rejecting)
        else ok (e, o, false)

    -- An update with an event, unless the objective is completed.
    unfoldable pub progress_unless_completed :
        Engine
        → Objective
        → ObjectiveId
        → SignedState
        → SignedProposal
        → Result (Engine × ObjectiveChangeEvent)
    unfolding attempt_progress
    progress_unless_completed e o id ss sp =
        let progressed = (do u ← update lib o id ss sp; attempt_progress e u) in
        if is_completed (status_of o) then ok (e, no_change) else progressed

    -- One signed state of a message: the engine, the change, and whether the handler returns.
    unfoldable pub take_state :
        Engine → ObjectivePayload SignedState → Result (Engine × ObjectiveChangeEvent × Bool)
    unfolding get_or_create_objective admit progress_unless_completed
    take_state e entry = do
      (ms, o) ← get_or_create_objective e.store entry.objective_id entry.payload
      (e', o', rejected) ← admit (record e { store = ms }) o
      let progressed = (do
        (e'', change) ←
            progress_unless_completed e' o' entry.objective_id entry.payload zero_signed_proposal
        ok (e'', change, false))
      if rejected
          then ok (e', record no_change { completed_objectives = o' ∷ [] }, true)
          else progressed

    -- The changes of one entry after those of the earlier ones.
    abbrev pub and_then : ObjectiveChangeEvent → ObjectiveChangeEvent → ObjectiveChangeEvent
    and_then all change = record all {
      completed_objectives = all.completed_objectives ++ change.completed_objectives;
    }

    -- The loop over the signed states, from the changes so far.
    unfoldable pub take_states :
        Engine
        → ObjectiveChangeEvent
        → List (ObjectivePayload SignedState)
        → Result (Engine × ObjectiveChangeEvent × Bool)
    unfolding take_state
    take_states e all [] = ok (e, all, false)
    take_states e all (entry ∷ entries) = do
      (e', change, returned) ← take_state e entry
      let rest = take_states e' (and_then all change) entries
      if returned then ok (e', and_then all change, true) else rest

    -- The loop over the signed proposals.
    unfoldable pub take_proposals :
        Engine
        → ObjectiveChangeEvent
        → List (ObjectivePayload SignedProposal)
        → Result (Engine × ObjectiveChangeEvent)
    unfolding progress_unless_completed
    take_proposals e all [] = ok (e, all)
    take_proposals e all (entry ∷ entries) = do
      o ← get_objective_by_id e.store entry.objective_id
      (e', change) ←
          progress_unless_completed e o entry.objective_id zero_signed_state entry.payload
      take_proposals e' (and_then all change) entries

    -- `handleMessage`
    unfoldable pub handle_message : Engine → Message → Result (Engine × ObjectiveChangeEvent)
    unfolding take_states take_proposals
    handle_message e message = do
      states ← signed_states lib message
      (e', all, returned) ← take_states e no_change states
      let proposed = (do proposals ← signed_proposals message; take_proposals e' all proposals)
      if returned then ok (e', all) else proposed
