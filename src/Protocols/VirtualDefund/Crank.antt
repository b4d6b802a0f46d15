-- ===== src/Protocols/VirtualDefund/Crank.antt =====
-- protocols/virtualdefund/virtualdefund.go: `Crank`, one stage to a function. It works on a copy that
-- shares the ledgers: where an error returns the objective as it was, its ledgers have moved.
use go_nitro.Base.{
  Bool, false, not, Option, some, [], ◌∷◌, get_elem?, set, if◌then◌else◌, Result, ok, err, deref,
  not_approved, ◌>>=◌,
}
use go_nitro.Types.Destination.{Bytes}
use go_nitro.State.Signature.{Signature}
use go_nitro.State.Library.{Library}
use go_nitro.State.Hashing
use go_nitro.Consensus.Proposal.{Proposal, new_remove_proposal}
use go_nitro.Consensus.Channel.{
  ConsensusChannel, is_leader, leader, follower, has_removal_been_proposed,
  has_removal_been_proposed_next,
}
use go_nitro.Consensus.Updates.{propose, sign_next_proposal}
use go_nitro.Protocols.{
  CrankResult, stop, fail, SideEffects, no_effects, merge_effects, completed, is_approved,
  create_signed_state_messages,
}
use go_nitro.Protocols.Messages.{create_signed_proposal_message}
use go_nitro.Protocols.VirtualFund.Ledgers.{next_proposals}
use go_nitro.Protocols.VirtualDefund.{
  Objective, clone, id_of, v_id, is_alice, is_bob, final_outcome, final_state, signed_final_state,
  signed_by_me, fully_signed, is_defunded,
}

pub data WaitingFor : Type 0 where
  waiting_for_complete_final waiting_for_complete_ledger_defunding waiting_for_nothing : WaitingFor

abbrev pub Cranked : Type 0
Cranked = CrankResult Objective WaitingFor

module _ (lib : Library) (key : Bytes) where
  -- `ledgerProposal`
  unfoldable pub ledger_proposal : Objective → ConsensusChannel → Result Proposal
  ledger_proposal o ledger = do
    outcome ← final_outcome o
    left ← deref (get_elem? outcome.allocations 0)
    id ← v_id lib o
    ok (new_remove_proposal ledger.id id (some left.amount))

  -- The proposal of a leader.
  unfoldable pub propose_removal :
      Objective → ConsensusChannel → Result (SideEffects × ConsensusChannel)
  unfolding ledger_proposal
  propose_removal o ledger = do
    proposal ← ledger_proposal o ledger
    (sp, moved) ← propose lib ledger proposal key
    recipient ← follower moved
    ok (
      record no_effects {
        messages_to_send = create_signed_proposal_message recipient moved.proposal_queue ∷ [];
      },
      moved,
    )

  -- The signature of a follower.
  unfoldable pub accept_removal :
      Objective → ConsensusChannel → Result (SideEffects × ConsensusChannel)
  unfolding ledger_proposal
  accept_removal o ledger = do
    proposal ← ledger_proposal o ledger
    (sp, moved) ← sign_next_proposal lib ledger proposal key
    recipient ← leader moved
    ok (
      record no_effects {
        messages_to_send = create_signed_proposal_message recipient (sp ∷ []) ∷ [];
        proposals_to_process = next_proposals moved.proposal_queue;
      },
      moved,
    )

  -- `updateLedgerToRemoveGuarantee`
  unfoldable pub update_ledger_to_remove_guarantee :
      Objective → ConsensusChannel → Result (SideEffects × ConsensusChannel)
  unfolding propose_removal accept_removal
  update_ledger_to_remove_guarantee o ledger = do
    id ← v_id lib o
    if is_leader ledger
        then (if has_removal_been_proposed ledger id
            then ok (no_effects, ledger)
            else propose_removal o ledger)
        else if has_removal_been_proposed_next ledger id
        then accept_removal o ledger
        else ok (no_effects, ledger)

  -- An update of one ledger, if the role has it and it still has the guarantee: the effects with its
  -- own, and the ledger afterwards.
  unfoldable pub update_side :
      Bool
      → Objective
      → Option ConsensusChannel
      → SideEffects
      → Result (SideEffects × Option ConsensusChannel)
  unfolding update_ledger_to_remove_guarantee
  update_side absent o ledger effects =
      let updated = (do
        defunded ← is_defunded lib o ledger
        let changed = (do
          l ← deref ledger
          (more, moved) ← update_ledger_to_remove_guarantee o l
          ok (merge_effects effects more, some moved))
        if defunded then ok (effects, ledger) else changed) in
      if absent then ok (effects, ledger) else updated

  -- The end: both ledgers are defunded, or not yet.
  unfoldable pub finish : Objective → SideEffects → Result Cranked
  finish o effects = do
    left ← is_defunded lib o o.to_my_left
    right ← is_defunded lib o o.to_my_right
    let both = if left then right else false
    ok (
        if not both
        then stop o effects waiting_for_complete_ledger_defunding
        else stop (record o { status = completed }) effects waiting_for_nothing)

  -- The right ledger; `before` is the objective that an error returns, with the ledgers as they are.
  unfoldable pub crank_right : Objective → Objective → SideEffects → Result Cranked
  unfolding update_side finish
  crank_right before o effects = elim (update_side (is_bob o) o o.to_my_right effects) [
    | ok (effects', right) ↦ finish (record o { to_my_right = right }) effects'
    | err e ↦ fail (record before { to_my_left = o.to_my_left }) waiting_for_nothing e
  ]

  -- The left ledger.
  unfoldable pub crank_left : Objective → Objective → SideEffects → Result Cranked
  unfolding update_side crank_right
  crank_left before o effects = elim (update_side (is_alice o) o o.to_my_left effects) [
    | ok (effects', left) ↦ crank_right before (record o { to_my_left = left }) effects'
    | err e ↦ fail before waiting_for_nothing e
  ]

  -- What follows the signature on the final state.
  unfoldable pub crank_signed : Objective → Objective → SideEffects → Result Cranked
  unfolding crank_left
  crank_signed before o effects =
      if not (fully_signed o)
      then ok (stop o effects waiting_for_complete_final)
      else crank_left before o effects

  -- The signature is stored, and sent with the others.
  unfoldable pub crank_announce : Objective → Objective → Signature → Result Cranked
  unfolding crank_signed
  crank_announce before o sig =
      let signed : Objective = record o { signatures = set o.signatures o.my_role sig } in
      elim (signed_final_state lib signed) [
        | err e ↦ fail signed waiting_for_nothing e
        | ok ss ↦ do
          id ← id_of lib signed
          crank_signed before signed (record no_effects {
            messages_to_send = create_signed_state_messages id ss signed.my_role;
          })
      ]

  -- The signature on the final state.
  unfoldable pub crank_sign : Objective → Objective → Result Cranked
  unfolding crank_announce
  crank_sign before o = do
    s ← final_state before
    elim (Hashing.sign lib s key) [
      | err e ↦ fail o waiting_for_nothing e
      | ok sig ↦ crank_announce before o sig
    ]

  -- `Objective.Crank`
  unfoldable pub crank : Objective → Result Cranked
  unfolding crank_sign
  crank o = do
    updated ← clone o
    let approved_crank = (do
      mine ← signed_by_me updated
      if mine then crank_signed o updated no_effects else crank_sign o updated)
    if not (is_approved updated.status)
        then fail updated waiting_for_nothing not_approved
        else approved_crank
