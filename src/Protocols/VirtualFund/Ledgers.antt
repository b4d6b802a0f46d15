-- ===== src/Protocols/VirtualFund/Ledgers.antt =====
-- protocols/virtualfund/virtualfund.go: `Connection`, a ledger channel with the guarantee that it is
-- to give to the virtual channel.
use go_nitro.Base.{
  Bool, false, not, Option, none, some, List, [], ◌∷◌, ◌==◌, if◌then◌else◌, ℤ, is_panic, Result, ok,
  err, fail_if, panicked, ◌>>=◌, ◌>>◌, incorrect_channel_id, nil_connection, not_leader,
}
use go_nitro.Types.Destination.{Destination, Bytes}
use go_nitro.Types.Funds.{Funds}
use go_nitro.Types.Funds
use go_nitro.State.Library.{Library}
use go_nitro.Consensus.Guarantee.{Guarantee}
use go_nitro.Consensus.Proposal.{Proposal, SignedProposal, new_add_proposal}
use go_nitro.Consensus.Channel.{
  ConsensusChannel, channel_includes, is_leader, leader, follower, is_proposed, is_proposed_next,
}
use go_nitro.Consensus.Updates.{receive, propose, sign_next_proposal}
use go_nitro.Protocols.{SideEffects, no_effects}
use go_nitro.Protocols.Messages.{create_signed_proposal_message}

pub record GuaranteeInfo : Type 0 where
  pub left : Destination
  pub right : Destination
  pub left_amount : Funds
  pub right_amount : Funds
  pub guarantee_destination : Destination

pub record Connection : Type 0 where
  pub channel : ConsensusChannel
  pub guarantee_info : GuaranteeInfo

-- The first amount that a loop over the funds meets, nil if there is none.
abbrev pub first_amount : Funds → Option ℤ
first_amount [] = none
first_amount ((asset, amount) ∷ rest) = some amount

-- `getExpectedGuarantee`
unfoldable pub expected_guarantee : Connection → Guarantee
expected_guarantee c = record {
  amount =
      first_amount (Funds.add c.guarantee_info.left_amount (c.guarantee_info.right_amount ∷ []));
  target = c.guarantee_info.guarantee_destination;
  left = c.guarantee_info.left;
  right = c.guarantee_info.right;
}

-- `Connection.Funded`
unfoldable pub funded : Connection → Bool
unfolding expected_guarantee
funded c = channel_includes c.channel (expected_guarantee c)

-- `expectedProposal`
unfoldable pub expected_proposal : Connection → Proposal
unfolding expected_guarantee
expected_proposal c =
    new_add_proposal c.channel.id (expected_guarantee c) (first_amount c.guarantee_info.left_amount)

-- The next proposal to process, once one is signed.
abbrev pub next_proposals : List SignedProposal → List Proposal
next_proposals [] = []
next_proposals (sp ∷ rest) = sp.proposal ∷ []

-- The second result of `IsProposedNext` is dropped, and goes with false.
abbrev pub unless_failed : Result Bool → Result Bool
unless_failed (ok b) = ok b
unless_failed (err e) = if is_panic e then err panicked else ok false

module _ (lib : Library) where
  -- `insertGuaranteeInfo`, which checks that the metadata can be encoded.
  unfoldable pub insert_guarantee_info :
      Funds → Funds → Destination → Destination → Destination → Result GuaranteeInfo
  insert_guarantee_info a0 b0 v_id left right = do
    encoded ← lib.pack_guarantee_metadata (record { left = left; right = right })
    ok (record {
      left = left;
      right = right;
      left_amount = a0;
      right_amount = b0;
      guarantee_destination = v_id;
    })

  -- `handleProposal`: the error that `Receive` returns is dropped, whichever it is.
  unfoldable pub handle_proposal : Option Connection → SignedProposal → Result Connection
  handle_proposal none sp = err nil_connection
  handle_proposal (some c) sp = do
    fail_if (not (sp.proposal.ledger_id == c.channel.id)) incorrect_channel_id
    elim (receive lib c.channel sp) [
      | ok channel ↦ ok (record c { channel = channel })
      | err e ↦ if is_panic e then err panicked else ok c
    ]

  -- `proposeLedgerUpdate`: the effects, and the ledger afterwards.
  unfoldable pub propose_ledger_update :
      Connection → Bytes → Result (SideEffects × ConsensusChannel)
  propose_ledger_update c key = do
    fail_if (not (is_leader c.channel)) not_leader
    (sp, ledger) ← propose lib c.channel (expected_proposal c) key
    recipient ← follower ledger
    ok (
      record no_effects {
        messages_to_send = create_signed_proposal_message recipient ledger.proposal_queue ∷ [];
      },
      ledger,
    )

  -- `acceptLedgerUpdate`
  unfoldable pub accept_ledger_update : Connection → Bytes → Result (SideEffects × ConsensusChannel)
  accept_ledger_update c key = do
    (sp, ledger) ← sign_next_proposal lib c.channel (expected_proposal c) key
    recipient ← leader ledger
    ok (
      record no_effects {
        messages_to_send = create_signed_proposal_message recipient (sp ∷ []) ∷ [];
        proposals_to_process = next_proposals ledger.proposal_queue;
      },
      ledger,
    )

  -- `updateLedgerWithGuarantee`
  unfoldable pub update_ledger_with_guarantee :
      Connection → Bytes → Result (SideEffects × ConsensusChannel)
  unfolding propose_ledger_update accept_ledger_update
  update_ledger_with_guarantee c key = do
    let g = expected_guarantee c
    proposed ← is_proposed c.channel g
    let accepting = do
      next ← unless_failed (is_proposed_next c.channel g)
      if next then accept_ledger_update c key else ok (no_effects, c.channel)
    if is_leader c.channel
        then if proposed then ok (no_effects, c.channel) else propose_ledger_update c key
        else accepting
