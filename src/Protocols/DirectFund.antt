-- ===== src/Protocols/DirectFund.antt =====
-- protocols/directfund/directfund.go: funding a channel on chain. A method returns a changed copy;
-- what the engine looks up is a parameter of the functions that use it.
pub mod Crank
pub mod Safety
pub mod Ledger
pub mod History
use go_nitro.Base.{
  ℕ, zero, suc, Bool, true, false, ◌&&◌, not, Option, none, some, List, [], ◌∷◌, length, ◌==◌, ltb,
  ltb_ℤ, if◌then◌else◌, ℤ, pos, ◌-ℤ◌, Map, lookup, insert, Error, Result, ok, err, fail_if, deref,
  or_fail, panicked, is_panic, ◌>>=◌, ◌>>◌, mismatched_ids, unhandled_event, not_prefund,
  final_state, not_a_participant, channel_exists, not_complete, several_assets,
}
use go_nitro.Types.Destination.{Address, Destination, Bytes, address_to_destination}
use go_nitro.Types.Funds.{Funds}
use go_nitro.Types.Funds
use go_nitro.Outcome.Exit.{Exit, total_allocated, total_allocated_for, deposit_safety_threshold}
use go_nitro.State.Data.{State, FixedPart, fixed_part}
use go_nitro.State.Library.{Library}
use go_nitro.State.Hashing.{validate}
use go_nitro.State.Signed.{SignedState, get_participant_signature}
use go_nitro.Channel.{Channel, post_fund_complete, signed_post_fund_state}
use go_nitro.Channel.Updates.{new, add_signed_state}
use go_nitro.Channel.Updates
use go_nitro.Consensus.LedgerOutcome.{LedgerOutcome, from_exit}
use go_nitro.Consensus.Channel.{
  ConsensusChannel, new_consensus_channel, leader_index, follower_index,
}
use go_nitro.Protocols.{
  ObjectiveId, direct_fund, equal_ids, ObjectiveStatus, unapproved, approved, rejected, ChainEvent,
  deposited,
}

pub record Objective : Type 0 where
  pub status : ObjectiveStatus
  pub c : Channel
  pub my_deposit_safety_threshold : Funds
  pub my_deposit_target : Funds
  pub fully_funded_threshold : Funds
  pub latest_block_number : ℕ
  pub transaction_submitted : Bool

pub record ObjectiveRequest : Type 0 where
  pub counter_party : Address
  pub app_definition : Address
  pub app_data : Bytes
  pub challenge_duration : Option ℤ
  pub outcome : Exit
  pub nonce : ℤ

-- `Objective.Id`
unfoldable pub id_of : Objective → ObjectiveId
id_of o = record { prefix = direct_fund; channel = o.c.id }

-- The loop that finds my index among the participants.
unfoldable pub find_index : Address → ℕ → List Address → Option ℕ
find_index me i [] = none
find_index me i (p ∷ ps) = let rest = find_index me (suc i) ps in if p == me then some i else rest

-- `fundingComplete`: over the thresholds that are left.
unfoldable pub thresholds_met : Funds → Funds → Bool
thresholds_met holdings [] = true
thresholds_met holdings ((asset, threshold) ∷ rest) =
    let others = thresholds_met holdings rest in
    elim (lookup asset holdings) [
      | none ↦ false
      | some held ↦ if ltb_ℤ held threshold then false else others
    ]

unfoldable pub funding_complete : Objective → Bool
unfolding thresholds_met
funding_complete o = thresholds_met o.c.on_chain_funding o.fully_funded_threshold

-- `safeToDeposit`: an asset without a holding is a panic.
unfoldable pub safe_from : Funds → Funds → Result Bool
safe_from holdings [] = ok true
safe_from holdings ((asset, threshold) ∷ rest) = do
  held ← deref (lookup asset holdings)
  let others = safe_from holdings rest
  if ltb_ℤ held threshold then ok false else others

unfoldable pub safe_to_deposit : Objective → Result Bool
unfolding safe_from
safe_to_deposit o = safe_from o.c.on_chain_funding o.my_deposit_safety_threshold

-- `amountToDeposit`
unfoldable pub amounts_from : Funds → Funds → Funds → Result Funds
amounts_from holdings deposits [] = ok deposits
amounts_from holdings deposits ((asset, target) ∷ rest) = do
  held ← deref (lookup asset holdings)
  amounts_from holdings (insert asset (target -ℤ held) deposits) rest

unfoldable pub amount_to_deposit : Objective → Result Funds
unfolding amounts_from
amount_to_deposit o = amounts_from o.c.on_chain_funding [] o.my_deposit_target

-- Some channel of the list has two participants.
any_two_party : List Channel → Bool
any_two_party [] = false
any_two_party (c ∷ cs) = if length c.fp.participants == 2 then true else any_two_party cs

module _ (lib : Library) where
  -- `ConstructFromState`
  unfoldable pub construct_from_state : Bool → State → Address → Result Objective
  unfolding find_index
  construct_from_state pre_approve s my_address = do
    validate lib (fixed_part s)
    fail_if (not (s.turn_num == 0)) not_prefund
    fail_if s.is_final final_state
    my_index ← or_fail (find_index my_address 0 s.participants) not_a_participant
    c ← new lib s my_index
    let mine = address_to_destination my_address
    let safety = deposit_safety_threshold mine s.outcome
    ok (record {
      status = if pre_approve then approved else unapproved;
      c = c;
      my_deposit_safety_threshold = safety;
      my_deposit_target = Funds.add safety (total_allocated_for mine s.outcome ∷ []);
      fully_funded_threshold = total_allocated s.outcome;
      latest_block_number = 0;
      transaction_submitted = false;
    })

  -- `channelsExistWithCounterparty`; the store's lookups are parameters.
  unfoldable pub channels_exist :
      (Address → List Channel) → (Address → Option ConsensusChannel) → Address → Bool
  unfolding any_two_party
  channels_exist get_channels get_ledger counter_party =
      if any_two_party (get_channels counter_party)
      then true
      else (elim (get_ledger counter_party) [ none ↦ false | some _ ↦ true ])

  -- `NewObjective`
  unfoldable pub new_objective :
      ObjectiveRequest
      → Bool
      → Address
      → (Address → List Channel)
      → (Address → Option ConsensusChannel)
      → Result Objective
  unfolding construct_from_state channels_exist
  new_objective request pre_approve my_address get_channels get_ledger = do
    objective ←
        construct_from_state pre_approve
          (record {
            chain_id = some (pos 1337);
            participants = my_address ∷ request.counter_party ∷ [];
            channel_nonce = some request.nonce;
            app_definition = request.app_definition;
            challenge_duration = request.challenge_duration;
            app_data = request.app_data;
            outcome = request.outcome;
            turn_num = 0;
            is_final = false;
          })
          my_address
    fail_if (channels_exist get_channels get_ledger request.counter_party) channel_exists
    ok objective

  -- `Objective.clone`
  unfoldable pub clone : Objective → Result Objective
  clone o = do
    c ← Updates.clone lib o.c
    ok (record {
      status = o.status;
      c = c;
      my_deposit_safety_threshold = Funds.clone o.my_deposit_safety_threshold;
      my_deposit_target = Funds.clone o.my_deposit_target;
      fully_funded_threshold = Funds.clone o.fully_funded_threshold;
      latest_block_number = o.latest_block_number;
      transaction_submitted = o.transaction_submitted;
    })

  -- `Objective.Approve` and `Objective.Reject`
  unfoldable pub approve : Objective → Result Objective
  unfolding clone
  approve o = do updated ← clone o; ok (record updated { status = approved })

  unfoldable pub reject : Objective → Result Objective
  unfolding clone
  reject o = do updated ← clone o; ok (record updated { status = rejected })

  -- `Objective.Update` with the event's identifier and signed state; what `AddSignedState` returns
  -- is dropped.
  unfoldable pub update : Objective → ObjectiveId → SignedState → Result Objective
  unfolding clone id_of
  update o id ss = do
    fail_if (not (equal_ids (id_of o) id)) mismatched_ids
    updated ← clone o
    (added, c) ← add_signed_state lib updated.c ss
    ok (record updated { c = c })

  -- `Objective.UpdateWithChainEvent`
  unfoldable pub update_with_chain_event : Objective → ChainEvent → Result Objective
  unfolding clone
  update_with_chain_event o event = do
    updated ← clone o
    elim event [
      | deposited channel block asset amount_deposited now_held ↦
          let newer = record updated {
            c = record (updated.c) {
              on_chain_funding = insert asset now_held updated.c.on_chain_funding;
            };
            latest_block_number = block;
          } in
          ok (if ltb updated.latest_block_number block then newer else updated)
      | _ ↦ err unhandled_event
    ]

  -- `Outcome[0]` as a ledger outcome.
  unfoldable pub only_exit : Exit → Result LedgerOutcome
  only_exit [] = err panicked
  only_exit (asset_exit ∷ rest) = from_exit lib.unpack_guarantee_metadata asset_exit

  -- `CreateConsensusChannel`
  unfoldable pub create_consensus_channel : Objective → Result ConsensusChannel
  create_consensus_channel o = do
    let ledger = o.c
    fail_if (not (post_fund_complete ledger)) not_complete
    let signed = signed_post_fund_state ledger
    leader_sig ← get_participant_signature signed leader_index
    follower_sig ← get_participant_signature signed follower_index
    fail_if (not (length signed.state.outcome == 1)) several_assets
    outcome ← only_exit signed.state.outcome
    let my_index = if ledger.my_index == leader_index then leader_index else follower_index
    con ←
        new_consensus_channel lib ledger.fp my_index signed.state.turn_num outcome leader_sig
          follower_sig
    ok (record con { on_chain_funding = Funds.clone ledger.on_chain_funding })
