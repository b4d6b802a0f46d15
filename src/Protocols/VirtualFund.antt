-- ===== src/Protocols/VirtualFund.antt =====
-- protocols/virtualfund/virtualfund.go: funding a channel from two ledger channels. A method returns
-- a changed copy.
pub mod Ledgers
pub mod Crank
pub mod Invariant
pub mod Safety
pub mod History
use go_nitro.Base.{
  ℕ, suc, ◌+◌, ◌-◌, Bool, true, false, not, Option, none, some, List, [], ◌∷◌, length, get_elem?,
  ◌==◌, if◌then◌else◌, ℤ, pos, ◌+ℤ◌, insert, Result, ok, err, fail_if, deref, or_fail, panicked,
  ◌>>=◌, ◌>>◌, mismatched_ids, not_a_participant, not_found, zero_ledger, unknown_ledger,
  zero_channel, wrong_channel, wrong_allocation_order, missing_ledger, not_my_objective,
}
use go_nitro.Types.Destination.{Address, Destination, Bytes, address_to_destination}
use go_nitro.Types.Funds.{Funds, amount_of}
use go_nitro.Outcome.Exit.{Exit}
use go_nitro.State.Data.{State}
use go_nitro.State.Library.{Library}
use go_nitro.State.Hashing.{state_channel_id}
use go_nitro.State.Signed.{SignedState, signatures}
use go_nitro.Channel.{Channel}
use go_nitro.Channel.Updates.{new_single_hop_virtual_channel, add_signed_state}
use go_nitro.Channel.Updates
use go_nitro.Consensus.Proposal.{SignedProposal, target_of}
use go_nitro.Consensus.Channel.{ConsensusChannel}
use go_nitro.Consensus.Support.{clone_channel}
use go_nitro.Protocols.{
  ObjectiveId, virtual_fund, equal_ids, ObjectiveStatus, unapproved, approved, rejected,
}
use go_nitro.Protocols.VirtualFund.Ledgers.{
  Connection, insert_guarantee_info, handle_proposal, funded,
}

pub record Objective : Type 0 where
  pub status : ObjectiveStatus
  pub v : Channel
  pub to_my_left : Option Connection
  pub to_my_right : Option Connection
  pub n : ℕ
  pub my_role : ℕ
  pub a0 : Funds
  pub b0 : Funds

pub record ObjectiveRequest : Type 0 where
  pub intermediary : Address
  pub counter_party : Address
  pub app_definition : Address
  pub app_data : Bytes
  pub challenge_duration : Option ℤ
  pub outcome : Exit
  pub nonce : ℤ

-- `Objective.isAlice` and `Objective.isBob`
unfoldable pub is_alice : Objective → Bool
is_alice o = o.my_role == 0

unfoldable pub is_bob : Objective → Bool
is_bob o = o.my_role == o.n + 1

-- `Objective.Id`
unfoldable pub id_of : Objective → ObjectiveId
id_of o = record { prefix = virtual_fund; channel = o.v.id }

-- The loop that infers my role: the last participant with my address.
find_role : Address → Option ℕ → ℕ → List Address → Option ℕ
find_role me role i [] = role
find_role me role i (p ∷ ps) = find_role me (if p == me then some i else role) (suc i) ps

-- The loop that computes `a0` and `b0`, for participants with `n` intermediaries.
initial_balances : List Address → ℕ → Funds → Funds → Exit → Result (Funds × Funds)
initial_balances participants n a0 b0 [] = ok (a0, b0)
initial_balances participants n a0 b0 (e ∷ es) = do
  first ← deref (get_elem? e.allocations 0)
  alice ← deref (get_elem? participants 0)
  fail_if (not (first.destination == address_to_destination alice)) wrong_allocation_order
  second ← deref (get_elem? e.allocations 1)
  bob ← deref (get_elem? participants (n + 1))
  fail_if (not (second.destination == address_to_destination bob)) wrong_allocation_order
  initial_balances participants n (insert e.asset (amount_of e.asset a0 +ℤ first.amount) a0)
      (insert e.asset (amount_of e.asset b0 +ℤ second.amount) b0) es

-- `Funded` of a pointer that is followed.
abbrev pub connection_funded : Option Connection → Result Bool
connection_funded c = do c' ← deref c; ok (funded c')

-- `fundingComplete`; the right ledger is asked first, and the left one only if the right one funds.
unfoldable pub funding_complete : Objective → Result Bool
funding_complete o =
    let both = do
      right ← connection_funded o.to_my_right
      if right then connection_funded o.to_my_left else ok false
    in if is_alice o
      then connection_funded o.to_my_right
      else if is_bob o
      then connection_funded o.to_my_left
      else both

-- A copy of a connection, with a copy of its ledger.
unfoldable pub clone_connection : Option Connection → Result (Option Connection)
clone_connection none = ok none
clone_connection (some c) = do
  channel ← clone_channel c.channel
  ok (some (record { channel = channel; guarantee_info = c.guarantee_info }))

module _ (lib : Library) where
  -- The connection over a ledger between the participants at positions `i` and `i + 1`.
  connect : Option ConsensusChannel → Funds → Funds → Channel → ℕ → Result Connection
  connect ledger a0 b0 v i = do
    channel ← or_fail ledger missing_ledger
    left ← deref (get_elem? v.fp.participants i)
    right ← deref (get_elem? v.fp.participants (i + 1))
    info ←
        insert_guarantee_info lib a0 b0 v.id (address_to_destination left)
          (address_to_destination right)
    ok (record { channel = channel; guarantee_info = info })

  -- A connection that not every role has.
  connect_unless :
      Bool → Option ConsensusChannel → Funds → Funds → Channel → ℕ → Result (Option Connection)
  unfolding connect
  connect_unless absent ledger a0 b0 v i =
      let connected = (do c ← connect ledger a0 b0 v i; ok (some c)) in
      if absent then ok none else connected

  -- `constructFromState`
  unfoldable pub construct_from_state :
      Bool → State → Address → Option ConsensusChannel → Option ConsensusChannel → Result Objective
  unfolding find_role initial_balances connect_unless
  construct_from_state pre_approve s my_address left_ledger right_ledger = do
    my_role ← or_fail (find_role my_address none 0 s.participants) not_a_participant
    v ← new_single_hop_virtual_channel lib s my_role
    let n = length s.participants - 2
    (a0, b0) ← initial_balances s.participants n [] [] s.outcome
    left ← connect_unless (my_role == 0) left_ledger a0 b0 v (my_role - 1)
    right ← connect_unless (my_role == n + 1) right_ledger a0 b0 v my_role
    ok (record {
      status = if pre_approve then approved else unapproved;
      v = v;
      to_my_left = left;
      to_my_right = right;
      n = n;
      my_role = my_role;
      a0 = a0;
      b0 = b0;
    })

  -- `NewObjective`; the store's lookup is a parameter.
  unfoldable pub new_objective :
      ObjectiveRequest → Bool → Address → (Address → Option ConsensusChannel) → Result Objective
  unfolding construct_from_state
  new_objective request pre_approve my_address get_ledger = do
    right ← or_fail (get_ledger request.intermediary) not_found
    construct_from_state pre_approve
        (record {
          chain_id = some (pos 9001);
          participants = my_address ∷ request.intermediary ∷ request.counter_party ∷ [];
          channel_nonce = some request.nonce;
          app_definition = 0;
          challenge_duration = request.challenge_duration;
          app_data = request.app_data;
          outcome = request.outcome;
          turn_num = 0;
          is_final = false;
        })
        my_address none (some right)

  -- `ConstructObjectiveFromState`
  unfoldable pub construct_objective_from_state :
      State → Bool → Address → (Address → Option ConsensusChannel) → Result Objective
  unfolding construct_from_state
  construct_objective_from_state s pre_approve my_address get_ledger = do
    alice ← deref (get_elem? s.participants 0)
    intermediary ← deref (get_elem? s.participants 1)
    bob ← deref (get_elem? s.participants 2)
    let as_bob = do
      left ← or_fail (get_ledger intermediary) not_found
      construct_from_state pre_approve s my_address (some left) none
    let as_intermediary = do
      left ← or_fail (get_ledger alice) not_found
      right ← or_fail (get_ledger bob) not_found
      construct_from_state pre_approve s my_address (some left) (some right)
    if my_address == alice
        then err not_my_objective
        else if my_address == bob
        then as_bob
        else if my_address == intermediary
        then as_intermediary
        else err not_a_participant

  -- `Objective.clone`
  unfoldable pub clone : Objective → Result Objective
  unfolding clone_connection
  clone o = do
    v ← Updates.clone lib o.v
    left ← clone_connection o.to_my_left
    right ← clone_connection o.to_my_right
    ok (record o { v = v; to_my_left = left; to_my_right = right })

  -- `Objective.Approve` and `Objective.Reject`
  unfoldable pub approve : Objective → Result Objective
  unfolding clone
  approve o = do updated ← clone o; ok (record updated { status = approved })

  unfoldable pub reject : Objective → Result Objective
  unfolding clone
  reject o = do updated ← clone o; ok (record updated { status = rejected })

  -- The identifier of a ledger, zero for the role that has none on that side.
  abbrev pub ledger_id : Bool → Option Connection → Result Destination
  ledger_id absent c = let id = (do c' ← deref c; ok c'.channel.id) in if absent then ok 0 else id

  -- The part of `Update` that takes a signed proposal.
  unfoldable pub update_proposal : Objective → Objective → SignedProposal → Result Objective
  update_proposal o updated sp = do
    left_id ← ledger_id (is_alice o) o.to_my_left
    right_id ← ledger_id (is_bob o) o.to_my_right
    let id = sp.proposal.ledger_id
    let on_left = (do
      c ← handle_proposal lib updated.to_my_left sp
      ok (record updated { to_my_left = some c }))
    let on_right = (do
      c ← handle_proposal lib updated.to_my_right sp
      ok (record updated { to_my_right = some c }))
    let handled =
        if id == 0
        then err zero_ledger
        else if id == left_id
        then on_left
        else if id == right_id
        then on_right
        else err unknown_ledger
    if target_of sp.proposal == o.v.id then handled else ok updated

  -- The part of `Update` that takes a signed state; what `AddSignedState` returns is dropped.
  unfoldable pub update_state : Objective → Objective → SignedState → Result Objective
  update_state o updated ss =
      let added = do
        id ← state_channel_id lib ss.state
        fail_if (id == 0) zero_channel
        fail_if (not (id == o.v.id)) wrong_channel
        (done, v) ← add_signed_state lib updated.v ss
        ok (record updated { v = v })
      in if length (signatures ss) == 0 then ok updated else added

  -- `Objective.Update` with the event's identifier, signed proposal and signed state.
  unfoldable pub update : Objective → ObjectiveId → SignedProposal → SignedState → Result Objective
  unfolding clone update_proposal update_state id_of
  update o id sp ss = do
    fail_if (not (equal_ids (id_of o) id)) mismatched_ids
    updated ← clone o
    handled ← update_proposal o updated sp
    update_state o handled ss
