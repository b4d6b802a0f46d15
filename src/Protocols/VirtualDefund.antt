-- ===== src/Protocols/VirtualDefund.antt =====
-- protocols/virtualdefund/virtualdefund.go: closing a virtual channel, and taking its guarantees out
-- of the ledgers. A method returns a changed copy, which shares its ledgers with the receiver.
pub mod Crank
pub mod Received
pub mod Signed
pub mod Safety
pub mod Defunding
pub mod History
pub mod Payment
use go_nitro.Base.{
  ℕ, suc, Bool, true, false, ◌&&◌, not, Option, none, some, List, [], ◌∷◌, length, get_elem?, set,
  ◌==◌, ltb, if◌then◌else◌, ℤ, pos, ◌+ℤ◌, ◌-ℤ◌, Error, is_panic, Result, ok, err, fail_if, deref,
  or_fail, panicked, ◌>>=◌, ◌>>◌, mismatched_ids, not_a_participant, not_found, zero_ledger,
  unknown_ledger, wrong_channel, no_final_state, different_signature, wrong_index, wrong_signer,
  invalid_turn_num,
}
use go_nitro.Types.Destination.{Address, Destination, Bytes}
use go_nitro.Outcome.Allocation.{Allocations}
use go_nitro.Outcome.Exit.{SingleAssetExit, clone_single}
use go_nitro.State.Signature
use go_nitro.State.Signature.{Signature, zero_signature}
use go_nitro.State.Data.{
  State, FixedPart, fixed_part, clone_fixed_part, state_from_fixed_and_variable_part,
}
use go_nitro.State.Library.{Library}
use go_nitro.State.Hashing.{validate, channel_id, state_channel_id, recover_signer}
use go_nitro.State.Signed.{SignedState, new_signed_state, add_signature, signatures}
use go_nitro.Channel.{Channel, pre_fund_state, post_fund_state}
use go_nitro.Consensus.Proposal.{SignedProposal, target_of}
use go_nitro.Consensus.Channel.{ConsensusChannel, channel_includes_target}
use go_nitro.Consensus.Updates.{receive}
use go_nitro.Protocols.{
  ObjectiveId, virtual_defund, equal_ids, ObjectiveStatus, unapproved, approved, rejected,
}

-- `Signatures` has three entries, in the order of the participants.
pub record Objective : Type 0 where
  pub status : ObjectiveStatus
  pub initial_outcome : SingleAssetExit
  pub paid_to_bob : ℤ
  pub v_fixed : FixedPart
  pub signatures : List Signature
  pub to_my_left : Option ConsensusChannel
  pub to_my_right : Option ConsensusChannel
  pub my_role : ℕ

pub record ObjectiveRequest : Type 0 where
  pub channel_id : Destination
  pub paid_to_bob : ℤ

abbrev pub final_turn_num : ℕ
final_turn_num = 2

-- `isZero`
unfoldable pub is_zero : Signature → Bool
is_zero sig = Signature.equal sig zero_signature

-- The allocations of the first two participants, after the payment.
unfoldable pub pay : Allocations → ℤ → Result Allocations
pay [] paid = err panicked
pay (a ∷ []) paid = err panicked
pay (a ∷ b ∷ rest) paid =
    ok (record a { amount = a.amount -ℤ paid } ∷ record b { amount = b.amount +ℤ paid } ∷ rest)

-- `finalOutcome`
unfoldable pub final_outcome : Objective → Result SingleAssetExit
unfolding pay
final_outcome o = do
  let cloned = clone_single o.initial_outcome
  allocations ← pay cloned.allocations o.paid_to_bob
  ok (record cloned { allocations = allocations })

-- `finalState`
unfoldable pub final_state : Objective → Result State
unfolding final_outcome
final_state o = do
  outcome ← final_outcome o
  ok (
      state_from_fixed_and_variable_part o.v_fixed (record {
        app_data = [];
        outcome = outcome ∷ [];
        turn_num = final_turn_num;
        is_final = true;
      }))

-- `Objective.isAlice` and `Objective.isBob`
unfoldable pub is_alice : Objective → Bool
is_alice o = o.my_role == 0

unfoldable pub is_bob : Objective → Bool
is_bob o = o.my_role == 2

-- `signedBy` and `signedByMe`
unfoldable pub signed_by : Objective → ℕ → Result Bool
signed_by o i = do sig ← deref (get_elem? o.signatures i); ok (not (is_zero sig))

unfoldable pub signed_by_me : Objective → Result Bool
unfolding signed_by
signed_by_me o = signed_by o o.my_role

-- `fullySigned`
unfoldable pub all_signed : List Signature → Bool
all_signed [] = true
all_signed (sig ∷ sigs) = if is_zero sig then false else all_signed sigs

unfoldable pub fully_signed : Objective → Bool
unfolding all_signed
fully_signed o = all_signed o.signatures

-- `calculatePaidToBob`. Where the channel is not found, the zero channel that the store gives has no
-- prefund state, and its empty outcome is read only after the test.
unfoldable pub calculate_paid_to_bob : State → Option Channel → Result ℤ
calculate_paid_to_bob proposed found = do
  fail_if (not proposed.is_final) no_final_state
  c ← or_fail found not_found
  initial ← deref (get_elem? (pre_fund_state c).outcome 0)
  initial_bob ← deref (get_elem? initial.allocations 1)
  final ← deref (get_elem? proposed.outcome 0)
  final_bob ← deref (get_elem? final.allocations 1)
  ok (final_bob.amount -ℤ initial_bob.amount)

-- The ledgers on the two sides of the participant.
unfoldable pub find_ledgers :
    FixedPart
    → Address
    → (Address → Option ConsensusChannel)
    → Result (Option ConsensusChannel × Option ConsensusChannel)
find_ledgers fp my_address get_ledger = do
  alice ← deref (get_elem? fp.participants 0)
  intermediary ← deref (get_elem? fp.participants 1)
  bob ← deref (get_elem? fp.participants 2)
  let as_alice = (do right ← or_fail (get_ledger intermediary) not_found; ok (none, some right))
  let as_intermediary = (do
    left ← or_fail (get_ledger alice) not_found
    right ← or_fail (get_ledger bob) not_found
    ok (some left, some right))
  let as_bob = (do left ← or_fail (get_ledger intermediary) not_found; ok (some left, none))
  if my_address == alice
      then as_alice
      else if my_address == intermediary
      then as_intermediary
      else if my_address == bob
      then as_bob
      else err not_a_participant

-- `NewObjective`; the store's lookups are parameters.
unfoldable pub new_objective :
    ObjectiveRequest
    → Bool
    → Address
    → (Destination → Option Channel)
    → (Address → Option ConsensusChannel)
    → Result Objective
unfolding find_ledgers
new_objective request pre_approve my_address get_channel get_ledger = do
  v ← or_fail (get_channel request.channel_id) not_found
  initial_outcome ← deref (get_elem? (post_fund_state v).outcome 0)
  (left, right) ← find_ledgers v.fp my_address get_ledger
  ok (record {
    status = if pre_approve then approved else unapproved;
    initial_outcome = initial_outcome;
    paid_to_bob = request.paid_to_bob;
    v_fixed = v.fp;
    signatures = zero_signature ∷ zero_signature ∷ zero_signature ∷ [];
    to_my_left = left;
    to_my_right = right;
    my_role = v.my_index;
  })

-- `Objective.clone`; the ledgers are shared.
unfoldable pub clone : Objective → Result Objective
clone o = do
  v_fixed ← clone_fixed_part o.v_fixed
  ok (record o { v_fixed = v_fixed; initial_outcome = clone_single o.initial_outcome })

-- `Objective.Approve` and `Objective.Reject`
unfoldable pub approve : Objective → Result Objective
unfolding clone
approve o = do updated ← clone o; ok (record updated { status = approved })

unfoldable pub reject : Objective → Result Objective
unfolding clone
reject o = do updated ← clone o; ok (record updated { status = rejected })

-- The identifier of a ledger, zero if there is none.
abbrev pub ledger_id : Option ConsensusChannel → Destination
ledger_id none = 0
ledger_id (some c) = c.id

-- A stale or future proposal is ignored.
abbrev pub ignore_turn : ConsensusChannel → Result ConsensusChannel → Result ConsensusChannel
ignore_turn before (ok c) = ok c
ignore_turn before (err invalid_turn_num) = ok before
ignore_turn before (err e) = err e

module _ (lib : Library) where
  -- `ConstructObjectiveFromState`
  unfoldable pub construct_objective_from_state :
      State
      → Bool
      → Address
      → (Destination → Option Channel)
      → (Address → Option ConsensusChannel)
      → Result Objective
  unfolding calculate_paid_to_bob new_objective
  construct_objective_from_state s pre_approve my_address get_channel get_ledger = do
    validate lib (fixed_part s)
    id ← state_channel_id lib s
    paid ← calculate_paid_to_bob s (get_channel id)
    new_objective (record { channel_id = id; paid_to_bob = paid }) pre_approve my_address
        get_channel get_ledger

  -- `Objective.VId` and `Objective.OwnsChannel`
  unfoldable pub v_id : Objective → Result Destination
  v_id o = channel_id lib o.v_fixed

  -- `Objective.Id`
  unfoldable pub id_of : Objective → Result ObjectiveId
  unfolding v_id
  id_of o = do id ← v_id o; ok (record { prefix = virtual_defund; channel = id })

  -- The loop of `signedFinalState`.
  add_signatures : SignedState → List Signature → Result SignedState
  add_signatures signed [] = ok signed
  add_signatures signed (sig ∷ sigs) =
      let skip = add_signatures signed sigs in
      let more = (do signed' ← add_signature lib signed sig; add_signatures signed' sigs) in
      if is_zero sig then skip else more

  -- `signedFinalState`
  unfoldable pub signed_final_state : Objective → Result SignedState
  unfolding add_signatures
  signed_final_state o = do s ← final_state o; add_signatures (new_signed_state s) o.signatures

  -- `isLeftDefunded` and `isRightDefunded`
  unfoldable pub is_defunded : Objective → Option ConsensusChannel → Result Bool
  unfolding v_id
  is_defunded o none = ok true
  is_defunded o (some ledger) = do id ← v_id o; ok (not (channel_includes_target ledger id))

  -- `validateSignature`, which gives an error exactly where it gives false.
  unfoldable pub validate_signature : Objective → Signature → ℕ → Result (Unit {0})
  validate_signature o sig i = do
    fail_if (ltb 2 i) wrong_index
    s ← final_state o
    signer ← recover_signer lib s sig
    participant ← deref (get_elem? o.v_fixed.participants i)
    fail_if (not (signer == participant)) wrong_signer

  -- The loop of `Update` over the signatures, from the position `i` on.
  unfoldable pub update_signatures :
      Objective → List Signature → ℕ → List Signature → Result Objective
  update_signatures updated incoming i [] = ok updated
  update_signatures updated incoming i (existing ∷ rest) = do
    sig ← deref (get_elem? incoming i)
    let kept = update_signatures updated incoming (suc i) rest
    let stored = (do
      validate_signature updated sig i
      update_signatures (record updated { signatures = set updated.signatures i sig }) incoming
          (suc i) rest)
    if is_zero sig
        then kept
        else if not (is_zero existing)
        then (if Signature.equal existing sig then kept else err different_signature)
        else stored

  -- The part of `Update` that takes a signed state.
  unfoldable pub update_state : Objective → Objective → SignedState → Result Objective
  unfolding update_signatures v_id
  update_state o updated ss =
      let taken = (do
        incoming ← state_channel_id lib ss.state
        id ← v_id updated
        fail_if (not (incoming == id)) wrong_channel
        update_signatures updated (signatures ss) 0 o.signatures) in
      if length (signatures ss) == 0 then ok updated else taken

  -- The part of `Update` that takes a signed proposal.
  unfoldable pub update_proposal : Objective → Objective → SignedProposal → Result Objective
  unfolding v_id
  update_proposal o updated sp = do
    v ← v_id o
    let id = sp.proposal.ledger_id
    let on_left = (do
      ledger ← deref updated.to_my_left
      moved ← ignore_turn ledger (receive lib ledger sp)
      ok (record updated { to_my_left = some moved }))
    let on_right = (do
      ledger ← deref updated.to_my_right
      moved ← ignore_turn ledger (receive lib ledger sp)
      ok (record updated { to_my_right = some moved }))
    let handled =
        if id == 0
        then err zero_ledger
        else if id == ledger_id o.to_my_left
        then on_left
        else if id == ledger_id o.to_my_right
        then on_right
        else err unknown_ledger
    if target_of sp.proposal == v then handled else ok updated

  -- `Objective.Update` with the event's identifier, signed state and signed proposal.
  unfoldable pub update : Objective → ObjectiveId → SignedState → SignedProposal → Result Objective
  unfolding id_of update_state update_proposal
  update o id ss sp = do
    my_id ← id_of o
    fail_if (not (equal_ids my_id id)) mismatched_ids
    updated ← clone o
    signed ← update_state o updated ss
    update_proposal o signed sp
