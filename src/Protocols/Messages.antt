-- ===== src/Protocols/Messages.antt =====
-- protocols/messages.go: messages with signed proposals, and the payloads of a message in order.
use go_nitro.Base.{
  ℕ, Bool, true, false, ◌&&◌, ◌==◌, ltb, List, [], ◌∷◌, if◌then◌else◌, Result, ok, ◌>>=◌,
}
use go_nitro.Types.Destination.{Address, Destination}
use go_nitro.State.Library.{Library}
use go_nitro.State.Signed.{SignedState, sort_info}
use go_nitro.Channel.{zero_signed_state}
use go_nitro.Consensus.Proposal.{
  Proposal, SignedProposal, type_of, add_proposal, remove_proposal, is_zero_add, is_nil,
}
use go_nitro.Protocols.{ObjectiveId, virtual_fund, virtual_defund, MessagePayload, Message}

-- `getProposalObjectiveId`
unfoldable pub proposal_objective_id : Proposal → ObjectiveId
proposal_objective_id p = elim (type_of p) [
  | add_proposal ↦ record { prefix = virtual_fund; channel = p.to_add.guarantee.target }
  | remove_proposal ↦ record { prefix = virtual_defund; channel = p.to_remove.target }
]

proposal_payloads : List SignedProposal → List MessagePayload
unfolding proposal_objective_id
proposal_payloads [] = []
proposal_payloads (sp ∷ sps) =
    record {
      objective_id = proposal_objective_id sp.proposal;
      signed_state = zero_signed_state;
      signed_proposal = sp;
    }
    ∷ proposal_payloads sps

-- `CreateSignedProposalMessage`
unfoldable pub create_signed_proposal_message : Address → List SignedProposal → Message
unfolding proposal_payloads
create_signed_proposal_message recipient proposals = record {
  to = recipient;
  payloads = proposal_payloads proposals;
}

-- `messagePayload.hasProposal`: the proposal is not the zero `Proposal{}`.
unfoldable pub has_proposal : MessagePayload → Bool
has_proposal p =
    let q = p.signed_proposal.proposal in
    if q.ledger_id == 0
      && (is_zero_add q.to_add && (q.to_remove.target == 0 && is_nil q.to_remove.left_amount))
    then false
    else true

pub record ObjectivePayload {ℓ} (A : Type ℓ) : Type ℓ where
  pub payload : A
  pub objective_id : ObjectiveId

-- The order of `sortPayloads`: by channel, then by turn number.
abbrev pub before : ℕ × ℕ → ℕ × ℕ → Bool
before a b = if a.0 == b.0 then ltb a.1 b.1 else ltb a.0 b.0

module _ {ℓ} {A : Type ℓ} (info : A → Result (ℕ × ℕ)) where
  -- `sort.Slice`: its contract is a sorted rearrangement, which insertion meets. A comparison
  -- panics where `SortInfo` does; a list of one is not compared.
  payload_insert :
      ObjectivePayload A → List (ObjectivePayload A) → Result (List (ObjectivePayload A))
  payload_insert x [] = ok (x ∷ [])
  payload_insert x (y ∷ ys) = do
    i ← info y.payload
    j ← info x.payload
    let later = payload_insert x ys
    if before i j then (do rest ← later; ok (y ∷ rest)) else ok (x ∷ y ∷ ys)

  -- `sortPayloads`
  unfoldable pub sort_payloads : List (ObjectivePayload A) → Result (List (ObjectivePayload A))
  unfolding payload_insert
  sort_payloads [] = ok []
  sort_payloads (x ∷ xs) = do rest ← sort_payloads xs; payload_insert x rest

-- The loop of `SignedProposals`.
proposals_of : List MessagePayload → List (ObjectivePayload SignedProposal)
proposals_of [] = []
proposals_of (p ∷ ps) =
    let rest = proposals_of ps in
    if has_proposal p
    then record { payload = p.signed_proposal; objective_id = p.objective_id } ∷ rest
    else rest

-- The loop of `SignedStates`.
states_of : List MessagePayload → List (ObjectivePayload SignedState)
states_of [] = []
states_of (p ∷ ps) =
    let rest = states_of ps in
    if has_proposal p
    then rest
    else record { payload = p.signed_state; objective_id = p.objective_id } ∷ rest

-- `SignedProposal.SortInfo`
unfoldable pub proposal_sort_info : SignedProposal → Result (Destination × ℕ)
proposal_sort_info sp = ok (sp.proposal.ledger_id, sp.turn_num)

-- `Message.SignedProposals`
unfoldable pub signed_proposals : Message → Result (List (ObjectivePayload SignedProposal))
unfolding proposals_of sort_payloads proposal_sort_info
signed_proposals m = sort_payloads proposal_sort_info (proposals_of m.payloads)

-- `Message.SignedStates`
unfoldable pub signed_states : Library → Message → Result (List (ObjectivePayload SignedState))
unfolding states_of sort_payloads
signed_states lib m = sort_payloads (sort_info lib) (states_of m.payloads)
