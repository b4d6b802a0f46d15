-- ===== src/Protocols.antt =====
-- protocols/: what the objectives share (interfaces.go, messages.go). An objective's identifier is
-- a prefix and the destination of a channel; it stands as the pair that it spells.
pub mod Messages
pub mod Lives
pub mod DirectFund
pub mod DirectDefund
pub mod VirtualFund
pub mod VirtualDefund
use go_nitro.Base.{
  ◌≡◌, refl, Bool-cases, inl, inr, arith, ℕ, zero, suc, Bool, true, false, ◌&&◌, ◌==◌, List, [],
  ◌∷◌, ◌++◌, if◌then◌else◌, ℤ, Option, none, some, Error, Result, ok, err, panicked, is_panic,
}
use go_nitro.Types.Destination.{Address, Destination}
use go_nitro.Types.Funds.{Funds}
use go_nitro.State.Signature.{zero_signature}
use go_nitro.State.Signed.{SignedState}
use go_nitro.Consensus.Proposal.{Proposal, SignedProposal, zero_add, zero_remove}

pub data Protocol : Type 0 where
  direct_fund direct_defund virtual_fund virtual_defund : Protocol

abbrev pub same_protocol : Protocol → Protocol → Bool
same_protocol direct_fund direct_fund = true
same_protocol direct_defund direct_defund = true
same_protocol virtual_fund virtual_fund = true
same_protocol virtual_defund virtual_defund = true
same_protocol _ _ = false

pub record ObjectiveId : Type 0 where
  pub prefix : Protocol
  pub channel : Destination

abbrev pub equal_ids : ObjectiveId → ObjectiveId → Bool
equal_ids a b = same_protocol a.prefix b.prefix && a.channel == b.channel

pub data ObjectiveStatus : Type 0 where
  unapproved approved rejected completed : ObjectiveStatus

abbrev pub is_approved : ObjectiveStatus → Bool
is_approved approved = true
is_approved _ = false

pub approved_status : (s : ObjectiveStatus) → is_approved s ≡ true → s ≡ approved
approved_status approved h = refl
approved_status unapproved h = cc
approved_status rejected h = cc
approved_status completed h = cc

abbrev pub zero_signed_proposal : SignedProposal
zero_signed_proposal = record {
  signature = zero_signature;
  proposal = record { ledger_id = 0; to_add = zero_add; to_remove = zero_remove };
  turn_num = 0;
}

-- `messagePayload`, of whose two values one is zero.
pub record MessagePayload : Type 0 where
  pub objective_id : ObjectiveId
  pub signed_state : SignedState
  pub signed_proposal : SignedProposal

pub record Message : Type 0 where
  pub to : Address
  pub payloads : List MessagePayload

pub data ChainTransaction : Type 0 where
  deposit_transaction : Destination → Funds → ChainTransaction
  withdraw_all_transaction : Destination → SignedState → ChainTransaction

pub record SideEffects : Type 0 where
  pub messages_to_send : List Message
  pub transactions_to_submit : List ChainTransaction
  pub proposals_to_process : List Proposal

abbrev pub no_effects : SideEffects
no_effects = record {
  messages_to_send = [];
  transactions_to_submit = [];
  proposals_to_process = [];
}

-- What `Crank` returns: an error of a call stands in the record, and a panic is the error of the
-- result.
pub record CrankResult (O W : Type 0) : Type 0 where
  pub objective : O
  pub effects : SideEffects
  pub waiting_for : W
  pub failure : Option Error

module _ {O W : Type 0} where
  abbrev pub stop : O → SideEffects → W → CrankResult O W
  stop o effects waiting_for = record {
    objective = o;
    effects = effects;
    waiting_for = waiting_for;
    failure = none;
  }

  -- An error is returned without effects.
  abbrev pub fail : O → W → Error → Result (CrankResult O W)
  fail o waiting_for e =
      if is_panic e
      then err panicked
      else ok (record {
        objective = o;
        effects = no_effects;
        waiting_for = waiting_for;
        failure = some e;
      })

-- A call that failed and returned has changed nothing.
pub fail-eq-ok :
    {O W : Type 0} (o : O) (w : W) (e : Error) (r : CrankResult O W)
    → fail o w e ≡ ok r
    → record { objective = o; effects = no_effects; waiting_for = w; failure = some e } ≡ r
fail-eq-ok o w e r h = elim (Bool-cases (is_panic e)) [
  | inl panics ↦ absurd (ground (arith, panics, h))
  | inr returns ↦ ground (arith, returns, h)
]

-- What happened on chain: a deposit, an allocation that was paid, a channel that was concluded.
pub data ChainEvent : Type 0 where
  deposited :
      (channel : Destination) (block : ℕ) (asset : Address) (amount_deposited : ℤ) (now_held : ℤ)
      → ChainEvent
  allocation_updated :
      (channel : Destination) (block : ℕ) (asset : Address) (amount : ℤ) → ChainEvent
  concluded : (channel : Destination) (block : ℕ) → ChainEvent

-- The loop of `CreateSignedStateMessages` from the participant at position `i` on.
messages_from : ObjectiveId → SignedState → ℕ → ℕ → List Address → List Message
messages_from id ss my_index i [] = []
messages_from id ss my_index i (p ∷ ps) =
    let rest = messages_from id ss my_index (suc i) ps in
    let payload : MessagePayload = record {
      objective_id = id;
      signed_state = ss;
      signed_proposal = zero_signed_proposal;
    } in
    if i == my_index then rest else record { to = p; payloads = payload ∷ [] } ∷ rest

-- `CreateSignedStateMessages`
unfoldable pub create_signed_state_messages : ObjectiveId → SignedState → ℕ → List Message
unfolding messages_from
create_signed_state_messages id ss my_index = messages_from id ss my_index 0 ss.state.participants

-- `SideEffects.Merge`, which takes no proposals over.
unfoldable pub merge_effects : SideEffects → SideEffects → SideEffects
merge_effects se other = record se {
  messages_to_send = se.messages_to_send ++ other.messages_to_send;
  transactions_to_submit = se.transactions_to_submit ++ other.transactions_to_submit;
}
