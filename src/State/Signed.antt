-- ===== src/State/Signed.antt =====
-- channel/state/signedstate.go: a state with the signatures of its participants. The map of
-- signatures is shared and changed in place: what a call leaves behind is a result of its own.
pub mod Signers
pub mod Merging
use go_nitro.Base.{
  ℕ, suc, Bool, true, false, Option, none, some, List, [], ◌∷◌, length, ◌==◌, if◌then◌else◌, Map,
  lookup, insert, has_key, Result, ok, err, Error, or_fail, ◌>>=◌, signature_exists,
  no_matching_participant, missing_signature, distinct_states, conflicting_signatures,
}
use go_nitro.Types.Destination.{Address, Destination}
use go_nitro.State.Signature.{Signature, zero_signature}
use go_nitro.State.Signature
use go_nitro.State.Data.{State}
use go_nitro.State.Data
use go_nitro.State.Library.{Library}
use go_nitro.State.Hashing.{recover_signer, state_channel_id}

pub record SignedState : Type 0 where
  pub state : State
  pub sigs : Map Signature

-- `NewSignedState`
unfoldable pub new_signed_state : State → SignedState
new_signed_state s = record { state = s; sigs = [] }

-- The loop of `AddSignature` from the participant at position `i` on.
unfoldable pub store_signature :
    Address → Signature → Map Signature → ℕ → List Address → Result (Map Signature)
store_signature signer sig sigs i [] = err no_matching_participant
store_signature signer sig sigs i (p ∷ ps) =
    let next = store_signature signer sig sigs (suc i) ps in
    if p == signer
    then if has_key i sigs then err signature_exists else ok (insert i sig sigs)
    else next

-- The loop of `Signatures` over the positions; one without a signature gives the zero signature.
signatures_from : Map Signature → ℕ → List Address → List Signature
signatures_from sigs i [] = []
signatures_from sigs i (p ∷ ps) =
    (elim (lookup i sigs) [ none ↦ zero_signature | some sig ↦ sig ])
    ∷ signatures_from sigs (suc i) ps

-- `SignedState.Signatures`
unfoldable pub signatures : SignedState → List Signature
unfolding signatures_from
signatures ss = signatures_from ss.sigs 0 ss.state.participants

-- `SignedState.HasSignatureForParticipant`
unfoldable pub has_signature_for_participant : SignedState → ℕ → Bool
has_signature_for_participant ss i = has_key i ss.sigs

-- `SignedState.HasAllSignatures`
unfoldable pub has_all_signatures : SignedState → Bool
has_all_signatures ss = length ss.sigs == length ss.state.participants

-- `SignedState.GetParticipantSignature`
unfoldable pub get_participant_signature : SignedState → ℕ → Result Signature
get_participant_signature ss i = or_fail (lookup i ss.sigs) missing_signature

-- `SignedState.Clone`
unfoldable pub clone : SignedState → Result SignedState
clone ss = do state ← Data.clone ss.state; ok (record { state = state; sigs = ss.sigs })

module _ (lib : Library) where
  -- `SignedState.AddSignature`
  unfoldable pub add_signature : SignedState → Signature → Result SignedState
  unfolding store_signature
  add_signature ss sig = do
    signer ← recover_signer lib ss.state sig
    sigs ← store_signature signer sig ss.sigs 0 ss.state.participants
    ok (record ss { sigs = sigs })

  -- The loop of `Merge`: the receiver afterwards, and the error if there is one. Signatures that
  -- were added before the error stay.
  unfoldable pub merge_from : SignedState → Map Signature → SignedState × Option Error
  merge_from ss [] = (ss, none)
  merge_from ss ((i, sig) ∷ rest) =
      let skip = merge_from ss rest in
      elim (lookup i ss.sigs) [
        | some existing ↦
            if Signature.equal existing sig then skip else (ss, some conflicting_signatures)
        | none ↦ elim (add_signature ss sig) [
          | ok added ↦ merge_from added rest
          | err e ↦ (ss, some e)
        ]
      ]

  -- `SignedState.Merge`
  unfoldable pub merge : SignedState → SignedState → SignedState × Option Error
  unfolding merge_from
  merge ss other =
      if Data.equal ss.state other.state
      then merge_from ss other.sigs
      else (ss, some distinct_states)

  -- `SignedState.ChannelId`
  unfoldable pub signed_channel_id : SignedState → Result Destination
  signed_channel_id ss = state_channel_id lib ss.state

  -- `SignedState.SortInfo`
  unfoldable pub sort_info : SignedState → Result (Destination × ℕ)
  sort_info ss = do id ← state_channel_id lib ss.state; ok (id, ss.state.turn_num)
