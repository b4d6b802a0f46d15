-- ===== src/Protocols/DirectDefund/Crank.antt =====
-- protocols/directdefund/directdefund.go: `Crank`, one stage to a function.
use go_nitro.Base.{
  ℕ, true, ◌&&◌, ◌||◌, not, some, [], ◌∷◌, ◌++◌, ◌==◌, if◌then◌else◌, keys, Result, ok, err,
  not_approved, no_signed_states, ◌>>=◌,
}
use go_nitro.Types.Destination.{Bytes}
use go_nitro.State.Data
use go_nitro.State.Data.{State}
use go_nitro.State.Library.{Library}
use go_nitro.State.Signed.{SignedState, has_signature_for_participant}
use go_nitro.Channel.{Channel, state_at, latest_turn, latest_signed_state, latest_supported_state}
use go_nitro.Channel.Updates.{sign_and_add_state}
use go_nitro.Consensus.Vars.{next_turn}
use go_nitro.Protocols.{
  CrankResult, stop, fail, SideEffects, no_effects, withdraw_all_transaction, completed,
  is_approved, create_signed_state_messages,
}
use go_nitro.Protocols.DirectDefund.{Objective, clone, id_of, fully_withdrawn}

pub data WaitingFor : Type 0 where
  waiting_for_finalization waiting_for_withdraw waiting_for_nothing : WaitingFor

abbrev pub Cranked : Type 0
Cranked = CrankResult Objective WaitingFor

-- The key of the latest signed state.
abbrev pub latest_key : Channel → ℕ
latest_key c = latest_turn 0 (keys c.signed_state_for_turn_num)

-- The state that is to be signed: the latest one, made final.
unfoldable pub state_to_sign : State → Result State
state_to_sign latest = do
  s ← Data.clone latest
  ok (if not s.is_final then record s { turn_num = next_turn s.turn_num; is_final = true } else s)

-- Withdrawal of funds, with the signed state to withdraw by.
unfoldable pub crank_withdrawal : Objective → SignedState → SideEffects → Cranked
crank_withdrawal o latest effects =
    let submits = o.c.my_index == 0 && not o.transaction_submitted in
    let paid = record effects {
      transactions_to_submit =
          effects.transactions_to_submit ++ withdraw_all_transaction o.c.id latest ∷ [];
    } in
    if not (fully_withdrawn o)
    then if submits
      then stop (record o { transaction_submitted = true }) paid waiting_for_withdraw
      else stop o effects waiting_for_withdraw
    else stop (record o { status = completed }) effects waiting_for_nothing

-- What follows the signature on the final state.
unfoldable pub crank_supported : Objective → SignedState → SideEffects → Cranked
unfolding crank_withdrawal
crank_supported o latest effects = elim (latest_supported_state o.c) [
  | err e ↦ record {
    objective = o;
    effects = effects;
    waiting_for = waiting_for_finalization;
    failure = some e;
  }
  | ok s ↦
      if not s.is_final
      then stop o effects waiting_for_finalization
      else crank_withdrawal o latest effects
]

module _ (lib : Library) (key : Bytes) where
  -- Finalize and sign a state. The latest signed state shares its signatures with the one that the
  -- channel stores: a signature that is merged into those shows in it.
  unfoldable pub crank_signing : Objective → SignedState → Result Cranked
  unfolding crank_supported state_to_sign
  crank_signing o latest = do
    s ← state_to_sign latest.state
    elim (sign_and_add_state lib o.c s key) [
      | err e ↦ fail o waiting_for_finalization e
      | ok (ss, c) ↦ ok (
          crank_supported (record o { c = c })
            (state_at (latest_key o.c) c.signed_state_for_turn_num)
            (record no_effects {
              messages_to_send = create_signed_state_messages (id_of o) ss o.c.my_index;
            }))
    ]

  -- From the latest signed state on.
  unfoldable pub crank_latest : Objective → SignedState → Result Cranked
  unfolding crank_signing
  crank_latest o latest =
      if not latest.state.is_final || not (has_signature_for_participant latest o.c.my_index)
      then crank_signing o latest
      else ok (crank_supported o latest no_effects)

  -- `Objective.Crank`
  unfoldable pub crank : Objective → Result Cranked
  unfolding crank_latest
  crank o = do
    updated ← clone lib o
    let cranked : Result Cranked = elim (latest_signed_state updated.c) [
      | err e ↦ fail updated waiting_for_nothing no_signed_states
      | ok latest ↦ crank_latest updated latest
    ]
    if not (is_approved updated.status)
        then fail updated waiting_for_nothing not_approved
        else cranked
