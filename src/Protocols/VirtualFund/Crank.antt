-- ===== src/Protocols/VirtualFund/Crank.antt =====
-- protocols/virtualfund/virtualfund.go: `Crank`, one stage to a function. It works on a copy, and an
-- error returns the objective as it was.
use go_nitro.Base.{
  Bool, not, Option, some, ◌++◌, if◌then◌else◌, Result, ok, err, deref, not_approved, ◌>>=◌,
}
use go_nitro.Types.Destination.{Bytes}
use go_nitro.State.Library.{Library}
use go_nitro.State.Signed.{SignedState}
use go_nitro.Channel.{
  pre_fund_signed_by_me, post_fund_signed_by_me, pre_fund_complete, post_fund_complete,
}
use go_nitro.Channel.Updates.{sign_and_add_prefund, sign_and_add_postfund}
use go_nitro.Protocols.{
  CrankResult, stop, fail, SideEffects, no_effects, merge_effects, completed, is_approved,
  create_signed_state_messages,
}
use go_nitro.Protocols.VirtualFund.{Objective, clone, id_of, is_alice, is_bob, funding_complete}
use go_nitro.Protocols.VirtualFund.Ledgers.{Connection, funded, update_ledger_with_guarantee}

pub data WaitingFor : Type 0 where
  waiting_for_complete_prefund waiting_for_complete_funding waiting_for_complete_post_fund :
      WaitingFor
  waiting_for_nothing : WaitingFor

abbrev pub Cranked : Type 0
Cranked = CrankResult Objective WaitingFor

-- The effects with the messages for a state that was signed.
abbrev pub announce : Objective → SideEffects → SignedState → SideEffects
announce o effects ss = record effects {
  messages_to_send =
      effects.messages_to_send ++ create_signed_state_messages (id_of o) ss o.v.my_index;
}

-- The end, when the postfund state is signed by me.
unfoldable pub finish : Objective → SideEffects → Cranked
finish o effects =
    if not (post_fund_complete o.v)
    then stop o effects waiting_for_complete_post_fund
    else stop (record o { status = completed }) effects waiting_for_nothing

module _ (lib : Library) (key : Bytes) where
  -- An update of one ledger, if the role has it and it does not fund the guarantee yet: the effects
  -- with its own, and the connection afterwards.
  unfoldable pub update_side :
      Bool → Option Connection → SideEffects → Result (SideEffects × Option Connection)
  update_side absent connection effects =
      let updated = (do
        c ← deref connection
        let changed = (do
          (more, ledger) ← update_ledger_with_guarantee lib c key
          ok (merge_effects effects more, some (record c { channel = ledger })))
        if funded c then ok (effects, connection) else changed) in
      if absent then ok (effects, connection) else updated

  -- Both ledgers, the left one first.
  unfoldable pub update_ledgers : Objective → SideEffects → Result (SideEffects × Objective)
  unfolding update_side
  update_ledgers o effects = do
    (one, left) ← update_side (is_alice o) o.to_my_left effects
    (two, right) ← update_side (is_bob o) o.to_my_right one
    ok (two, record o { to_my_left = left; to_my_right = right })

  -- Postfunding; `before` is the objective that an error returns.
  unfoldable pub crank_post_fund : Objective → Objective → SideEffects → Result Cranked
  unfolding finish
  crank_post_fund before o effects =
      let signing : Result Cranked = elim (sign_and_add_postfund lib o.v key) [
        | ok (ss, v) ↦ ok (finish (record o { v = v }) (announce before effects ss))
        | err e ↦ fail before waiting_for_nothing e
      ] in
      if post_fund_signed_by_me o.v then ok (finish o effects) else signing

  -- What follows the updates of the ledgers.
  unfoldable pub crank_funded : Objective → Objective → SideEffects → Result Cranked
  unfolding crank_post_fund
  crank_funded before o effects = do
    complete ← funding_complete o
    if not complete
        then ok (stop o effects waiting_for_complete_funding)
        else crank_post_fund before o effects

  -- Funding
  unfoldable pub crank_funding : Objective → Objective → SideEffects → Result Cranked
  unfolding update_ledgers crank_funded
  crank_funding before o effects = elim (update_ledgers o effects) [
    | ok (effects', o') ↦ crank_funded before o' effects'
    | err e ↦ fail before waiting_for_nothing e
  ]

  -- What follows the signature on the prefund state.
  unfoldable pub crank_signed : Objective → Objective → SideEffects → Result Cranked
  unfolding crank_funding
  crank_signed before o effects =
      if not (pre_fund_complete o.v)
      then ok (stop o effects waiting_for_complete_prefund)
      else crank_funding before o effects

  -- Prefunding
  unfoldable pub crank_pre_fund : Objective → Objective → Result Cranked
  unfolding crank_signed
  crank_pre_fund before o =
      let signing : Result Cranked = elim (sign_and_add_prefund lib o.v key) [
        | ok (ss, v) ↦ crank_signed before (record o { v = v }) (announce before no_effects ss)
        | err e ↦ fail before waiting_for_nothing e
      ] in
      if pre_fund_signed_by_me o.v then crank_signed before o no_effects else signing

  -- `Objective.Crank`
  unfoldable pub crank : Objective → Result Cranked
  unfolding crank_pre_fund
  crank o = do
    updated ← clone lib o
    if not (is_approved updated.status)
        then fail updated waiting_for_nothing not_approved
        else crank_pre_fund o updated
