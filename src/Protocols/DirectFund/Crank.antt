-- ===== src/Protocols/DirectFund/Crank.antt =====
-- protocols/directfund/directfund.go: `Crank`, one stage to a function. Go returns four values; an
-- error of a call stands in the record, a panic is the error of the result.
use go_nitro.Base.{
  true, ◌&&◌, not, some, [], ◌∷◌, ◌++◌, if◌then◌else◌, Result, ok, err, not_approved, ◌>>=◌,
}
use go_nitro.Types.Destination.{Bytes}
use go_nitro.Types.Funds.{is_non_zero}
use go_nitro.State.Library.{Library}
use go_nitro.State.Signed.{SignedState}
use go_nitro.Channel.{
  Channel, pre_fund_signed_by_me, post_fund_signed_by_me, pre_fund_complete, post_fund_complete,
}
use go_nitro.Channel.Updates.{sign_and_add_prefund, sign_and_add_postfund}
use go_nitro.Protocols.{
  CrankResult, stop, fail, SideEffects, no_effects, deposit_transaction, completed, is_approved,
  create_signed_state_messages,
}
use go_nitro.Protocols.DirectFund.{
  Objective, clone, id_of, funding_complete, safe_to_deposit, amount_to_deposit,
}

pub data WaitingFor : Type 0 where
  waiting_for_complete_prefund waiting_for_my_turn_to_fund waiting_for_complete_funding : WaitingFor
  waiting_for_complete_post_fund waiting_for_nothing : WaitingFor

abbrev pub Cranked : Type 0
Cranked = CrankResult Objective WaitingFor

-- The objective with the channel after a signature, and the effects with its messages.
abbrev pub sign_into : Objective → Channel → Objective
sign_into o c = record o { c = c }

abbrev pub announce : Objective → SideEffects → SignedState → SideEffects
announce o effects ss = record effects {
  messages_to_send =
      effects.messages_to_send ++ create_signed_state_messages (id_of o) ss o.c.my_index;
}

-- The end, when the postfund state is signed by me.
unfoldable pub finish : Objective → SideEffects → Cranked
finish o effects =
    if not (post_fund_complete o.c)
    then stop o effects waiting_for_complete_post_fund
    else stop (record o { status = completed }) effects waiting_for_nothing

module _ (lib : Library) (key : Bytes) where
  -- Postfunding
  unfoldable pub crank_post_fund : Objective → SideEffects → Result Cranked
  unfolding finish
  crank_post_fund o effects =
      let signing : Result Cranked = elim (sign_and_add_postfund lib o.c key) [
        | ok (ss, c) ↦ ok (finish (sign_into o c) (announce (sign_into o c) effects ss))
        | err e ↦ fail o waiting_for_complete_post_fund e
      ] in
      if post_fund_signed_by_me o.c then ok (finish o effects) else signing

  -- Funding
  unfoldable pub crank_funding : Objective → SideEffects → Result Cranked
  unfolding crank_post_fund
  crank_funding o effects = do
    let complete = funding_complete o
    amount ← amount_to_deposit o
    safe ← safe_to_deposit o
    let deposits = not complete && (safe && (is_non_zero amount && not o.transaction_submitted))
    let o' = if deposits then record o { transaction_submitted = true } else o
    let effects' =
        if deposits
        then record effects {
          transactions_to_submit =
              effects.transactions_to_submit ++ deposit_transaction o.c.id amount ∷ [];
        }
        else effects
    let post_fund = crank_post_fund o' effects'
    if not complete && not safe
        then ok (stop o effects waiting_for_my_turn_to_fund)
        else if not complete
        then ok (stop o' effects' waiting_for_complete_funding)
        else post_fund

  -- What stands between the signature on the prefund state and the funding.
  unfoldable pub crank_signed : Objective → SideEffects → Result Cranked
  unfolding crank_funding
  crank_signed o effects =
      let funding = crank_funding o effects in
      if not (pre_fund_complete o.c)
      then ok (stop o effects waiting_for_complete_prefund)
      else funding

  -- Prefunding
  unfoldable pub crank_pre_fund : Objective → Result Cranked
  unfolding crank_signed
  crank_pre_fund o =
      let signed = crank_signed o no_effects in
      let signing : Result Cranked = elim (sign_and_add_prefund lib o.c key) [
        | ok (ss, c) ↦ crank_signed (sign_into o c) (announce (sign_into o c) no_effects ss)
        | err e ↦ fail o waiting_for_complete_prefund e
      ] in
      if pre_fund_signed_by_me o.c then signed else signing

  -- `Objective.Crank`
  unfoldable pub crank : Objective → Result Cranked
  unfolding crank_pre_fund
  crank o = do
    updated ← clone lib o
    let approved_crank = crank_pre_fund updated
    if not (is_approved updated.status)
        then ok (record {
          objective = updated;
          effects = no_effects;
          waiting_for = waiting_for_nothing;
          failure = some not_approved;
        })
        else approved_crank
