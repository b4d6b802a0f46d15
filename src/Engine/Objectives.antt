-- ===== src/Engine/Objectives.antt =====
-- client/engine/engine.go and protocols/interfaces.go: the calls of an objective, whichever protocol it
-- is of, and how the engine makes one.
use go_nitro.Base.{
  Bool, true, false, Option, none, some, Error, Result, ok, err, ◌>>=◌, unhandled_chain_event,
}
use go_nitro.Types.Destination.{Destination, Bytes}
use go_nitro.State.Library.{Library}
use go_nitro.State.Signed.{SignedState}
use go_nitro.Channel.{Channel}
use go_nitro.Consensus.Proposal.{SignedProposal}
use go_nitro.Protocols.{
  ObjectiveId, CrankResult, SideEffects, ChainEvent, direct_fund, direct_defund, virtual_fund,
  virtual_defund,
}
use go_nitro.Protocols.DirectFund
use go_nitro.Protocols.DirectDefund
use go_nitro.Protocols.VirtualFund
use go_nitro.Protocols.VirtualDefund
use go_nitro.Protocols.DirectFund.Crank as DirectFundCrank
use go_nitro.Protocols.DirectDefund.Crank as DirectDefundCrank
use go_nitro.Protocols.VirtualFund.Crank as VirtualFundCrank
use go_nitro.Protocols.VirtualDefund.Crank as VirtualDefundCrank
use go_nitro.Store.{
  MemStore, Objective, of_direct_fund, of_direct_defund, of_virtual_fund, of_virtual_defund,
  get_consensus_channel, get_consensus_channel_by_id, get_channel_by_id,
  get_channels_by_participant,
}

-- What `Crank` returns, with whether it waits for something.
pub record Cranked : Type 0 where
  pub objective : Objective
  pub effects : SideEffects
  pub waiting : Bool
  pub failure : Option Error

-- A request of the client: `protocols.ObjectiveRequest`.
pub data Request : Type 0 where
  request_virtual_fund : VirtualFund.ObjectiveRequest → Request
  request_virtual_defund : VirtualDefund.ObjectiveRequest → Request
  request_direct_fund : DirectFund.ObjectiveRequest → Request
  request_direct_defund : Destination → Request

abbrev any_cranked : {O W : Type 0} → (O → Objective) → (W → Bool) → CrankResult O W → Cranked
any_cranked of waits r = record {
  objective = of r.objective;
  effects = r.effects;
  waiting = waits r.waiting_for;
  failure = r.failure;
}

abbrev direct_fund_waits : DirectFundCrank.WaitingFor → Bool
direct_fund_waits DirectFundCrank.waiting_for_nothing = false
direct_fund_waits _ = true

abbrev direct_defund_waits : DirectDefundCrank.WaitingFor → Bool
direct_defund_waits DirectDefundCrank.waiting_for_nothing = false
direct_defund_waits _ = true

abbrev virtual_fund_waits : VirtualFundCrank.WaitingFor → Bool
virtual_fund_waits VirtualFundCrank.waiting_for_nothing = false
virtual_fund_waits _ = true

abbrev virtual_defund_waits : VirtualDefundCrank.WaitingFor → Bool
virtual_defund_waits VirtualDefundCrank.waiting_for_nothing = false
virtual_defund_waits _ = true

-- `GetChannelById`
unfoldable pub found_channel : MemStore → Destination → Option Channel
unfolding get_channel_by_id
found_channel ms id = elim (get_channel_by_id ms id) [ ok c ↦ some c | err e ↦ none ]

module _ (lib : Library) where
  -- `Crank`
  unfoldable pub crank : Bytes → Objective → Result Cranked
  crank key (of_direct_fund o) = do
    r ← DirectFundCrank.crank lib key o
    ok (any_cranked of_direct_fund direct_fund_waits r)
  crank key (of_direct_defund o) = do
    r ← DirectDefundCrank.crank lib key o
    ok (any_cranked of_direct_defund direct_defund_waits r)
  crank key (of_virtual_fund o) = do
    r ← VirtualFundCrank.crank lib key o
    ok (any_cranked of_virtual_fund virtual_fund_waits r)
  crank key (of_virtual_defund o) = do
    r ← VirtualDefundCrank.crank lib key o
    ok (any_cranked of_virtual_defund virtual_defund_waits r)

  -- `Approve` and `Reject`
  unfoldable pub approve : Objective → Result Objective
  approve (of_direct_fund o) = do u ← DirectFund.approve lib o; ok (of_direct_fund u)
  approve (of_direct_defund o) = do u ← DirectDefund.approve lib o; ok (of_direct_defund u)
  approve (of_virtual_fund o) = do u ← VirtualFund.approve lib o; ok (of_virtual_fund u)
  approve (of_virtual_defund o) = do u ← VirtualDefund.approve o; ok (of_virtual_defund u)

  unfoldable pub reject : Objective → Result Objective
  reject (of_direct_fund o) = do u ← DirectFund.reject lib o; ok (of_direct_fund u)
  reject (of_direct_defund o) = do u ← DirectDefund.reject lib o; ok (of_direct_defund u)
  reject (of_virtual_fund o) = do u ← VirtualFund.reject lib o; ok (of_virtual_fund u)
  reject (of_virtual_defund o) = do u ← VirtualDefund.reject o; ok (of_virtual_defund u)

  -- `Update`, with the parts of the event.
  unfoldable pub update : Objective → ObjectiveId → SignedState → SignedProposal → Result Objective
  update (of_direct_fund o) id ss sp = do u ← DirectFund.update lib o id ss; ok (of_direct_fund u)
  update (of_direct_defund o) id ss sp = do
    u ← DirectDefund.update lib o id ss
    ok (of_direct_defund u)
  update (of_virtual_fund o) id ss sp = do
    u ← VirtualFund.update lib o id sp ss
    ok (of_virtual_fund u)
  update (of_virtual_defund o) id ss sp = do
    u ← VirtualDefund.update lib o id ss sp
    ok (of_virtual_defund u)

  -- `UpdateWithChainEvent`, which the virtual objectives do not have.
  unfoldable pub update_with_chain_event : Objective → ChainEvent → Result Objective
  update_with_chain_event (of_direct_fund o) event = do
    u ← DirectFund.update_with_chain_event lib o event
    ok (of_direct_fund u)
  update_with_chain_event (of_direct_defund o) event = do
    u ← DirectDefund.update_with_chain_event lib o event
    ok (of_direct_defund u)
  update_with_chain_event (of_virtual_fund o) event = err unhandled_chain_event
  update_with_chain_event (of_virtual_defund o) event = err unhandled_chain_event

  -- `constructObjectiveFromMessage`
  unfoldable pub construct_objective_from_message :
      MemStore → ObjectiveId → SignedState → Result Objective
  unfolding found_channel
  construct_objective_from_message ms id ss = elim id.prefix [
    | direct_fund ↦ do
      o ← DirectFund.construct_from_state lib false ss.state ms.address
      ok (of_direct_fund o)
    | virtual_fund ↦ do
      o ←
          VirtualFund.construct_objective_from_state lib ss.state false ms.address
            (get_consensus_channel ms)
      ok (of_virtual_fund o)
    | virtual_defund ↦ do
      o ←
          VirtualDefund.construct_objective_from_state lib ss.state false ms.address
            (found_channel ms) (get_consensus_channel ms)
      ok (of_virtual_defund o)
    | direct_defund ↦ do
      o ←
          DirectDefund.construct_objective_from_state lib ss.state false
            (get_consensus_channel_by_id ms)
      ok (of_direct_defund o)
  ]

  -- The objective that a request of the client makes, approved.
  unfoldable pub requested : MemStore → Request → Result Objective
  unfolding found_channel
  requested ms (request_virtual_fund r) = do
    o ← VirtualFund.new_objective lib r true ms.address (get_consensus_channel ms)
    ok (of_virtual_fund o)
  requested ms (request_virtual_defund r) = do
    o ← VirtualDefund.new_objective r true ms.address (found_channel ms) (get_consensus_channel ms)
    ok (of_virtual_defund o)
  requested ms (request_direct_fund r) = do
    o ←
        DirectFund.new_objective lib r true ms.address (get_channels_by_participant ms)
          (get_consensus_channel ms)
    ok (of_direct_fund o)
  requested ms (request_direct_defund channel) = do
    o ← DirectDefund.new_objective lib channel true (get_consensus_channel_by_id ms)
    ok (of_direct_defund o)
