-- ===== src/Protocols/DirectFund/Ledger.antt =====
-- The ledger channel that a direct funding objective ends in.
use go_nitro.Base.{
  ◌≡◌, refl, not, [], ◌∷◌, length, ◌==◌, IsMap, ok, fail_if, >>=-eq-ok, ok_injective, subst,
  not_complete, several_assets, if◌then◌else◌,
}
use go_nitro.Types.Funds
use go_nitro.Outcome.Exit.{Exit}
use go_nitro.State.Library.{Library}
use go_nitro.State.Signed.{get_participant_signature}
use go_nitro.Channel.{post_fund_complete, signed_post_fund_state}
use go_nitro.Consensus.LedgerOutcome.{LedgerOutcome}
use go_nitro.Consensus.LedgerOutcome.Decoded.{from_exit-IsMap}
use go_nitro.Consensus.Channel.{
  ConsensusChannel, new_consensus_channel, leader_index, follower_index,
}
use go_nitro.Consensus.Updates.Invariant.{IsValid, new_consensus_channel-IsValid}
use go_nitro.Protocols.DirectFund.{Objective, create_consensus_channel, only_exit}

module _ (lib : Library) where
  only_exit-IsMap : (e : Exit) (o : LedgerOutcome) → only_exit lib e ≡ ok o → IsMap o.guarantees
  unfolding only_exit
  only_exit-IsMap [] o h = cc
  only_exit-IsMap (s ∷ e) o h = from_exit-IsMap lib.unpack_guarantee_metadata s o h

  funded_copy :
      (c : ConsensusChannel) (f : Funds.Funds)
      → IsValid lib c
      → IsValid lib (record c { on_chain_funding = f })
  funded_copy c f v = record {
    leader_signed = v.leader_signed;
    follower_signed = v.follower_signed;
    keyed = v.keyed;
    queued = v.queued;
  }

  -- A ledger channel made from a direct funding objective is valid: both participants have signed
  -- its consensus state, whatever signatures the objective had stored. It keeps the holdings.
  pub create_consensus_channel-IsValid :
      (o : Objective) (con : ConsensusChannel)
      → create_consensus_channel lib o ≡ ok con
      → IsValid lib con × (con.on_chain_funding ≡ Funds.clone o.c.on_chain_funding)
  unfolding create_consensus_channel
  create_consensus_channel-IsValid o con e =
      let ledger = o.c in
      let signed = signed_post_fund_state ledger in
      let (_, _, e1) = >>=-eq-ok (fail_if (not (post_fund_complete ledger)) not_complete) _ e in
      let (g, _, e2) = >>=-eq-ok (get_participant_signature signed leader_index) _ e1 in
      let (h, _, e3) = >>=-eq-ok (get_participant_signature signed follower_index) _ e2 in
      let (_, _, e4) =
        >>=-eq-ok (fail_if (not (length signed.state.outcome == 1)) several_assets) _ e3 in
      let (outcome, ho, e5) = >>=-eq-ok (only_exit lib signed.state.outcome) _ e4 in
      let i = if ledger.my_index == leader_index then leader_index else follower_index in
      let (c, hc, e6) =
        >>=-eq-ok (new_consensus_channel lib ledger.fp i signed.state.turn_num outcome g h) _ e5 in
      let v =
        new_consensus_channel-IsValid lib ledger.fp i signed.state.turn_num outcome g h c
          (only_exit-IsMap signed.state.outcome outcome ho) hc in
      subst (λ x. IsValid lib x × (x.on_chain_funding ≡ Funds.clone ledger.on_chain_funding))
        (ok_injective e6) (funded_copy c (Funds.clone ledger.on_chain_funding) v, refl)
