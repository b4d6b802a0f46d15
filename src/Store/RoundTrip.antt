-- ===== src/Store/RoundTrip.antt =====
-- An objective that is stored is read again as it was, with its channel and its ledgers.
use go_nitro.Base.{
  ◌≡◌, ◌∙◌, ap, sym, Option, Map, lookup, insert, Error, ok, >>=-eq-ok, ok_injective, arith, subst,
  Bool-cases, Option-cases, inl, inr,
}
use go_nitro.Types.Destination.{Destination}
use go_nitro.State.Library.{Library}
use go_nitro.Protocols.{ObjectiveId, ObjectiveStatus, is_approved}
use go_nitro.Protocols.DirectFund
use go_nitro.Protocols.DirectDefund
use go_nitro.Protocols.VirtualFund
use go_nitro.Protocols.VirtualDefund
use go_nitro.Store.{
  Objective, of_direct_fund, of_direct_defund, of_virtual_fund, of_virtual_defund, MemStore,
  status_of, related, set_related, set_text, take_ownership, objective_id, owns_channel,
  set_objective, get_objective_by_id,
}
use go_nitro.Store.Reading.{
  HasLedgers, reread, direct_fund_again, direct_defund_again, virtual_fund_again,
  virtual_defund_again,
}

-- Only the owners change.
take_ownership_owners :
    (ms : MemStore) (id : ObjectiveId) (owns : Destination) (status : ObjectiveStatus)
    → (m : Map ObjectiveId) × ((take_ownership ms id owns status).0
        ≡ record ms { channel_to_objective = m })
unfolding take_ownership
take_ownership_owners ms id owns status = elim (Bool-cases (is_approved status)) [
  | inr idle ↦ (ms.channel_to_objective, ground (arith, idle))
  | inl active ↦ elim (Option-cases (lookup owns ms.channel_to_objective)) [
    | inl free ↦ (insert owns id ms.channel_to_objective, ground (arith, active, free))
    | inr (previous, owned) ↦ (ms.channel_to_objective, ground (arith, active, owned))
  ]
]

-- The texts and the related values of an objective, whoever owns its channel, are enough to read it
-- under the identifier.
abbrev ReadsAgain : MemStore → Objective → Map ObjectiveId → ObjectiveId → Type 0
ReadsAgain ms o m id =
    get_objective_by_id
      (record (set_related (set_text ms id.channel o) (related o)) { channel_to_objective = m }) id
    ≡ ok (reread o)

module _ (lib : Library) where
  stored_again :
      (ms : MemStore) (o : Objective) (id : ObjectiveId) (m : Map ObjectiveId)
      → HasLedgers o
      → objective_id lib o ≡ ok id
      → ReadsAgain ms o m id
  unfolding objective_id VirtualDefund.id_of DirectFund.id_of DirectDefund.id_of VirtualFund.id_of
  stored_again ms (of_direct_fund o) id m h e =
      subst (ReadsAgain ms (of_direct_fund o) m) (ok_injective e) (direct_fund_again ms o m)
  stored_again ms (of_direct_defund o) id m h e =
      subst (ReadsAgain ms (of_direct_defund o) m) (ok_injective e) (direct_defund_again ms o m)
  stored_again ms (of_virtual_fund o) id m h e =
      subst (ReadsAgain ms (of_virtual_fund o) m) (ok_injective e) (virtual_fund_again ms o m h)
  stored_again ms (of_virtual_defund o) id m h e =
      let (v, _, e1) = >>=-eq-ok (VirtualDefund.v_id lib o) _ e in
      subst (ReadsAgain ms (of_virtual_defund o) m) (ok_injective e1)
        (virtual_defund_again ms o v m h)

  -- What is stored is read again, through the JSON texts of the objective, its channel and its
  -- ledgers: an objective whose two ledgers, if it has two, have different identifiers, and for
  -- virtual funding none that is zero, comes back with its channel and its ledgers as they were,
  -- under whichever error SetObjective returns. A virtual defunding objective comes back with the
  -- zero ledger on a side that had none.
  pub get_objective_by_id-set_objective :
      (ms after : MemStore) (o : Objective) (id : ObjectiveId) (failure : Option Error)
      → HasLedgers o
      → objective_id lib o ≡ ok id
      → set_objective lib ms o ≡ ok (after, failure)
      → get_objective_by_id after id ≡ ok (reread o)
  unfolding set_objective
  get_objective_by_id-set_objective ms after o id failure h hid e =
      let (i, hi, e1) = >>=-eq-ok (objective_id lib o) _ e in
      let same : i ≡ id = ok_injective (sym hi ∙ hid) in
      let (owns, _, e2) = >>=-eq-ok (owns_channel lib o) _ e1 in
      let stored = set_related (set_text ms i.channel o) (related o) in
      let (m, owners) = take_ownership_owners stored i owns (status_of o) in
      let made : record stored { channel_to_objective = m } ≡ after =
        sym owners ∙ ap (λ x. x.0) (ok_injective e2) in
      subst (λ s. get_objective_by_id s id ≡ ok (reread o)) made
        (subst
          (λ x. get_objective_by_id (record stored { channel_to_objective = m }) x ≡ ok (reread o))
          same (stored_again ms o i m h hi))
