-- ===== src/Engine/Progress.antt =====
-- What an attempt at progress has done when it succeeds.
use go_nitro.Base.{
  ◌≡◌, ◌∙◌, ◌⊎◌, inl, inr, refl, ap, sym, true, false, Bool-cases, Option, none, some, lookup,
  lookup-erase, List, [], ◌∷◌, ◌++◌, Error, ok, err, ◌>>=◌, >>=-eq-ok, ok_injective, arith, subst,
  blocked,
}
use go_nitro.Types.Destination.{Destination}
use go_nitro.State.Library.{Library}
use go_nitro.Consensus.Proposal.{Proposal}
use go_nitro.Protocols.{ObjectiveId, SideEffects}
use go_nitro.Protocols.DirectFund
use go_nitro.Store.{
  MemStore, Objective, of_direct_fund, of_direct_defund, of_virtual_fund, of_virtual_defund,
  set_objective, objective_id, owns_channel, get_objective_by_id, release_channel_from_ownership,
  set_consensus_channel, destroy_channel,
}
use go_nitro.Store.Reading.{HasLedgers, reread}
use go_nitro.Store.RoundTrip.{get_objective_by_id-set_objective}
use go_nitro.Store.Ownership.{owner_of}
use go_nitro.Engine.{
  Engine, ObjectiveChangeEvent, no_change, execute_side_effects, unless_failed,
  spawn_consensus_channel, settle, attempt_progress,
}
use go_nitro.Engine.Objectives.{Cranked, crank}

executed_lem :
    (e e' : Engine) (effects : SideEffects)
    → execute_side_effects e effects ≡ ok e'
    → (e'.store ≡ e.store)
      × (e'.sent ≡ e.sent ++ effects.messages_to_send)
      × (e'.submitted ≡ e.submitted ++ effects.transactions_to_submit)
      × (effects.proposals_to_process ≡ [])
unfolding execute_side_effects
executed_lem e e' effects h = go effects.proposals_to_process refl h
  where
    go :
        (ps : List Proposal)
        → effects.proposals_to_process ≡ ps
        → (elim ps [
          | [] ↦ ok (record e {
            sent = e.sent ++ effects.messages_to_send;
            submitted = e.submitted ++ effects.transactions_to_submit;
          })
          | p ∷ rest ↦ err blocked
        ])
          ≡ ok e'
        → (e'.store ≡ e.store)
          × (e'.sent ≡ e.sent ++ effects.messages_to_send)
          × (e'.submitted ≡ e.submitted ++ effects.transactions_to_submit)
          × (effects.proposals_to_process ≡ [])
    go [] q h =
        let made = sym (ok_injective h) in
        (ap (λ x. x.store) made, ap (λ x. x.sent) made, ap (λ x. x.submitted) made, q)
    go (p ∷ rest) q h = cc

not_failed : (f : Option Error) (u : Unit {0}) → unless_failed f ≡ ok u → f ≡ none
not_failed none u e = refl
not_failed (some x) u e = cc

-- No longer an owner.
released :
    (ms : MemStore) (d : Destination) → owner_of (release_channel_from_ownership ms d) d ≡ none
unfolding release_channel_from_ownership
released ms d = ground (arith, lookup-erase d d ms.channel_to_objective)

module _ (lib : Library) where
  spawn_owners :
      (ms after : MemStore) (o : Objective)
      → spawn_consensus_channel lib ms o ≡ ok after
      → after.channel_to_objective ≡ ms.channel_to_objective
  unfolding spawn_consensus_channel set_consensus_channel destroy_channel
  spawn_owners ms after (of_direct_fund o) e =
      let (c, _, e1) = >>=-eq-ok (DirectFund.create_consensus_channel lib o) _ e in
      ap (λ x. x.channel_to_objective) (sym (ok_injective e1))
  spawn_owners ms after (of_direct_defund o) e =
      ap (λ x. x.channel_to_objective) (sym (ok_injective e))
  spawn_owners ms after (of_virtual_fund o) e =
      ap (λ x. x.channel_to_objective) (sym (ok_injective e))
  spawn_owners ms after (of_virtual_defund o) e =
      ap (λ x. x.channel_to_objective) (sym (ok_injective e))

  -- The crank waits, and an objective whose ledgers are told apart is read from the store as it left
  -- it (Store/Reading), or it waits for nothing, and the objective is reported and owns its channel
  -- no more.
  abbrev pub IsSettled : MemStore → ObjectiveChangeEvent → Cranked → Type 0
  IsSettled ms change r =
      (r.waiting ≡ true)
        × (change.completed_objectives ≡ [])
        × (HasLedgers r.objective
            → (id : ObjectiveId) → objective_id lib r.objective ≡ ok id
            → get_objective_by_id ms id ≡ ok (reread r.objective))
      ⊎ (r.waiting ≡ false)
        × (change.completed_objectives ≡ r.objective ∷ [])
        × ((d : Destination) → owns_channel lib r.objective ≡ ok d → owner_of ms d ≡ none)

  settle-IsSettled :
      (before stored ms : MemStore) (r : Cranked) (change : ObjectiveChangeEvent)
      (failure : Option Error)
      → set_objective lib before r.objective ≡ ok (stored, failure)
      → settle lib stored r ≡ ok (ms, change)
      → IsSettled ms change r
  unfolding settle
  settle-IsSettled before stored ms r change failure hs e = elim (Bool-cases r.waiting) [
    | inl waits ↦
        let kept : MemStore × ObjectiveChangeEvent = (stored, no_change) in
        let made : kept ≡ (ms, change) = ok_injective (ground (arith, waits, e)) in
        inl (
          waits,
          ap (λ x. x.1.completed_objectives) (sym made),
          λ h id hid.
              subst (λ x. get_objective_by_id x.0 id ≡ ok (reread r.objective)) made
                (get_objective_by_id-set_objective lib before stored r.objective id failure h hid
                  hs),
        )
    | inr done ↦
        let report : MemStore → MemStore × ObjectiveChangeEvent =
          λ after. (after, record no_change { completed_objectives = r.objective ∷ [] }) in
        let settled : (owns_channel lib r.objective >>= λ owns.
        spawn_consensus_channel lib (release_channel_from_ownership stored owns) r.objective
        >>= λ after. ok (report after))
            ≡ ok (ms, change) =
          ground (arith, done, e) in
        let (owns, ho, e1) = >>=-eq-ok (owns_channel lib r.objective) _ settled in
        let (after, ha, e2) =
          >>=-eq-ok
            (spawn_consensus_channel lib (release_channel_from_ownership stored owns) r.objective) _
            e1 in
        let made = ok_injective e2 in
        inr (
          done,
          ap (λ x. x.1.completed_objectives) (sym made),
          λ d hd.
              let same : owns ≡ d = ok_injective (sym ho ∙ hd) in
              let kept =
                spawn_owners (release_channel_from_ownership stored owns) after r.objective ha in
              subst (λ x. owner_of x.0 d ≡ none) made
                (subst (λ x. owner_of after x ≡ none) same
                  (ap (lookup owns) kept ∙ released stored owns)),
        )
  ]

  -- What an attempt at progress does, by the crank of the objective.
  pub record Progress (e after : Engine) (o : Objective) (change : ObjectiveChangeEvent)
      : Type 0 where
    pub by : Cranked
    pub cranked : crank lib e.store.key o ≡ ok by
    pub succeeded : by.failure ≡ none
    pub sent : after.sent ≡ e.sent ++ by.effects.messages_to_send
    pub submitted : after.submitted ≡ e.submitted ++ by.effects.transactions_to_submit
    pub processed : by.effects.proposals_to_process ≡ []
    pub settled : IsSettled after.store change by

  -- An attempt at progress that succeeds has cranked the objective once, with the key of the store
  -- and without an error. It has sent exactly the messages of the crank, and submitted exactly its
  -- transactions, and the crank had no proposals to process. Where the crank waits, nothing is
  -- reported, and the store gives the objective as the crank left it, with the zero ledger on a side
  -- of a virtual defunding objective that had none, if its two ledgers, where it has two, have
  -- different identifiers and those of a virtual funding objective are not zero. Where it waits for
  -- nothing, the objective is reported as completed, and its channel has no owner.
  pub attempt_progress-Progress :
      (e after : Engine) (o : Objective) (change : ObjectiveChangeEvent)
      → attempt_progress lib e o ≡ ok (after, change)
      → Progress e after o change
  unfolding attempt_progress
  attempt_progress-Progress e after o change h =
      let (r, hr, h1) = >>=-eq-ok (crank lib e.store.key o) _ h in
      let (u, hu, h2) = >>=-eq-ok (unless_failed r.failure) _ h1 in
      let ((stored, failure), hs, h3) = >>=-eq-ok (set_objective lib e.store r.objective) _ h2 in
      let (w, hw, h4) = >>=-eq-ok (unless_failed failure) _ h3 in
      let ((ms, settled), hm, h5) = >>=-eq-ok (settle lib stored r) _ h4 in
      let (e', he, h6) =
        >>=-eq-ok (execute_side_effects (record e { store = ms }) r.effects) _ h5 in
      let made = ok_injective h6 in
      let (at, sent, submitted, processed) =
        executed_lem (record e { store = ms }) e' r.effects he in
      let is = settle-IsSettled e.store stored ms r settled failure hs hm in
      subst (λ x. Progress e x.0 o x.1) made
        (record {
          by = r;
          cranked = hr;
          succeeded = not_failed r.failure u hu;
          sent = sent;
          submitted = submitted;
          processed = processed;
          settled = subst (λ s. IsSettled s settled r) (sym at) is;
        })
