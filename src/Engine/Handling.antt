-- ===== src/Engine/Handling.antt =====
-- What the engine does with a signed state of a message from a peer.
use go_nitro.Base.{
  ◌≡◌, ◌∙◌, ◌⊎◌, inl, inr, ap, sym, true, false, Bool, Bool-cases, [], ◌∷◌, ok, ◌>>=◌, >>=-eq-ok,
  ok_injective, arith, subst,
}
use go_nitro.State.Library.{Library}
use go_nitro.State.Signed.{SignedState}
use go_nitro.Protocols.{zero_signed_proposal}
use go_nitro.Protocols.Messages.{ObjectivePayload}
use go_nitro.Store.{MemStore, Objective, status_of}
use go_nitro.Engine.Progress.{Progress, attempt_progress-Progress}
use go_nitro.Engine.{
  attempt_progress, Engine, ObjectiveChangeEvent, no_change, is_unapproved, is_completed,
  get_or_create_objective, admit, progress_unless_completed, take_state,
}
use go_nitro.Engine.Objectives.{update}
use go_nitro.Engine.Admission.{Refused, IsAdmitted, admit-Refused, admit_status}

module _ (lib : Library) (should_approve : Objective → Bool) where
  -- The objective is admitted, by an engine whose store is given and which sends nothing for it.
  -- Then nothing happens, since it is completed, or the engine updates it with the entry and makes
  -- progress with the result.
  pub record Taken (e after : Engine) (ms : MemStore) (o : Objective)
      (entry : ObjectivePayload SignedState) (change : ObjectiveChangeEvent) : Type 0 where
    pub objective : Objective
    pub start : Engine
    pub admitted : IsAdmitted lib should_approve (record e { store = ms }) start o objective
    pub ready : is_unapproved (status_of objective) ≡ false
    pub unsent : start.sent ≡ e.sent
    pub unsubmitted : start.submitted ≡ e.submitted
    pub progressed :
        (is_completed (status_of objective) ≡ true) × (after ≡ start) × (change ≡ no_change)
        ⊎ (is_completed (status_of objective) ≡ false)
          × (u : Objective) × (update lib objective entry.objective_id entry.payload
                zero_signed_proposal
              ≡ ok u)
          × Progress lib start after u change

  -- What a signed state of a message has done to an objective, by whether the handler returns
  -- after it.
  abbrev pub Outcome :
      Engine
      → Engine
      → MemStore
      → Objective
      → ObjectivePayload SignedState
      → ObjectiveChangeEvent
      → Bool
      → Type 0
  Outcome e after ms o entry change true = Refused lib should_approve e after o change
  Outcome e after ms o entry change false = Taken e after ms o entry change

  -- The objective is the one that the store has, or a new one, for the entry.
  pub record Handled (e after : Engine) (entry : ObjectivePayload SignedState)
      (change : ObjectiveChangeEvent) (returned : Bool) : Type 0 where
    pub ms : MemStore
    pub o : Objective
    pub found : get_or_create_objective lib e.store entry.objective_id entry.payload ≡ ok (ms, o)
    pub outcome : Outcome e after ms o entry change returned

  -- The store that an objective was read from or written to does not matter.
  Refused-before :
      (e after : Engine) (ms : MemStore) (o : Objective) (change : ObjectiveChangeEvent)
      → Refused lib should_approve (record e { store = ms }) after o change
      → Refused lib should_approve e after o change
  Refused-before e after ms o change x = record {
    objective = x.objective;
    waits = x.waits;
    refusal = x.refusal;
    by = x.by;
    status = x.status;
    reported = x.reported;
    unsent = x.unsent;
    unsubmitted = x.unsubmitted;
    stored = x.stored;
  }

  progress-Taken :
      (e e' after : Engine) (ms : MemStore) (o r : Objective) (entry : ObjectivePayload SignedState)
      (change : ObjectiveChangeEvent)
      → IsAdmitted lib should_approve (record e { store = ms }) e' o r
      → is_unapproved (status_of r) ≡ false
      → e'.sent ≡ e.sent
      → e'.submitted ≡ e.submitted
      → progress_unless_completed lib should_approve e' r entry.objective_id entry.payload
          zero_signed_proposal
        ≡ ok (after, change)
      → Taken e after ms o entry change
  unfolding progress_unless_completed
  progress-Taken e e' after ms o r entry change adm known sent submitted h =
      let outcome : Engine × ObjectiveChangeEvent = (after, change) in
      elim (Bool-cases (is_completed (status_of r))) [
        | inl done ↦
            let given : Engine × ObjectiveChangeEvent = (e', no_change) in
            let same : given ≡ outcome = ok_injective (ground (arith, done, h)) in
            record {
              objective = r;
              start = e';
              admitted = adm;
              ready = known;
              unsent = sent;
              unsubmitted = submitted;
              progressed = inl (done, ap (λ t. t.0) (sym same), ap (λ t. t.1) (sym same));
            }
        | inr active ↦
            let updated = update lib r entry.objective_id entry.payload zero_signed_proposal in
            let tried : (updated >>= λ u. attempt_progress lib e' u) ≡ ok outcome =
              ground (arith, active, h) in
            let (u, hu, h1) = >>=-eq-ok updated _ tried in
            record {
              objective = r;
              start = e';
              admitted = adm;
              ready = known;
              unsent = sent;
              unsubmitted = submitted;
              progressed = inr (active, u, hu, attempt_progress-Progress lib e' after u change h1);
            }
      ]

  -- A signed state from a peer, for the objective that the store has under the identifier, or for a
  -- new one. One that is not approved yet and that the policy refuses is rejected and reported, and
  -- nothing is sent or submitted; the store gives it as rejected, with the zero ledger on a side of a
  -- virtual defunding objective that had none, if its two ledgers, where it has two, have different
  -- identifiers and those of a virtual funding objective are not zero. One that is not approved yet
  -- and that the policy accepts is approved, and any other is left as it is; then, unless it is
  -- completed, it is updated with the signed state and makes progress. For a completed one nothing
  -- is sent, submitted or reported.
  pub take_state-Handled :
      (e after : Engine) (entry : ObjectivePayload SignedState) (change : ObjectiveChangeEvent)
      (returned : Bool)
      → take_state lib should_approve e entry ≡ ok (after, change, returned)
      → Handled e after entry change returned
  unfolding take_state
  take_state-Handled e after entry change returned h =
      let ((ms, o), ho, h1) =
        >>=-eq-ok (get_or_create_objective lib e.store entry.objective_id entry.payload) _ h in
      let ((e', r, refused), ha, h2) =
        >>=-eq-ok (admit lib should_approve (record e { store = ms }) o) _ h1 in
      let outcome : Engine × ObjectiveChangeEvent × Bool = (after, change, returned) in
      let decided : Bool → Engine × Objective × Bool = λ f. (e', r, f) in
      elim (Bool-cases refused) [
        | inl was_refused ↦
            let given : Engine × ObjectiveChangeEvent × Bool =
              (e', record no_change { completed_objectives = r ∷ [] }, true) in
            let made : given ≡ outcome = ok_injective (ground (arith, was_refused, h2)) in
            let x =
              admit-Refused lib should_approve (record e { store = ms }) e' o r
                (ha ∙ ap (λ f. ok (decided f)) was_refused) in
            subst (λ t. Handled e t.0 entry t.1 t.2) made
              (record {
                ms = ms;
                o = o;
                found = ho;
                outcome =
                    Refused-before e e' ms o (record no_change { completed_objectives = r ∷ [] }) x;
              })
        | inr was_admitted ↦
            let report : Engine × ObjectiveChangeEvent → Engine × ObjectiveChangeEvent × Bool =
              λ p. (p.0, p.1, false) in
            let (adm, known, sent, submitted) =
              admit_status lib should_approve (record e { store = ms }) e' o r
                (ha ∙ ap (λ f. ok (decided f)) was_admitted) in
            let tried : (progress_unless_completed lib should_approve e' r entry.objective_id
                    entry.payload zero_signed_proposal
                  >>= λ p. ok (report p))
                ≡ ok outcome =
              ground (arith, was_admitted, h2) in
            let ((e'', c), hp, h3) =
              >>=-eq-ok
                (progress_unless_completed lib should_approve e' r entry.objective_id entry.payload
                  zero_signed_proposal)
                _ tried in
            let given : Engine × ObjectiveChangeEvent × Bool = report (e'', c) in
            let made : given ≡ outcome = ok_injective h3 in
            subst (λ t. Handled e t.0 entry t.1 t.2) {x = given} made
              (record {
                ms = ms;
                o = o;
                found = ho;
                outcome = progress-Taken e e' e'' ms o r entry c adm known sent submitted hp;
              })
      ]
