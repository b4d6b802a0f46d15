-- ===== src/Protocols/DirectDefund/Safety.antt =====
-- When a direct defunding objective withdraws and completes.
use go_nitro.Base.{
  ℕ, Bool, ◌≡◌, ◌⊎◌, inl, inr, refl, ap, sym, ◌∙◌, true, false, Bool-cases, not, ◌&&◌, ◌||◌, ◌==◌,
  some, [], ◌∷◌, ◌++◌, length, ok, >>=-eq-ok, ok_injective, arith, subst, Result-cases,
  not_approved, no_signed_states, Error, lookup, Map, keys,
}
use go_nitro.Types.Destination.{Bytes}
use go_nitro.State.Data.{State}
use go_nitro.State.Library.{Library}
use go_nitro.State.Signed.{SignedState, has_signature_for_participant}
use go_nitro.Channel.{Channel, state_at, latest_turn, latest_signed_state, latest_supported_state}
use go_nitro.Channel.Kept.{Has, latest_turn-Has, sign_and_add_state-Has}
use go_nitro.Channel.Updates
use go_nitro.Channel.Updates.{sign_and_add_state}
use go_nitro.Protocols.{
  fail, SideEffects, no_effects, withdraw_all_transaction, completed, approved, is_approved,
  ObjectiveStatus, create_signed_state_messages, fail-eq-ok,
}
use go_nitro.Protocols.DirectDefund.{Objective, clone, id_of, fully_withdrawn}
use go_nitro.Protocols.DirectDefund.Crank.{
  WaitingFor, waiting_for_finalization, waiting_for_nothing, Cranked, latest_key, state_to_sign,
  crank_withdrawal, crank_supported, crank_signing, crank_latest, crank,
}

-- The channel supports a final state.
pub record IsFinalized (c : Channel) : Type 0 where
  pub state : State
  pub supported : latest_supported_state c ≡ ok state
  pub final : state.is_final ≡ true

-- The crank submits one withdrawal, by the first participant, of a channel that supports a final
-- state and holds funds on chain, with a signed state that the channel stores; and it is recorded.
pub record IsWithdrawal (r : Cranked) : Type 0 where
  pub by : SignedState
  pub withdraws :
      r.effects.transactions_to_submit ≡ withdraw_all_transaction r.objective.c.id by ∷ []
  pub stored : (k : ℕ) × (lookup k r.objective.c.signed_state_for_turn_num ≡ some by)
  pub first : r.objective.c.my_index ≡ 0
  pub finalized : IsFinalized r.objective.c
  pub funds_left : fully_withdrawn r.objective ≡ false
  pub recorded : r.objective.transaction_submitted ≡ true

-- Nothing is submitted, and nothing is recorded as submitted.
abbrev pub IsQuiet : Objective → Cranked → Type 0
IsQuiet o r =
    (r.effects.transactions_to_submit ≡ [])
    × (r.objective.transaction_submitted ≡ o.transaction_submitted)

-- The objective is approved, or it is completed, with a final state and nothing left on chain.
abbrev pub IsDefunded : Cranked → Type 0
IsDefunded r =
    (r.objective.status ≡ approved)
    ⊎ (r.objective.status ≡ completed)
      × (r.waiting_for ≡ waiting_for_nothing)
      × (fully_withdrawn r.objective ≡ true)
      × IsFinalized r.objective.c

pub record Stage (o : Objective) (r : Cranked) : Type 0 where
  pub withdrawal : IsQuiet o r ⊎ (o.transaction_submitted ≡ false) × IsWithdrawal r
  pub defunded : IsDefunded r

resubmitted :
    (o : Objective) (b : Bool)
    → fully_withdrawn (record o { transaction_submitted = b }) ≡ fully_withdrawn o
unfolding fully_withdrawn
resubmitted o b = refl

with_status :
    (o : Objective) (s : ObjectiveStatus)
    → fully_withdrawn (record o { status = s }) ≡ fully_withdrawn o
unfolding fully_withdrawn
with_status o s = refl

abbrev Stored : Channel → SignedState → Type 0
Stored c ss = (k : ℕ) × (lookup k c.signed_state_for_turn_num ≡ some ss)

crank_withdrawal-Stage :
    (o : Objective) (latest : SignedState) (effects : SideEffects)
    → o.status ≡ approved
    → effects.transactions_to_submit ≡ []
    → Stored o.c latest
    → IsFinalized o.c
    → Stage o (crank_withdrawal o latest effects)
unfolding crank_withdrawal
crank_withdrawal-Stage o latest effects active none_yet stored final =
    elim (Bool-cases (fully_withdrawn o)) [
      | inl empty ↦ rw empty (record {
        withdrawal = inl (none_yet, refl);
        defunded = inr (refl, refl, with_status o completed ∙ empty, final);
      })
      | inr funds ↦ elim (Bool-cases (o.c.my_index == 0 && not o.transaction_submitted)) [
        | inr silent ↦
            rw (funds, silent) (record { withdrawal = inl (none_yet, refl); defunded = inl active })
        | inl submits ↦
            rw (funds, submits)
              (record {
                withdrawal = inr (
                  ground (arith, submits),
                  record {
                    by = latest;
                    withdraws = ap (λ l. l ++ withdraw_all_transaction o.c.id latest ∷ []) none_yet;
                    stored = stored;
                    first = ground (arith, submits);
                    finalized = final;
                    funds_left = resubmitted o true ∙ funds;
                    recorded = refl;
                  },
                );
                defunded = inl active;
              })
      ]
    ]

crank_supported-Stage :
    (o : Objective) (latest : SignedState) (effects : SideEffects)
    → o.status ≡ approved
    → effects.transactions_to_submit ≡ []
    → Stored o.c latest
    → Stage o (crank_supported o latest effects)
unfolding crank_supported
crank_supported-Stage o latest effects active none_yet stored =
    elim (Result-cases (latest_supported_state o.c)) [
      | inr (e, h) ↦
          rw (h, crank_supported)
            (record { withdrawal = inl (none_yet, refl); defunded = inl active })
      | inl (s, h) ↦ elim (Bool-cases s.is_final) [
        | inl final ↦
            rw (h, crank_supported)
              (rw final (
                crank_withdrawal-Stage o latest effects active none_yet stored
                  (record { state = s; supported = h; final = final })))
        | inr running ↦
            rw (h, crank_supported)
              (rw running (record { withdrawal = inl (none_yet, refl); defunded = inl active }))
      ]
    ]

latest-Has : (m : Map SignedState) → (length m == 0) ≡ false → Has (latest_turn 0 (keys m)) m
latest-Has [] h = absurd (ground (arith, h))
latest-Has (e ∷ m) h = latest_turn-Has e m

stored_state :
    (k : ℕ) (m : Map SignedState) (ss : SignedState) → lookup k m ≡ some ss → state_at k m ≡ ss
stored_state k m ss h = rw (h, state_at) refl

-- The latest signed state is one that the channel stores, for the latest turn.
latest_signed_state-Stored :
    (c : Channel) (ss : SignedState)
    → latest_signed_state c ≡ ok ss
    → lookup (latest_key c) c.signed_state_for_turn_num ≡ some ss
unfolding latest_signed_state
latest_signed_state-Stored c ss e = elim (Bool-cases (length c.signed_state_for_turn_num == 0)) [
  | inl none_signed ↦ absurd (ground (arith, none_signed, e))
  | inr some_signed ↦
      let (x, h) = latest-Has c.signed_state_for_turn_num some_signed in
      let given : state_at (latest_key c) c.signed_state_for_turn_num ≡ ss =
        ground (arith, some_signed, e) in
      h ∙ ap some (sym (stored_state (latest_key c) c.signed_state_for_turn_num x h) ∙ given)
]

Has-Stored :
    (k : ℕ) (c : Channel)
    → Has k c.signed_state_for_turn_num
    → Stored c (state_at k c.signed_state_for_turn_num)
Has-Stored k c (ss, h) = (k, h ∙ ap some (sym (stored_state k c.signed_state_for_turn_num ss h)))

module _ (lib : Library) (key : Bytes) where
  failed-Stage :
      (o : Objective) (w : WaitingFor) (x : Error) (r : Cranked)
      → o.status ≡ approved
      → fail o w x ≡ ok r
      → Stage o r
  failed-Stage o w x r active e =
      subst (Stage o) (fail-eq-ok o w x r e)
        (record { withdrawal = inl (refl, refl); defunded = inl active })

  crank_signing-Stage :
      (o : Objective) (latest : SignedState) (r : Cranked)
      → o.status ≡ approved
      → lookup (latest_key o.c) o.c.signed_state_for_turn_num ≡ some latest
      → crank_signing lib key o latest ≡ ok r
      → Stage o r
  unfolding crank_signing
  crank_signing-Stage o latest r active known e =
      let (s, hs, e1) = >>=-eq-ok (state_to_sign latest.state) _ e in
      elim (Result-cases (sign_and_add_state lib o.c s key)) [
        | inr (x, h) ↦ failed-Stage o waiting_for_finalization x r active (ground (arith, h, e1))
        | inl ((ss, c), h) ↦
            let signed : Objective = record o { c = c } in
            let after = state_at (latest_key o.c) c.signed_state_for_turn_num in
            let effects = record no_effects {
              messages_to_send = create_signed_state_messages (id_of o) ss o.c.my_index;
            } in
            let made : crank_supported signed after effects ≡ r = ground (arith, h, e1) in
            let st = crank_supported-Stage signed after effects active refl (
              Has-Stored (latest_key o.c) c
                (sign_and_add_state-Has lib (latest_key o.c) o.c c s key ss h (latest, known))) in
            subst (Stage o) made (record { withdrawal = st.withdrawal; defunded = st.defunded })
      ]

  crank_latest-Stage :
      (o : Objective) (latest : SignedState) (r : Cranked)
      → o.status ≡ approved
      → lookup (latest_key o.c) o.c.signed_state_for_turn_num ≡ some latest
      → crank_latest lib key o latest ≡ ok r
      → Stage o r
  unfolding crank_latest
  crank_latest-Stage o latest r active known e =
      elim (Bool-cases
        (not latest.state.is_final || not (has_signature_for_participant latest o.c.my_index))) [
          | inr signed ↦
              let made : crank_supported o latest no_effects ≡ r = ground (arith, signed, e) in
              subst (Stage o) made
                (crank_supported-Stage o latest no_effects active refl (latest_key o.c, known))
          | inl unsigned ↦ crank_signing-Stage o latest r active known (ground (arith, unsigned, e))
        ]

  pub clone_kept :
      (o u : Objective)
      → clone lib o ≡ ok u
      → (u.status ≡ o.status) × (u.transaction_submitted ≡ o.transaction_submitted)
  unfolding clone
  clone_kept o u e =
      let (c, _, e1) = >>=-eq-ok (Updates.clone lib o.c) _ e in
      (
        ap (λ x. x.status) (sym (ok_injective e1)),
        ap (λ x. x.transaction_submitted) (sym (ok_injective e1)),
      )

  -- A crank of an objective that is not approved does nothing but say so.
  pub crank_inactive :
      (o : Objective) (r : Cranked)
      → is_approved o.status ≡ false
      → crank lib key o ≡ ok r
      → IsQuiet o r × (r.effects ≡ no_effects) × (r.failure ≡ some not_approved)
  unfolding crank
  crank_inactive o r idle e =
      let (u, hu, e1) = >>=-eq-ok (clone lib o) _ e in
      let (status, submitted) = clone_kept o u hu in
      let same : is_approved u.status ≡ false = ap is_approved status ∙ idle in
      let stopped : fail u waiting_for_nothing not_approved ≡ ok r = ground (arith, same, e1) in
      subst (λ x. IsQuiet o x × (x.effects ≡ no_effects) × (x.failure ≡ some not_approved))
        (fail-eq-ok u waiting_for_nothing not_approved r stopped) ((refl, submitted), refl, refl)

  -- A crank of an approved objective submits nothing, or one withdrawal: by the first participant,
  -- of a channel that supports a final state and holds funds on chain, if none was submitted
  -- before, with a signed state that the channel stores, and it is recorded as submitted. It leaves
  -- the objective approved, or completed with a final state supported and nothing left on chain.
  pub crank-Defunding :
      (o : Objective) (r : Cranked) → o.status ≡ approved → crank lib key o ≡ ok r → Stage o r
  unfolding crank
  crank-Defunding o r active e =
      let (u, hu, e1) = >>=-eq-ok (clone lib o) _ e in
      let (status, submitted) = clone_kept o u hu in
      let running : is_approved u.status ≡ true = ap is_approved (status ∙ active) in
      let s : Stage u r = elim (Result-cases (latest_signed_state u.c)) [
        | inl (latest, h) ↦
            crank_latest-Stage u latest r (status ∙ active)
              (latest_signed_state-Stored u.c latest h) (ground (arith, running, h, e1))
        | inr (x, h) ↦
            failed-Stage u waiting_for_nothing no_signed_states r (status ∙ active)
              (ground (arith, running, h, e1))
      ] in
      record {
        withdrawal = elim s.withdrawal [
          | inl (quiet, kept) ↦ inl (quiet, kept ∙ submitted)
          | inr (fresh, d) ↦ inr (sym submitted ∙ fresh, d)
        ];
        defunded = s.defunded;
      }
