-- ===== src/Protocols/DirectFund/Safety.antt =====
-- When a direct funding objective deposits, signs and completes.
use go_nitro.Base.{
  ◌≡◌, ◌⊎◌, inl, inr, refl, ap, sym, ◌∙◌, true, false, Bool-cases, not, ◌&&◌, some, [], ◌∷◌, ◌++◌,
  Error, ok, >>=-eq-ok, ok_injective, arith, subst, Result-cases, is_panic, not_approved,
}
use go_nitro.Types.Destination.{Bytes}
use go_nitro.Types.Funds.{Funds, is_non_zero}
use go_nitro.State.Library.{Library}
use go_nitro.Channel.{
  Channel, pre_fund_complete, post_fund_complete, pre_fund_signed_by_me, post_fund_signed_by_me,
}
use go_nitro.Channel.Updates.{sign_and_add_prefund, sign_and_add_postfund}
use go_nitro.Protocols.{
  stop, fail, SideEffects, no_effects, deposit_transaction, completed, approved, is_approved,
}
use go_nitro.Protocols.DirectFund.{
  Objective, clone, funding_complete, safe_to_deposit, amount_to_deposit,
}
use go_nitro.Channel.Updates
use go_nitro.Channel.{post_fund_state}
use go_nitro.Channel.Kept.{sign_and_add_state-IsKept}
use go_nitro.Protocols.DirectFund.{thresholds_met}
use go_nitro.Protocols.DirectFund.Crank.{
  waiting_for_my_turn_to_fund, waiting_for_complete_funding, sign_into, announce,
  waiting_for_complete_post_fund, waiting_for_complete_prefund, WaitingFor, waiting_for_nothing,
  Cranked, finish, crank_post_fund, crank_funding, crank_signed, crank_pre_fund, crank,
}

-- The crank submits one deposit, of what is missing, when the prefund state is complete, all that
-- must be on chain first is there, and the channel is not funded yet; and it is recorded.
pub record IsDeposit (r : Cranked) : Type 0 where
  pub amount : Funds
  pub deposits : r.effects.transactions_to_submit ≡ deposit_transaction r.objective.c.id amount ∷ []
  pub due : amount_to_deposit r.objective ≡ ok amount
  pub some_due : is_non_zero amount ≡ true
  pub safe : safe_to_deposit r.objective ≡ ok true
  pub unfunded : funding_complete r.objective ≡ false
  pub pre_funded : pre_fund_complete r.objective.c ≡ true
  pub recorded : r.objective.transaction_submitted ≡ true

-- Nothing is submitted, and nothing is recorded as submitted.
abbrev pub IsQuiet : Objective → Cranked → Type 0
IsQuiet o r =
    (r.effects.transactions_to_submit ≡ [])
    × (r.objective.transaction_submitted ≡ o.transaction_submitted)

-- The objective is approved, or it is completed, the channel is funded and its postfund state is
-- complete.
abbrev pub IsFunded : Cranked → Type 0
IsFunded r =
    (r.objective.status ≡ approved)
    ⊎ (r.objective.status ≡ completed)
      × (r.waiting_for ≡ waiting_for_nothing)
      × (funding_complete r.objective ≡ true)
      × (post_fund_complete r.objective.c ≡ true)

pub record Stage (o : Objective) (r : Cranked) : Type 0 where
  pub deposit : IsQuiet o r ⊎ (o.transaction_submitted ≡ false) × IsDeposit r
  pub funded : IsFunded r

finish-IsFunded :
    (o : Objective) (effects : SideEffects)
    → o.status ≡ approved
    → funding_complete o ≡ true
    → IsFunded (finish o effects)
      × ((finish o effects).effects.transactions_to_submit ≡ effects.transactions_to_submit)
      × ((finish o effects).objective.transaction_submitted ≡ o.transaction_submitted)
unfolding finish funding_complete
finish-IsFunded o effects active full = elim (Bool-cases (post_fund_complete o.c)) [
  | inl all ↦ rw all (inr (refl, refl, full, all), refl, refl)
  | inr partial ↦ rw partial (inl active, refl, refl)
]

funding_kept :
    (o : Objective) (c : Channel)
    → c.on_chain_funding ≡ o.c.on_chain_funding
    → funding_complete (sign_into o c) ≡ funding_complete o
unfolding funding_complete
funding_kept o c same = ap (λ h. thresholds_met h o.fully_funded_threshold) same

failed :
    (o : Objective) (r : Cranked) (w : WaitingFor) (x : Error)
    → o.status ≡ approved
    → fail o w x ≡ ok r
    → IsFunded r × IsQuiet o r
failed o r w x active e = elim (Bool-cases (is_panic x)) [
  | inl panics ↦ absurd (ground (arith, panics, e))
  | inr returns ↦
      let stopped : Cranked = record {
        objective = o;
        effects = no_effects;
        waiting_for = w;
        failure = some x;
      } in
      let same : stopped ≡ r = ground (arith, returns, e) in
      subst (λ y. IsFunded y × IsQuiet o y) same (inl active, (refl, refl))
]

same_amount :
    (o : Objective)
    → amount_to_deposit (record o { transaction_submitted = true }) ≡ amount_to_deposit o
unfolding amount_to_deposit
same_amount o = refl

same_safety :
    (o : Objective)
    → safe_to_deposit (record o { transaction_submitted = true }) ≡ safe_to_deposit o
unfolding safe_to_deposit
same_safety o = refl

same_funding :
    (o : Objective)
    → funding_complete (record o { transaction_submitted = true }) ≡ funding_complete o
unfolding funding_complete
same_funding o = refl

abbrev with_deposit : Objective → SideEffects → Funds → SideEffects
with_deposit o effects amount = record effects {
  transactions_to_submit = effects.transactions_to_submit ++ deposit_transaction o.c.id amount ∷ [];
}

module _ (lib : Library) (key : Bytes) where
  crank_post_fund-IsFunded :
      (o : Objective) (effects : SideEffects) (r : Cranked)
      → o.status ≡ approved
      → funding_complete o ≡ true
      → effects.transactions_to_submit ≡ []
      → crank_post_fund lib key o effects ≡ ok r
      → IsFunded r × IsQuiet o r
  unfolding crank_post_fund sign_and_add_postfund
  crank_post_fund-IsFunded o effects r active full none_yet e =
      elim (Bool-cases (post_fund_signed_by_me o.c)) [
        | inl mine ↦
            let (fin, same, submitted) = finish-IsFunded o effects active full in
            let made : finish o effects ≡ r = ground (arith, mine, e) in
            subst (λ x. IsFunded x × IsQuiet o x) made (fin, (same ∙ none_yet, submitted))
        | inr unsigned ↦ elim (Result-cases (sign_and_add_postfund lib o.c key)) [
          | inl ((ss, c), h) ↦
              let kept = sign_and_add_state-IsKept lib o.c c (post_fund_state o.c) key ss h in
              let signed : Objective = sign_into o c in
              let (fin, same, submitted) =
                finish-IsFunded signed (announce signed effects ss) active
                  (funding_kept o c kept.holdings ∙ full) in
              let made : finish signed (announce signed effects ss) ≡ r =
                ground (arith, unsigned, h, e) in
              subst (λ x. IsFunded x × IsQuiet o x) made (fin, (same ∙ none_yet, submitted))
          | inr (x, h) ↦
              let stopped : fail o waiting_for_complete_post_fund x ≡ ok r =
                ground (arith, unsigned, h, e) in
              failed o r waiting_for_complete_post_fund x active stopped
        ]
      ]

  crank_funding-Stage :
      (o : Objective) (effects : SideEffects) (r : Cranked)
      → o.status ≡ approved
      → pre_fund_complete o.c ≡ true
      → effects.transactions_to_submit ≡ []
      → crank_funding lib key o effects ≡ ok r
      → Stage o r
  unfolding crank_funding
  crank_funding-Stage o effects r active pre none_yet e =
      let (amount, ha, e1) = >>=-eq-ok (amount_to_deposit o) _ e in
      let (safe, hs, e2) = >>=-eq-ok (safe_to_deposit o) _ e1 in
      elim (Bool-cases (funding_complete o)) [
        | inl full ↦
            let done : crank_post_fund lib key o effects ≡ ok r = ground (arith, full, e2) in
            let (f, quiet) = crank_post_fund-IsFunded o effects r active full none_yet done in
            record { deposit = inl quiet; funded = f }
        | inr short ↦ elim (Bool-cases safe) [
          | inr unsafe ↦
              let waits : stop o effects waiting_for_my_turn_to_fund ≡ r =
                ground (arith, short, unsafe, e2) in
              subst (Stage o) waits (record { deposit = inl (none_yet, refl); funded = inl active })
          | inl fine ↦ elim (Bool-cases (is_non_zero amount && not o.transaction_submitted)) [
            | inl due ↦
                let paid : Cranked =
                  stop (record o { transaction_submitted = true }) (with_deposit o effects amount)
                    waiting_for_complete_funding in
                let waits : paid ≡ r = ground (arith, short, fine, due, e2) in
                subst (Stage o) waits (record {
                  deposit = inr (
                    ground (arith, due),
                    record {
                      amount = amount;
                      deposits = ap (λ l. l ++ deposit_transaction o.c.id amount ∷ []) none_yet;
                      due = same_amount o ∙ ha;
                      some_due = ground (arith, due);
                      safe = same_safety o ∙ hs ∙ ap ok fine;
                      unfunded = same_funding o ∙ short;
                      pre_funded = pre;
                      recorded = refl;
                    },
                  );
                  funded = inl active;
                })
            | inr not_due ↦
                let waits : stop o effects waiting_for_complete_funding ≡ r =
                  ground (arith, short, fine, not_due, e2) in
                subst (Stage o) waits
                  (record { deposit = inl (none_yet, refl); funded = inl active })
          ]
        ]
      ]

  crank_signed-Stage :
      (o : Objective) (effects : SideEffects) (r : Cranked)
      → o.status ≡ approved
      → effects.transactions_to_submit ≡ []
      → crank_signed lib key o effects ≡ ok r
      → Stage o r
  unfolding crank_signed
  crank_signed-Stage o effects r active none_yet e = elim (Bool-cases (pre_fund_complete o.c)) [
    | inl pre ↦ crank_funding-Stage o effects r active pre none_yet (ground (arith, pre, e))
    | inr partial ↦
        let waits : stop o effects waiting_for_complete_prefund ≡ r = ground (arith, partial, e) in
        subst (Stage o) waits (record { deposit = inl (none_yet, refl); funded = inl active })
  ]

  crank_pre_fund-Stage :
      (o : Objective) (r : Cranked)
      → o.status ≡ approved
      → crank_pre_fund lib key o ≡ ok r
      → Stage o r
  unfolding crank_pre_fund
  crank_pre_fund-Stage o r active e = elim (Bool-cases (pre_fund_signed_by_me o.c)) [
    | inl mine ↦ crank_signed-Stage o no_effects r active refl (ground (arith, mine, e))
    | inr unsigned ↦ elim (Result-cases (sign_and_add_prefund lib o.c key)) [
      | inl ((ss, c), h) ↦
          let signed : Objective = sign_into o c in
          let s =
            crank_signed-Stage signed (announce signed no_effects ss) r active refl
              (ground (arith, unsigned, h, e)) in
          record { deposit = s.deposit; funded = s.funded }
      | inr (x, h) ↦
          let stopped : fail o waiting_for_complete_prefund x ≡ ok r =
            ground (arith, unsigned, h, e) in
          let (f, quiet) = failed o r waiting_for_complete_prefund x active stopped in
          record { deposit = inl quiet; funded = f }
    ]
  ]

  pub clone_status :
      (o u : Objective)
      → clone lib o ≡ ok u
      → (u.status ≡ o.status) × (u.transaction_submitted ≡ o.transaction_submitted)
  unfolding clone
  clone_status o u e =
      let (c, _, e1) = >>=-eq-ok (Updates.clone lib o.c) _ e in
      (
        ap (λ x. x.status) (sym (ok_injective e1)),
        ap (λ x. x.transaction_submitted) (sym (ok_injective e1)),
      )

  -- A crank of an objective that is not approved does nothing but say so.
  pub crank_inactive :
      (o : Objective) (r : Cranked)
      → is_approved o.status ≡ false
      → crank lib key o ≡ ok r
      → IsQuiet o r × (r.effects ≡ no_effects) × (r.failure ≡ some not_approved)
  unfolding crank
  crank_inactive o r idle e =
      let (u, hu, e1) = >>=-eq-ok (clone lib o) _ e in
      let (status, submitted) = clone_status o u hu in
      let same : is_approved u.status ≡ false = ap is_approved status ∙ idle in
      let stopped : Cranked = record {
        objective = u;
        effects = no_effects;
        waiting_for = waiting_for_nothing;
        failure = some not_approved;
      } in
      let made : stopped ≡ r = ground (arith, same, e1) in
      subst (λ x. IsQuiet o x × (x.effects ≡ no_effects) × (x.failure ≡ some not_approved)) made
        ((refl, submitted), refl, refl)

  -- A crank of an approved objective submits nothing, or one deposit: of what is missing, under a
  -- complete prefund state, when all that must be on chain first is there and the channel is not
  -- funded, if none was submitted before, and it is recorded as submitted. It leaves the objective
  -- approved, or completed with the channel funded and the postfund state complete.
  pub crank-Stage :
      (o : Objective) (r : Cranked) → o.status ≡ approved → crank lib key o ≡ ok r → Stage o r
  unfolding crank
  crank-Stage o r active e =
      let (u, hu, e1) = >>=-eq-ok (clone lib o) _ e in
      let (status, submitted) = clone_status o u hu in
      let running : is_approved u.status ≡ true = ap is_approved (status ∙ active) in
      let s = crank_pre_fund-Stage u r (status ∙ active) (ground (arith, running, e1)) in
      record {
        deposit = elim s.deposit [
          | inl (quiet, kept) ↦ inl (quiet, kept ∙ submitted)
          | inr (fresh, d) ↦ inr (sym submitted ∙ fresh, d)
        ];
        funded = s.funded;
      }
