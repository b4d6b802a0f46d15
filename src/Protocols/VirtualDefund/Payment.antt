-- ===== src/Protocols/VirtualDefund/Payment.antt =====
-- What the final state of a virtual channel pays, and what a peer reads from it.
use go_nitro.Base.{
  ◌≡◌, refl, ap, sym, subst, ◌∙◌, true, some, [], ◌∷◌, get_elem?, ℤ, ◌+ℤ◌, ◌-ℤ◌, int_laws, ok,
  >>=-eq-ok, ok_injective,
}
use go_nitro.Outcome.Allocation.{Allocation, Allocations, total}
use go_nitro.Outcome.Allocation.Totals.{amount_sum, total-eq-sum}
use go_nitro.Outcome.Exit.{SingleAssetExit, clone_single}
use go_nitro.State.Data.{State, state_from_fixed_and_variable_part}
use go_nitro.Channel.{Channel, pre_fund_state}
use go_nitro.Protocols.VirtualDefund.{
  Objective, pay, final_outcome, final_state, calculate_paid_to_bob,
}
use go_nitro.Protocols.VirtualDefund.Signed.{clone_single-eq}

pay-sum : (a b : Allocations) (paid : ℤ) → pay a paid ≡ ok b → amount_sum b ≡ amount_sum a
unfolding pay
pay-sum [] b paid e = cc
pay-sum (x ∷ []) b paid e = cc
pay-sum (x ∷ y ∷ rest) b paid e = sym (ap amount_sum (ok_injective e)) ∙ omega int_laws

-- The first two allocations before and after a payment, and the same further ones.
pub record Paid (before after : Allocations) (paid : ℤ) : Type 0 where
  pub first : Allocation
  pub second : Allocation
  pub rest : Allocations
  pub first_after : Allocation
  pub second_after : Allocation
  pub was : before ≡ first ∷ second ∷ rest
  pub is : after ≡ first_after ∷ second_after ∷ rest
  pub taken : first_after.amount +ℤ paid ≡ first.amount
  pub given : second_after.amount ≡ second.amount +ℤ paid
  pub first_owner : first_after.destination ≡ first.destination
  pub second_owner : second_after.destination ≡ second.destination

pay-Paid : (a b : Allocations) (paid : ℤ) → pay a paid ≡ ok b → Paid a b paid
unfolding pay
pay-Paid [] b paid e = cc
pay-Paid (x ∷ []) b paid e = cc
pay-Paid (x ∷ y ∷ rest) b paid e = record {
  first = x;
  second = y;
  rest = rest;
  first_after = record x { amount = x.amount -ℤ paid };
  second_after = record y { amount = y.amount +ℤ paid };
  was = refl;
  is = sym (ok_injective e);
  taken = omega int_laws;
  given = refl;
  first_owner = refl;
  second_owner = refl;
}

-- Where there is a final outcome, the initial outcome has two allocations at least, and the payment
-- moves its amount from the first to the second: the first loses it, the second gains it, both keep
-- their destinations, and the further allocations and the asset stay. The total stays too.
pub final_outcome-total :
    (o : Objective) (s : SingleAssetExit)
    → final_outcome o ≡ ok s
    → Paid o.initial_outcome.allocations s.allocations o.paid_to_bob
      × (total s.allocations ≡ total o.initial_outcome.allocations)
      × (s.asset ≡ o.initial_outcome.asset)
unfolding final_outcome
final_outcome-total o s e =
    let (a, ha, e1) =
      >>=-eq-ok (pay (clone_single o.initial_outcome).allocations o.paid_to_bob) _ e in
    let same = clone_single-eq o.initial_outcome in
    let made = sym (ok_injective e1) in
    let moved = pay-Paid (clone_single o.initial_outcome).allocations a o.paid_to_bob ha in
    (
      subst (λ x. Paid x.allocations s.allocations o.paid_to_bob) same
          (subst
            (λ x. Paid (clone_single o.initial_outcome).allocations x.allocations o.paid_to_bob)
            (ok_injective e1) moved),
      total-eq-sum s.allocations
          ∙ ap (λ x. amount_sum x.allocations) made
          ∙ pay-sum (clone_single o.initial_outcome).allocations a o.paid_to_bob ha
          ∙ ap (λ x. amount_sum x.allocations) same
          ∙ sym (total-eq-sum o.initial_outcome.allocations),
      ap (λ x. x.asset) made ∙ ap (λ x. x.asset) same,
    )

-- Bob's allocation after the payment.
pay-second :
    (a b : Allocations) (paid : ℤ)
    → pay a paid ≡ ok b
    → (x y : Allocation) × (get_elem? a 1 ≡ some x)
      × (get_elem? b 1 ≡ some y)
      × (y.amount -ℤ x.amount ≡ paid)
unfolding pay
pay-second [] b paid e = cc
pay-second (x ∷ []) b paid e = cc
pay-second (x ∷ y ∷ rest) b paid e = (
  y,
  record y { amount = y.amount +ℤ paid },
  refl,
  ap (λ l. get_elem? l 1) (sym (ok_injective e)),
  omega int_laws,
)

final_outcome-second :
    (o : Objective) (s : SingleAssetExit)
    → final_outcome o ≡ ok s
    → (x y : Allocation) × (get_elem? o.initial_outcome.allocations 1 ≡ some x)
      × (get_elem? s.allocations 1 ≡ some y)
      × (y.amount -ℤ x.amount ≡ o.paid_to_bob)
unfolding final_outcome
final_outcome-second o s e =
    let (a, ha, e1) =
      >>=-eq-ok (pay (clone_single o.initial_outcome).allocations o.paid_to_bob) _ e in
    let (x, y, hx, hy, d) =
      pay-second (clone_single o.initial_outcome).allocations a o.paid_to_bob ha in
    (
      x,
      y,
      ap (λ t. get_elem? t.allocations 1) (sym (clone_single-eq o.initial_outcome)) ∙ hx,
      ap (λ t. get_elem? t.allocations 1) (sym (ok_injective e1)) ∙ hy,
      d,
    )

final_state-outcome :
    (o : Objective) (s : State)
    → final_state o ≡ ok s
    → (x : SingleAssetExit) × (final_outcome o ≡ ok x) × (s.outcome ≡ x ∷ []) × (s.is_final ≡ true)
unfolding final_state state_from_fixed_and_variable_part
final_state-outcome o s e =
    let (x, hx, e1) = >>=-eq-ok (final_outcome o) _ e in
    let made = sym (ok_injective e1) in (x, hx, ap (λ t. t.outcome) made, ap (λ t. t.is_final) made)

-- A peer whose channel has the initial outcome of an objective in its prefund state reads from the
-- objective's final state the amount that the objective pays to Bob.
pub calculate_paid_to_bob-final_state :
    (o : Objective) (s : State) (v : Channel)
    → final_state o ≡ ok s
    → get_elem? (pre_fund_state v).outcome 0 ≡ some o.initial_outcome
    → calculate_paid_to_bob s (some v) ≡ ok o.paid_to_bob
unfolding calculate_paid_to_bob
calculate_paid_to_bob-final_state o s v e same =
    let (x, hx, outcome, final) = final_state-outcome o s e in
    let (a, b, ha, hb, d) = final_outcome-second o x hx in rw (final, same, outcome, ha, hb, d) refl
