-- ===== src/Outcome/Allocation/Totals.antt =====
-- The totals of allocations as plain sums.
use go_nitro.Base.{◌≡◌, ◌∙◌, [], ◌∷◌, ◌++◌, All, ℤ, pos, ◌+ℤ◌, ◌≤ℤ◌, int_laws, if◌then◌else◌, ◌==◌}
use go_nitro.Types.Destination.{Destination}
use go_nitro.Outcome.Allocation.{
  Allocation, Allocations, total_from, total, total_for_from, total_for,
}

abbrev pub amount_sum : Allocations → ℤ
amount_sum [] = pos 0
amount_sum (x ∷ a) = x.amount +ℤ amount_sum a

abbrev pub sum_for : Destination → Allocations → ℤ
sum_for d [] = pos 0
sum_for d (x ∷ a) = (if x.destination == d then x.amount else pos 0) +ℤ sum_for d a

abbrev pub IsNonNegative : Allocation → Type 0
IsNonNegative x = pos 0 ≤ℤ x.amount

pub total_from_lem : (acc : ℤ) (a : Allocations) → total_from acc a ≡ acc +ℤ amount_sum a
unfolding total_from
total_from_lem acc [] = omega int_laws
total_from_lem acc (x ∷ a) = total_from_lem (acc +ℤ x.amount) a ∙ omega int_laws

pub total-eq-sum : (a : Allocations) → total a ≡ amount_sum a
unfolding total
total-eq-sum a = total_from_lem (pos 0) a ∙ omega int_laws

pub total_for_from_lem :
    (d : Destination) (acc : ℤ) (a : Allocations) → total_for_from d acc a ≡ acc +ℤ sum_for d a
unfolding total_for_from
total_for_from_lem d acc [] = omega int_laws
total_for_from_lem d acc (x ∷ a) =
    total_for_from_lem d (if x.destination == d then acc +ℤ x.amount else acc) a ∙ grind int_laws

pub total_for-eq-sum : (d : Destination) (a : Allocations) → total_for d a ≡ sum_for d a
unfolding total_for
total_for-eq-sum d a = total_for_from_lem d (pos 0) a ∙ omega int_laws

pub amount_sum-append : (a b : Allocations) → amount_sum (a ++ b) ≡ amount_sum a +ℤ amount_sum b
amount_sum-append [] b = omega int_laws
amount_sum-append (x ∷ a) b = grind (int_laws, amount_sum-append a b)

pub amount_sum_nonneg : (a : Allocations) → All IsNonNegative a → pos 0 ≤ℤ amount_sum a
amount_sum_nonneg [] h = omega int_laws
amount_sum_nonneg (x ∷ a) h = omega (int_laws, amount_sum_nonneg a h.1)
