-- ===== src/Outcome/Transfer/Laws.antt =====
-- What a transfer pays out, and which of the requested indices it serves.
use go_nitro.Base.{
  ℕ, suc, ◌≡◌, refl, Option, none, some, List, [], ◌∷◌, All, ℤ, pos, ◌+ℤ◌, ◌-ℤ◌, ◌≤ℤ◌, int_laws,
  arith, Bool, true, false,
}
use go_nitro.Outcome.Allocation.{Allocation, Allocations}
use go_nitro.Outcome.Allocation.Totals.{amount_sum, IsNonNegative, amount_sum_nonneg}
use go_nitro.Outcome.Transfer.{transfer_from, compute_transfer, selected, payout, big_min}

-- The amount of an exit allocation; the zero one pays nothing.
abbrev pub exit_amount : Option Allocation → ℤ
exit_amount none = pos 0
exit_amount (some x) = x.amount

abbrev pub exit_sum : List (Option Allocation) → ℤ
exit_sum [] = pos 0
exit_sum (x ∷ xs) = exit_amount x +ℤ exit_sum xs

-- Position by position, what stays and what is paid add up to the old allocation, and the
-- payment lies between zero and the old amount.
abbrev pub Split : Allocations → Allocations → List (Option Allocation) → Type 0
Split [] [] [] = Unit
Split (x ∷ a) (y ∷ b) (e ∷ es) =
    (y.amount +ℤ exit_amount e ≡ x.amount)
    × (pos 0 ≤ℤ exit_amount e)
    × (pos 0 ≤ℤ y.amount)
    × (y.destination ≡ x.destination)
    × Split a b es
Split _ _ _ = ⊥

big_min_bounds :
    (x y : ℤ)
    → pos 0 ≤ℤ x
    → pos 0 ≤ℤ y
    → (pos 0 ≤ℤ big_min x y) × (big_min x y ≤ℤ x) × (big_min x y ≤ℤ y)
unfolding big_min
big_min_bounds x y hx hy = ground arith

payout_lem :
    (b : Bool) (paid : ℤ) (x : Allocation)
    → pos 0 ≤ℤ paid
    → paid ≤ℤ x.amount
    → let (y, e) = payout b paid x in
      (y.amount +ℤ exit_amount e ≡ x.amount)
      × (pos 0 ≤ℤ exit_amount e)
      × (pos 0 ≤ℤ y.amount)
      × (y.destination ≡ x.destination)
      × (exit_amount e ≤ℤ paid)
unfolding payout
payout_lem true paid x h k = (omega int_laws, h, omega int_laws, refl, omega arith)
payout_lem false paid x h k = (omega int_laws, omega arith, omega arith, refl, h)

transfer_from-Split :
    (indices : List ℕ) (k i : ℕ) (surplus : ℤ) (a : Allocations)
    → All IsNonNegative a
    → pos 0 ≤ℤ surplus
    → let (b, es) = transfer_from indices k i surplus a in Split a b es × (exit_sum es ≤ℤ surplus)
unfolding transfer_from
transfer_from-Split indices k i surplus [] h p = (tt, p)
transfer_from-Split indices k i surplus (x ∷ a) h p =
    let paid = big_min x.amount surplus in
    let bounds = big_min_bounds x.amount surplus h.0 p in
    let here = payout_lem (selected indices k i) paid x bounds.0 bounds.1 in
    let rest = transfer_from-Split indices k (suc i) (surplus -ℤ paid) a h.1 (omega int_laws) in
    ((here.0, here.1, here.2, here.3, rest.0), omega int_laws)

-- A transfer splits every allocation into what stays and what is paid, neither negative, and pays
-- no more than the holdings.
pub compute_transfer-Split :
    (holdings : ℤ) (a : Allocations) (indices : List ℕ)
    → All IsNonNegative a
    → pos 0 ≤ℤ holdings
    → let (b, es) = compute_transfer holdings a indices in Split a b es × (exit_sum es ≤ℤ holdings)
unfolding compute_transfer
compute_transfer-Split holdings a indices h p = transfer_from-Split indices 0 0 holdings a h p

transfer_whole :
    (i : ℕ) (surplus : ℤ) (a : Allocations)
    → All IsNonNegative a
    → pos 0 ≤ℤ surplus
    → exit_sum (transfer_from [] 0 i surplus a).1 ≡ big_min (amount_sum a) surplus
unfolding transfer_from selected payout big_min
transfer_whole i surplus [] h p = ground arith
transfer_whole i surplus (x ∷ a) h p =
    rw
      (transfer_whole (suc i) (surplus -ℤ big_min x.amount surplus) a h.1
        (omega (int_laws, big_min_bounds x.amount surplus h.0 p)))
      (grind (int_laws, amount_sum_nonneg a h.1))

-- With no index given, the payments add up to the smaller of the total and the holdings.
pub compute_transfer_whole :
    (holdings : ℤ) (a : Allocations)
    → All IsNonNegative a
    → pos 0 ≤ℤ holdings
    → exit_sum (compute_transfer holdings a []).1 ≡ big_min (amount_sum a) holdings
unfolding compute_transfer
compute_transfer_whole holdings a h p = transfer_whole 0 holdings a h p

selected_first : (j : ℕ) (rest : List ℕ) (i : ℕ) → selected (j ∷ rest) 0 i ≡ selected (j ∷ []) 0 i
unfolding selected
selected_first j rest i = ground arith

transfer_from_first :
    (j : ℕ) (rest : List ℕ) (i : ℕ) (surplus : ℤ) (a : Allocations)
    → transfer_from (j ∷ rest) 0 i surplus a ≡ transfer_from (j ∷ []) 0 i surplus a
unfolding transfer_from
transfer_from_first j rest i surplus [] = refl
transfer_from_first j rest i surplus (x ∷ a) = rw (
  selected_first j rest i,
  transfer_from_first j rest (suc i) (surplus -ℤ big_min x.amount surplus) a,
)

-- Of several requested indices only the first is served: the counter `k` stays 0.
pub compute_transfer_first :
    (holdings : ℤ) (a : Allocations) (j : ℕ) (rest : List ℕ)
    → compute_transfer holdings a (j ∷ rest) ≡ compute_transfer holdings a (j ∷ [])
unfolding compute_transfer
compute_transfer_first holdings a j rest = transfer_from_first j rest 0 holdings a
