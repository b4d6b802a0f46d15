-- ===== src/Types/Funds.antt =====
-- types/funds.go: a map from assets to amounts.
pub mod Laws
use go_nitro.Base.{
  ℕ, Bool, true, false, ◌&&◌, Option, none, some, List, [], ◌∷◌, ◌++◌, ℤ, pos, ◌+ℤ◌, ltb_ℤ, Map,
  lookup, insert, if◌then◌else◌,
}

abbrev pub Funds : Type 0
Funds = Map ℤ

-- The amount of an asset, zero if it is missing.
abbrev pub amount_of : ℕ → Funds → ℤ
amount_of k f = elim (lookup k f) [ none ↦ pos 0 | some v ↦ v ]

-- `Funds.IsNonZero`
unfoldable pub is_non_zero : Funds → Bool
is_non_zero [] = false
is_non_zero ((k, v) ∷ h) = if ltb_ℤ (pos 0) v then true else is_non_zero h

-- The inner loop of `Sum`.
unfoldable pub add_entries : Funds → Funds → Funds
add_entries sum [] = sum
add_entries sum ((asset, amount) ∷ f) =
    add_entries (insert asset (amount_of asset sum +ℤ amount) sum) f

unfoldable pub sum_from : Funds → List Funds → Funds
sum_from sum [] = sum
sum_from sum (f ∷ fs) = sum_from (add_entries sum f) fs

-- `Sum`
unfoldable pub sum : List Funds → Funds
unfolding sum_from add_entries
sum a = sum_from [] a

-- `Funds.Add`
unfoldable pub add : Funds → List Funds → Funds
unfolding sum
add h a = sum (a ++ h ∷ [])

-- One round of the loop of `canAfford`.
abbrev pub affords_entry : Funds → ℕ → ℤ → Bool
affords_entry f asset amount =
    if ltb_ℤ (pos 0) amount
    then (elim (lookup asset f) [
      | none ↦ false
      | some held ↦ if ltb_ℤ held amount then false else true
    ])
    else true

-- `Funds.canAfford`
unfoldable pub can_afford : Funds → Funds → Bool
can_afford f [] = true
can_afford f ((asset, amount) ∷ g) = if affords_entry f asset amount then can_afford f g else false

-- `Funds.Equal`
unfoldable pub equal : Funds → Funds → Bool
unfolding can_afford
equal f g = can_afford f g && can_afford g f

-- `Funds.Clone`
unfoldable pub clone : Funds → Funds
unfolding sum
clone f = sum (f ∷ [] ∷ [])
