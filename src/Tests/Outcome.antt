-- ===== src/Tests/Outcome.antt =====
-- Allocations, exits, transfers and funds at concrete inputs.
use go_nitro.Base.{
  ℕ, ◌≡◌, ◌↔◌, refl, true, some, none, [], ◌∷◌, ◌++◌, pos, negsuc, ok, arith, inl, inr, ◌+ℤ◌, ◌≤ℤ◌,
  All, ok, Result, ◌-ℤ◌, int_laws, ◌∙◌,
}
use go_nitro.Types.Destination.{Bytes}
use go_nitro.Types.Funds.{Funds, amount_of}
use go_nitro.Outcome.Allocation.{
  Allocation, Allocations, GuaranteeMetadata, total, affords, divert_to_guarantee,
}
use go_nitro.Outcome.Allocation.Totals.{IsNonNegative}
use go_nitro.Outcome.Allocation.Affords.{Covers, affords_iff}
use go_nitro.Outcome.Allocation.Divert.{divert-total}
use go_nitro.Outcome.Exit.{SingleAssetExit, total_allocated}
use go_nitro.Outcome.Exit.Laws.{total_allocated_repeated}
use go_nitro.Outcome.Transfer.{compute_transfer}
use go_nitro.Outcome.Transfer.Laws.{Split, exit_sum, compute_transfer-Split, compute_transfer_first}

abbrev part : ℕ → ℕ → Allocation
part d n = record { destination = d; amount = pos n; allocation_type = 0; metadata = [] }

abbrev parts : Allocations
parts = part 1 5 ∷ part 2 7 ∷ []

abbrev sae : SingleAssetExit
sae = record { asset = 0; metadata = []; allocations = parts }

parts-IsNonNegative : All IsNonNegative parts
parts-IsNonNegative = (omega arith, (omega arith, tt))

affords_iff_example : (affords parts (part 2 7) (pos 12) ≡ true) ↔ Covers parts (part 2 7) (pos 12)
affords_iff_example = affords_iff parts (part 2 7) (pos 12) parts-IsNonNegative (omega arith)

abbrev encode : GuaranteeMetadata → Result Bytes
encode m = ok (m.left ∷ m.right ∷ [])

abbrev diverted : Allocations
diverted =
    part 1 2
    ∷ part 2 3
    ∷ record { destination = 9; amount = pos 7; allocation_type = 1; metadata = 1 ∷ 2 ∷ [] }
    ∷ []

divert_run : divert_to_guarantee 1 2 (pos 3) (pos 4) encode 9 parts ≡ ok diverted
unfolding divert_to_guarantee ◌+ℤ◌ ◌-ℤ◌
divert_run = refl

divert-total_example :
    (total diverted ≡ total parts)
    × ((front : Allocations) × (guarantee : Allocation) × (diverted ≡ front ++ guarantee ∷ [])
        × (guarantee.amount ≡ pos 3 +ℤ pos 4)
        × (guarantee.destination ≡ 9)
        × All IsNonNegative front)
divert-total_example =
    divert-total encode 1 2 9 (pos 3) (pos 4) parts diverted (inl (refl, (omega arith, tt)))
      (inr (omega arith, inl (refl, tt))) divert_run

abbrev other : SingleAssetExit
other = record { asset = 3; metadata = []; allocations = part 4 6 ∷ [] }

abbrev again : SingleAssetExit
again = record { asset = 0; metadata = []; allocations = part 4 6 ∷ [] }

repeated_run : amount_of 0 (total_allocated (sae ∷ again ∷ [])) ≡ pos 6
repeated_run = total_allocated_repeated sae again refl ∙ omega int_laws

compute_transfer-Split_example :
    let (b, es) = compute_transfer (pos 9) parts (1 ∷ []) in
    Split parts b es × (exit_sum es ≤ℤ pos 9)
compute_transfer-Split_example =
    compute_transfer-Split (pos 9) parts (1 ∷ []) parts-IsNonNegative (omega arith)

-- The second allocation is asked for and not paid.
transfer_run :
    compute_transfer (pos 20) parts (0 ∷ 1 ∷ [])
    ≡ (part 1 0 ∷ part 2 7 ∷ [], some (part 1 5) ∷ none ∷ [])
unfolding compute_transfer ◌-ℤ◌
transfer_run = refl

compute_transfer_first_example :
    compute_transfer (pos 20) parts (0 ∷ 1 ∷ []) ≡ compute_transfer (pos 20) parts (0 ∷ [])
compute_transfer_first_example = compute_transfer_first (pos 20) parts 0 (1 ∷ [])

abbrev held : Funds
held = (0, pos 5) ∷ (1, negsuc 2) ∷ []

abbrev same : Funds
same = (1, pos 0) ∷ (0, pos 5) ∷ []
