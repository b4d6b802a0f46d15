-- ===== src/Outcome/Exit.antt =====
-- channel/state/outcome/exit.go and deposit-safety.go: allocations per asset.
pub mod Laws
use go_nitro.Base.{
  ℕ, Bool, true, false, ◌&&◌, Option, none, some, List, [], ◌∷◌, length, ◌==◌, equal_bytes,
  if◌then◌else◌, ℤ, pos, ◌+ℤ◌, Map, lookup, insert, Result, ok, ◌>>=◌,
}
use go_nitro.Types.Destination.{Address, Destination, Bytes}
use go_nitro.Types.Funds.{Funds, amount_of}
use go_nitro.Types.Funds
use go_nitro.Outcome.Allocation.{Allocation, Allocations, GuaranteeMetadata}
use go_nitro.Outcome.Allocation

pub record SingleAssetExit : Type 0 where
  pub asset : Address
  pub metadata : Bytes
  pub allocations : Allocations

abbrev pub Exit : Type 0
Exit = List SingleAssetExit

-- `SingleAssetExit.Equal`
unfoldable pub equal_single : SingleAssetExit → SingleAssetExit → Bool
equal_single s r =
    equal_bytes s.metadata r.metadata
    && (s.asset == r.asset && Allocation.equal_all s.allocations r.allocations)

-- `SingleAssetExit.Clone`
unfoldable pub clone_single : SingleAssetExit → SingleAssetExit
clone_single s = record {
  asset = s.asset;
  metadata = s.metadata;
  allocations = Allocation.clone_all s.allocations;
}

-- The loop of `Exit.Equal`.
equal_entries : Exit → Exit → Bool
unfolding equal_single
equal_entries [] b = true
equal_entries (x ∷ a) [] = false
equal_entries (x ∷ a) (y ∷ b) = if equal_single x y then equal_entries a b else false

-- `Exit.Equal`
unfoldable pub equal : Exit → Exit → Bool
unfolding equal_entries
equal a b = if length a == length b then equal_entries a b else false

-- `Exit.Clone`
unfoldable pub clone : Exit → Exit
unfolding clone_single
clone [] = []
clone (s ∷ e) = clone_single s ∷ clone e

unfoldable pub total_from : Funds → Exit → Funds
total_from full_value [] = full_value
total_from full_value (s ∷ e) =
    total_from (insert s.asset (Allocation.total s.allocations) full_value) e

-- `Exit.TotalAllocated`
unfoldable pub total_allocated : Exit → Funds
unfolding total_from
total_allocated e = total_from [] e

unfoldable pub total_for_from : Destination → Funds → Exit → Funds
total_for_from dest total [] = total
total_for_from dest total (s ∷ e) =
    total_for_from dest (insert s.asset (Allocation.total_for dest s.allocations) total) e

-- `Exit.TotalAllocatedFor`
unfoldable pub total_allocated_for : Destination → Exit → Funds
unfolding total_for_from
total_allocated_for dest e = total_for_from dest [] e

easy_from : Map SingleAssetExit → Exit → Map SingleAssetExit
easy_from easy [] = easy
easy_from easy (s ∷ e) = easy_from (insert s.asset s easy) e

-- `Exit.toEasyExit`
unfoldable pub to_easy_exit : Exit → Map SingleAssetExit
unfolding easy_from
to_easy_exit e = easy_from [] e

-- `easyExit[asset].Allocations`, none for an asset that is missing.
abbrev pub allocations_of : Address → Map SingleAssetExit → Allocations
allocations_of asset easy = elim (lookup asset easy) [ none ↦ [] | some s ↦ s.allocations ]

-- One round of the loop of `Exit.Affords`.
abbrev pub affords_asset : Map SingleAssetExit → Funds → Address → Allocation → Bool
affords_asset easy funding asset given = elim (lookup asset funding) [
  | none ↦ false
  | some x ↦ Allocation.affords (allocations_of asset easy) given x
]

affords_from : Map SingleAssetExit → Funds → Map Allocation → Bool
affords_from easy funding [] = true
affords_from easy funding ((asset, given) ∷ rest) =
    if affords_asset easy funding asset given then affords_from easy funding rest else false

-- `Exit.Affords`
unfoldable pub affords : Exit → Map Allocation → Funds → Bool
unfolding affords_from
affords e allocation_map funding = affords_from (to_easy_exit e) funding allocation_map

module _ (left right : Destination) (left_funds right_funds : Funds) where
  -- `Exit.DivertToGuarantee`: an asset that is missing from the funds counts as zero.
  unfoldable pub divert_to_guarantee :
      (GuaranteeMetadata → Result Bytes) → Destination → Exit → Result Exit
  divert_to_guarantee encode target [] = ok []
  divert_to_guarantee encode target (s ∷ e) = do
    new_allocations ←
        Allocation.divert_to_guarantee left right (amount_of s.asset (Funds.clone left_funds))
          (amount_of s.asset (Funds.clone right_funds)) encode target s.allocations
    rest ← divert_to_guarantee encode target e
    ok (record s { allocations = new_allocations } ∷ rest)

safety_from : Destination → ℤ → Allocations → ℤ
safety_from interest sum [] = sum
safety_from interest sum (x ∷ a) =
    let rest = safety_from interest (sum +ℤ x.amount) a in
    if x.destination == interest then sum else rest

-- `SingleAssetExit.DepositSafetyThreshold`
unfoldable pub deposit_safety_single : Destination → SingleAssetExit → ℤ
unfolding safety_from
deposit_safety_single interest s = safety_from interest (pos 0) s.allocations

threshold_from : Destination → Funds → Exit → Funds
threshold_from interest threshold [] = threshold
threshold_from interest threshold (s ∷ e) =
    threshold_from interest (insert s.asset (deposit_safety_single interest s) threshold) e

-- `Exit.DepositSafetyThreshold`
unfoldable pub deposit_safety_threshold : Destination → Exit → Funds
unfolding threshold_from
deposit_safety_threshold interest e = threshold_from interest [] e
