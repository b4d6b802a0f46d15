-- ===== src/Outcome/Exit/Laws.antt =====
-- Equality, totals and deposit safety of exits.
use go_nitro.Base.{
  ◌≡◌, ◌≢◌, ◌↔◌, refl, true, [], ◌∷◌, ◌++◌, All, ◌==◌, if◌then◌else◌, ℤ, pos, ◌+ℤ◌, ◌≤ℤ◌, ◌<ℤ◌,
  int_laws, arith, equal_bytes_iff, lookup, insert, none, lookup-insert, ◌∙◌, ap, zero-+ℤ,
}
use go_nitro.Types.Destination.{Address, Destination}
use go_nitro.Types.Funds.{Funds, amount_of}
use go_nitro.Types.Funds.Laws.{amount_of-insert}
use go_nitro.Outcome.Allocation.{Allocation, Allocations, affords, total, total_for}
use go_nitro.Outcome.Allocation.Equality.{equal_all_iff}
use go_nitro.Outcome.Allocation.Affords.{affords_iff}
use go_nitro.Outcome.Allocation.Divert.{Absent}
use go_nitro.Outcome.Allocation.Totals.{
  amount_sum, sum_for, IsNonNegative, total-eq-sum, total_for-eq-sum,
}
use go_nitro.Outcome.Exit.{
  SingleAssetExit, Exit, equal_single, equal, total_from, total_allocated, deposit_safety_single,
  safety_from,
}

equal_single_iff : (s r : SingleAssetExit) → (equal_single s r ≡ true) ↔ (s ≡ r)
unfolding equal_single
equal_single_iff s r = (
  λ h.
      ground
        (arith, equal_bytes_iff s.metadata r.metadata, equal_all_iff s.allocations r.allocations),
  λ e. rw e (
      ground
        (arith, equal_bytes_iff r.metadata r.metadata, equal_all_iff r.allocations r.allocations)),
)

equal_sound : (a b : Exit) → equal a b ≡ true → a ≡ b
unfolding equal
equal_sound [] [] h = refl
equal_sound [] (y ∷ b) h = ground arith
equal_sound (x ∷ a) [] h = ground arith
equal_sound (x ∷ a) (y ∷ b) h = ground (arith, equal_single_iff x y, equal_sound a b)

equal_refl : (a : Exit) → equal a a ≡ true
unfolding equal
equal_refl [] = refl
equal_refl (x ∷ a) = ground (arith, equal_single_iff x x, equal_refl a)

-- `Exit.Equal` holds exactly of equal exits, the order of the assets included.
pub equal_exits_iff : (a b : Exit) → (equal a b ≡ true) ↔ (a ≡ b)
equal_exits_iff a b = (equal_sound a b, λ e. rw e (equal_refl b))

-- No asset stands twice.
abbrev pub DistinctAssets : Exit → Type 0
DistinctAssets [] = Unit
DistinctAssets (s ∷ e) = All (λ r. r.asset ≢ s.asset) e × DistinctAssets e

-- What the exit allocates of one asset, added over all its entries.
abbrev pub asset_sum : Address → Exit → ℤ
asset_sum k [] = pos 0
asset_sum k (s ∷ e) = (if s.asset == k then amount_sum s.allocations else pos 0) +ℤ asset_sum k e

asset_sum_absent : (k : Address) (e : Exit) → All (λ r. r.asset ≢ k) e → asset_sum k e ≡ pos 0
asset_sum_absent k [] h = refl
asset_sum_absent k (s ∷ e) h = grind (int_laws, asset_sum_absent k e h.1)

fresh_insert :
    (a : Address) (v : ℤ) (acc : Funds) (e : Exit)
    → All (λ r. r.asset ≢ a) e
    → All (λ r. lookup r.asset acc ≡ none) e
    → All (λ r. lookup r.asset (insert a v acc) ≡ none) e
fresh_insert a v acc [] d n = tt
fresh_insert a v acc (s ∷ e) d n =
    (ground (arith, lookup-insert s.asset a v acc), fresh_insert a v acc e d.1 n.1)

total_from_lem :
    (k : Address) (acc : Funds) (e : Exit)
    → DistinctAssets e
    → All (λ r. lookup r.asset acc ≡ none) e
    → amount_of k (total_from acc e) ≡ amount_of k acc +ℤ asset_sum k e
unfolding total_from
total_from_lem k acc [] d n = omega int_laws
total_from_lem k acc (s ∷ e) d n =
    let v = total s.allocations in
    total_from_lem k (insert s.asset v acc) e d.1 (fresh_insert s.asset v acc e d.0 n.1)
    ∙ grind (
      int_laws,
      amount_of-insert k s.asset v acc,
      total-eq-sum s.allocations,
      asset_sum_absent s.asset e d.0,
    )

none_known : (e : Exit) → All (λ r. lookup {V = ℤ} r.asset [] ≡ none) e
none_known [] = tt
none_known (s ∷ e) = (refl, none_known e)

-- Where no asset stands twice, `TotalAllocated` holds each asset's allocations added up.
pub total_allocated_lem :
    (k : Address) (e : Exit) → DistinctAssets e → amount_of k (total_allocated e) ≡ asset_sum k e
unfolding total_allocated
total_allocated_lem k e d = total_from_lem k [] e d (none_known e) ∙ omega int_laws

-- Where an asset stands in two entries, `TotalAllocated` keeps the last one's total alone.
pub total_allocated_repeated :
    (s r : SingleAssetExit)
    → s.asset ≡ r.asset
    → amount_of r.asset (total_allocated (s ∷ r ∷ [])) ≡ amount_sum r.allocations
unfolding total_allocated total_from
total_allocated_repeated s r h = grind (int_laws, total-eq-sum)

safety_from_lem :
    (d : Destination) (acc : ℤ) (pre : Allocations) (mine : Allocation) (post : Allocations)
    → Absent d pre
    → mine.destination ≡ d
    → safety_from d acc (pre ++ mine ∷ post) ≡ acc +ℤ amount_sum pre
unfolding safety_from
safety_from_lem d acc [] mine post h e = grind int_laws
safety_from_lem d acc (x ∷ pre) mine post h e =
    grind (int_laws, safety_from_lem d (acc +ℤ x.amount) pre mine post h.1 e)

-- The threshold is what stands before the first allocation for the destination, and holdings of
-- the threshold and that allocation's amount afford it.
pub deposit_safety_affords :
    (d : Destination) (s : SingleAssetExit) (pre : Allocations) (mine : Allocation)
    (post : Allocations)
    → s.allocations ≡ pre ++ mine ∷ post
    → Absent d pre
    → mine.destination ≡ d
    → All IsNonNegative s.allocations
    → pos 0 <ℤ mine.amount
    → (deposit_safety_single d s ≡ amount_sum pre)
      × (affords s.allocations mine (deposit_safety_single d s +ℤ mine.amount) ≡ true)
unfolding deposit_safety_single
deposit_safety_affords d s pre mine post e h own nonneg p =
    let safe =
      ap (safety_from d (pos 0)) e ∙ safety_from_lem d (pos 0) pre mine post h own ∙ zero-+ℤ _ in
    (safe, (affords_iff s.allocations mine _ nonneg p).1 (pre, post, e, rw safe (omega arith)))

sum_for-le : (d : Destination) (a : Allocations) → All IsNonNegative a → sum_for d a ≤ℤ amount_sum a
sum_for-le d [] h = omega arith
sum_for-le d (x ∷ a) h = grind (int_laws, sum_for-le d a h.1)

safety-sum_for :
    (d : Destination) (acc : ℤ) (a : Allocations)
    → All IsNonNegative a
    → safety_from d acc a +ℤ sum_for d a ≤ℤ acc +ℤ amount_sum a
unfolding safety_from
safety-sum_for d acc [] h = omega int_laws
safety-sum_for d acc (x ∷ a) h =
    grind (int_laws, sum_for-le d a h.1, safety-sum_for d (acc +ℤ x.amount) a h.1)

-- The threshold and all that the destination is allocated never exceed the total.
pub deposit_safety_le :
    (d : Destination) (s : SingleAssetExit)
    → All IsNonNegative s.allocations
    → deposit_safety_single d s +ℤ total_for d s.allocations ≤ℤ total s.allocations
unfolding deposit_safety_single
deposit_safety_le d s h =
    rw (total-eq-sum, total_for-eq-sum) (omega (int_laws, safety-sum_for d (pos 0) s.allocations h))
