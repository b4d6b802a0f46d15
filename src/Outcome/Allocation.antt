-- ===== src/Outcome/Allocation.antt =====
-- channel/state/outcome/allocation.go and guarantee.go. The amounts of allocations are pointers
-- that the code follows without a test; they stand as integers.
pub mod Totals
pub mod Equality
pub mod Affords
pub mod Divert
use go_nitro.Base.{
  ℕ, Bool, true, false, ◌&&◌, List, [], ◌∷◌, ◌++◌, length, equal_bytes, ◌==◌, if◌then◌else◌, ℤ, pos,
  ◌+ℤ◌, ◌-ℤ◌, ltb_ℤ, leb_ℤ, eqb_ℤ, Result, ok, err, fail_if, ◌>>=◌, ◌>>◌, debtees_not_distinct,
  divert_insufficient_funds,
}
use go_nitro.Types.Destination.{Destination, Bytes}

abbrev pub normal_allocation_type : ℕ
normal_allocation_type = 0

abbrev pub guarantee_allocation_type : ℕ
guarantee_allocation_type = 1

pub record Allocation : Type 0 where
  pub destination : Destination
  pub amount : ℤ
  pub allocation_type : ℕ
  pub metadata : Bytes

pub record GuaranteeMetadata : Type 0 where
  pub left : Destination
  pub right : Destination

abbrev pub Allocations : Type 0
Allocations = List Allocation

-- `Allocation.Equal`
unfoldable pub equal : Allocation → Allocation → Bool
equal a b =
    a.destination == b.destination
    && (a.allocation_type == b.allocation_type
        && (eqb_ℤ a.amount b.amount && equal_bytes a.metadata b.metadata))

-- `Allocation.Clone`
unfoldable pub clone : Allocation → Allocation
clone a = record {
  destination = a.destination;
  amount = a.amount;
  allocation_type = a.allocation_type;
  metadata = a.metadata;
}

-- The loop of `Allocations.Equal`.
equal_entries : Allocations → Allocations → Bool
unfolding equal
equal_entries [] b = true
equal_entries (x ∷ a) [] = false
equal_entries (x ∷ a) (y ∷ b) = if equal x y then equal_entries a b else false

-- `Allocations.Equal`
unfoldable pub equal_all : Allocations → Allocations → Bool
unfolding equal_entries
equal_all a b = if length a == length b then equal_entries a b else false

-- `Allocations.Clone`
unfoldable pub clone_all : Allocations → Allocations
unfolding clone
clone_all [] = []
clone_all (x ∷ a) = clone x ∷ clone_all a

unfoldable pub total_from : ℤ → Allocations → ℤ
total_from total [] = total
total_from total (x ∷ a) = total_from (total +ℤ x.amount) a

-- `Allocations.Total`
unfoldable pub total : Allocations → ℤ
unfolding total_from
total a = total_from (pos 0) a

unfoldable pub total_for_from : Destination → ℤ → Allocations → ℤ
total_for_from dest total [] = total
total_for_from dest total (x ∷ a) =
    total_for_from dest (if x.destination == dest then total +ℤ x.amount else total) a

-- `Allocations.TotalFor`
unfoldable pub total_for : Destination → Allocations → ℤ
unfolding total_for_from
total_for dest a = total_for_from dest (pos 0) a

-- The loop of `Allocations.Affords`.
unfoldable pub affords_from : Allocation → ℤ → Allocations → Bool
unfolding equal
affords_from given surplus [] = false
affords_from given surplus (x ∷ a) =
    let rest = affords_from given (surplus -ℤ x.amount) a in
    if equal x given
    then leb_ℤ given.amount surplus
    else if ltb_ℤ (pos 0) (surplus -ℤ x.amount)
    then rest
    else false

-- `Allocations.Affords`
unfoldable pub affords : Allocations → Allocation → ℤ → Bool
unfolding affords_from
affords a given funding = affords_from given funding a

module _ (left right : Destination) (left_amount right_amount : ℤ) where
  -- The amount that the loop of `DivertToGuarantee` leaves to one allocation.
  unfoldable pub reduced : Allocation → ℤ
  reduced x =
      if x.destination == left
      then x.amount -ℤ left_amount
      else if x.destination == right
      then x.amount -ℤ right_amount
      else x.amount

  -- The loop of `DivertToGuarantee`.
  unfoldable pub reduce : Allocations → Result Allocations
  unfolding reduced
  reduce [] = ok []
  reduce (x ∷ a) = do
    fail_if (ltb_ℤ (reduced x) (pos 0)) divert_insufficient_funds
    rest ← reduce a
    ok (record x { amount = reduced x } ∷ rest)

  -- `Allocations.DivertToGuarantee`; `encode` is the ABI encoding of guarantee metadata.
  unfoldable pub divert_to_guarantee :
      (GuaranteeMetadata → Result Bytes) → Destination → Allocations → Result Allocations
  unfolding reduce
  divert_to_guarantee encode guarantee_destination a = do
    fail_if (left == right) debtees_not_distinct
    reduced_allocations ← reduce a
    encoded ← encode (record { left = left; right = right })
    ok (
        reduced_allocations
        ++ record {
          destination = guarantee_destination;
          amount = left_amount +ℤ right_amount;
          allocation_type = guarantee_allocation_type;
          metadata = encoded;
        }
          ∷ [])
