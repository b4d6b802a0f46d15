-- ===== src/Outcome/Transfer.antt =====
-- channel/state/outcome/transfer.go. The exit allocations that the loop does not write stay the
-- zero `Allocation{}`, whose amount is nil: they stand as `none`.
pub mod Laws
use go_nitro.Base.{
  ℕ, zero, suc, Bool, true, false, ◌&&◌, ◌||◌, Option, none, some, List, [], ◌∷◌, length, get_elem?,
  ◌==◌, ltb, if◌then◌else◌, ℤ, ◌+ℤ◌, ◌-ℤ◌, ltb_ℤ,
}
use go_nitro.Outcome.Allocation.{Allocation, Allocations}

-- `math.BigMin`
unfoldable pub big_min : ℤ → ℤ → ℤ
big_min x y = if ltb_ℤ y x then y else x

-- `k < len(indices) && indices[k] == i`
abbrev pub index_hits : List ℕ → ℕ → ℕ → Bool
index_hits indices k i = elim (get_elem? indices k) [ none ↦ false | some j ↦ j == i ]

-- `len(indices) == 0 || k < len(indices) && indices[k] == i`
unfoldable pub selected : List ℕ → ℕ → ℕ → Bool
selected indices k i = length indices == 0 || index_hits indices k i

-- One round: the new allocation, and the exit allocation where one is written.
unfoldable pub payout : Bool → ℤ → Allocation → Allocation × Option Allocation
payout true paid x = (record x { amount = x.amount -ℤ paid }, some (record x { amount = paid }))
payout false paid x = (x, none)

-- The loop, at position `i` and index counter `k`.
unfoldable pub transfer_from :
    List ℕ → ℕ → ℕ → ℤ → Allocations → Allocations × List (Option Allocation)
unfolding big_min selected payout
transfer_from indices k i surplus [] = ([], [])
transfer_from indices k i surplus (x ∷ a) =
    let paid = big_min x.amount surplus in
    let (new, exit) = payout (selected indices k i) paid x in
    let (news, exits) = transfer_from indices k (suc i) (surplus -ℤ paid) a in
    (new ∷ news, exit ∷ exits)

-- `ComputeTransferEffectsAndInteractions`; the code declares `k` and never raises it.
unfoldable pub compute_transfer : ℤ → Allocations → List ℕ → Allocations × List (Option Allocation)
unfolding transfer_from
compute_transfer initial_holdings allocations indices =
    transfer_from indices 0 0 initial_holdings allocations
