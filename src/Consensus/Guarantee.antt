-- ===== src/Consensus/Guarantee.antt =====
-- channel/consensus_channel/consensus_channel.go: balances and guarantees. The amount of a
-- guarantee is a pointer, nil in the zero `Guarantee{}`.
use go_nitro.Base.{
  Bool, ◌&&◌, Option, none, some, [], ◌++◌, ◌==◌, ℤ, eqb_ℤ, Result, ok, deref, ◌>>=◌,
}
use go_nitro.Types.Destination.{Destination, bytes}
use go_nitro.Outcome.Allocation.{Allocation, normal_allocation_type, guarantee_allocation_type}
use go_nitro.State.Data.{equal_pointers}

pub record Balance : Type 0 where
  pub destination : Destination
  pub amount : ℤ

-- `Balance.Equal`
unfoldable pub equal_balance : Balance → Balance → Bool
equal_balance a b = a.destination == b.destination && eqb_ℤ a.amount b.amount

-- `Balance.AsAllocation`
unfoldable pub balance_as_allocation : Balance → Allocation
balance_as_allocation b = record {
  destination = b.destination;
  amount = b.amount;
  allocation_type = normal_allocation_type;
  metadata = [];
}

pub record Guarantee : Type 0 where
  pub amount : Option ℤ
  pub target : Destination
  pub left : Destination
  pub right : Destination

abbrev pub zero_guarantee : Guarantee
zero_guarantee = record { amount = none; target = 0; left = 0; right = 0 }

-- `Guarantee.Clone`, which panics on a nil amount.
unfoldable pub clone_guarantee : Guarantee → Result Guarantee
clone_guarantee g = do
  amount ← deref g.amount
  ok (record { amount = some amount; target = g.target; left = g.left; right = g.right })

-- `Guarantee.equal`
unfoldable pub equal_guarantee : Guarantee → Guarantee → Bool
equal_guarantee g h =
    equal_pointers g.amount h.amount
    && (g.target == h.target && (g.left == h.left && g.right == h.right))

-- `Guarantee.AsAllocation`
unfoldable pub guarantee_as_allocation : Guarantee → Result Allocation
guarantee_as_allocation g = do
  amount ← deref g.amount
  ok (record {
    destination = g.target;
    amount = amount;
    allocation_type = guarantee_allocation_type;
    metadata = bytes g.left ++ bytes g.right;
  })
