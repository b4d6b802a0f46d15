-- ===== src/Consensus/LedgerOutcome.antt =====
-- channel/consensus_channel/consensus_channel.go: the outcome of a ledger channel. Destinations
-- print as hexadecimal texts of one length, so that their order as texts is their order as numbers.
pub mod Copy
pub mod Order
pub mod Decoded
use go_nitro.Base.{
  ℕ, zero, suc, Bool, true, false, ◌&&◌, Option, none, some, List, [], ◌∷◌, ◌++◌, get_elem?, ◌==◌,
  if◌then◌else◌, Map, lookup, insert, has_key, keys, sort, Result, ok, deref, ◌>>=◌,
}
use go_nitro.Types.Destination.{Address, Destination, Bytes}
use go_nitro.Outcome.Allocation.{
  Allocation, Allocations, GuaranteeMetadata, guarantee_allocation_type,
}
use go_nitro.Outcome.Exit.{SingleAssetExit, Exit}
use go_nitro.State.Data.{equal_pointers}
use go_nitro.Consensus.Guarantee.{
  Balance, Guarantee, zero_guarantee, clone_guarantee, balance_as_allocation,
  guarantee_as_allocation,
}

pub record LedgerOutcome : Type 0 where
  pub asset_address : Address
  pub leader : Balance
  pub follower : Balance
  pub guarantees : Map Guarantee

clone_guarantees : Map Guarantee → Result (Map Guarantee)
unfolding clone_guarantee
clone_guarantees [] = ok []
clone_guarantees ((k, g) ∷ m) = do
  h ← clone_guarantee g
  rest ← clone_guarantees m
  ok ((k, h) ∷ rest)

-- `LedgerOutcome.Clone` and `LedgerOutcome.clone`
unfoldable pub clone : LedgerOutcome → Result LedgerOutcome
unfolding clone_guarantees
clone o = do
  guarantees ← clone_guarantees o.guarantees
  ok (record {
    asset_address = o.asset_address;
    leader = record { destination = o.leader.destination; amount = o.leader.amount };
    follower = record { destination = o.follower.destination; amount = o.follower.amount };
    guarantees = guarantees;
  })

guarantee_map : Map Guarantee → List Guarantee → Map Guarantee
guarantee_map m [] = m
guarantee_map m (g ∷ gs) = guarantee_map (insert g.target g m) gs

-- `NewLedgerOutcome`
unfoldable pub new_ledger_outcome : Address → Balance → Balance → List Guarantee → LedgerOutcome
unfolding guarantee_map
new_ledger_outcome asset_address leader follower guarantees = record {
  asset_address = asset_address;
  leader = leader;
  follower = follower;
  guarantees = guarantee_map [] guarantees;
}

-- `LedgerOutcome.IncludesTarget`
unfoldable pub includes_target : LedgerOutcome → Destination → Bool
includes_target o target = has_key target o.guarantees

-- `LedgerOutcome.includes`
unfoldable pub includes : LedgerOutcome → Guarantee → Bool
includes o g = elim (lookup g.target o.guarantees) [
  | none ↦ false
  | some existing ↦
      g.left == existing.left
      && (g.right == existing.right
          && (g.target == existing.target && equal_pointers existing.amount g.amount))
]

module _ (decode : Bytes → Result GuaranteeMetadata) where
  -- The loop of `FromExit`.
  exit_guarantees : Map Guarantee → Allocations → Result (Map Guarantee)
  exit_guarantees m [] = ok m
  exit_guarantees m (a ∷ rest) =
      let skip = exit_guarantees m rest in
      let take = do
        metadata ← decode a.metadata
        exit_guarantees
            (insert a.destination
              (record {
                amount = some a.amount;
                target = a.destination;
                left = metadata.left;
                right = metadata.right;
              })
              m)
            rest
      in if a.allocation_type == guarantee_allocation_type then take else skip

  -- `FromExit`, with the ABI decoding of guarantee metadata
  unfoldable pub from_exit : SingleAssetExit → Result LedgerOutcome
  unfolding exit_guarantees
  from_exit sae = do
    first ← deref (get_elem? sae.allocations 0)
    second ← deref (get_elem? sae.allocations 1)
    guarantees ← exit_guarantees [] sae.allocations
    ok (record {
      asset_address = sae.asset;
      leader = record { destination = first.destination; amount = first.amount };
      follower = record { destination = second.destination; amount = second.amount };
      guarantees = guarantees;
    })

-- `guarantees[target]`, the zero guarantee for a key that is missing.
abbrev pub guarantee_at : Destination → Map Guarantee → Guarantee
guarantee_at k m = elim (lookup k m) [ none ↦ zero_guarantee | some g ↦ g ]

-- The loop of `AsOutcome` over the sorted keys.
guarantee_allocations : Map Guarantee → List Destination → Result Allocations
guarantee_allocations m [] = ok []
guarantee_allocations m (k ∷ ks) = do
  a ← guarantee_as_allocation (guarantee_at k m)
  rest ← guarantee_allocations m ks
  ok (a ∷ rest)

-- `LedgerOutcome.AsOutcome`
unfoldable pub as_outcome : LedgerOutcome → Result Exit
unfolding guarantee_allocations
as_outcome o = do
  allocations ← guarantee_allocations o.guarantees (sort (keys o.guarantees))
  ok (
      record {
        asset = o.asset_address;
        metadata = [];
        allocations =
            balance_as_allocation o.leader ∷ balance_as_allocation o.follower ∷ allocations;
      }
      ∷ [])

-- `LedgerOutcome.fundingTargets`
unfoldable pub funding_targets : LedgerOutcome → List Destination
funding_targets o = keys o.guarantees
