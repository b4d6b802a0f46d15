-- ===== src/Consensus/LedgerOutcome/Order.antt =====
-- What a ledger outcome stands for does not depend on the order in which its map is iterated.
use go_nitro.Base.{
  ◌≡◌, refl, ap, ◌∙◌, List, [], ◌∷◌, Map, IsMap, lookup, keys, sort, sort-keys, none, some, true,
  false, Result, ok, ◌>>=◌,
}
use go_nitro.Types.Destination.{Destination}
use go_nitro.Outcome.Allocation.{Allocations}
use go_nitro.Consensus.Guarantee.{Guarantee, zero_guarantee, guarantee_as_allocation}
use go_nitro.Consensus.LedgerOutcome.{
  LedgerOutcome, guarantee_at, guarantee_allocations, as_outcome,
}

-- One round of the loop.
abbrev with_first : Guarantee → Result Allocations → Result Allocations
with_first g rest = do a ← guarantee_as_allocation g; more ← rest; ok (a ∷ more)

guarantee_allocations_same :
    (m n : Map Guarantee) (ks : List Destination)
    → ((k : Destination) → lookup k m ≡ lookup k n)
    → guarantee_allocations m ks ≡ guarantee_allocations n ks
unfolding guarantee_allocations
guarantee_allocations_same m n [] same = refl
guarantee_allocations_same m n (k ∷ ks) same =
    ap
      (λ o. with_first (elim o [ none ↦ zero_guarantee | some g ↦ g ]) (guarantee_allocations m ks))
      (same k)
    ∙ ap (with_first (guarantee_at k n)) (guarantee_allocations_same m n ks same)

-- Two outcomes with the same asset and balances and the same guarantee for each target give the
-- same exit, and so the same state to sign, in whatever order their maps hold the guarantees.
pub as_outcome_same :
    (o : LedgerOutcome) (n : Map Guarantee)
    → IsMap o.guarantees
    → IsMap n
    → ((k : Destination) → lookup k o.guarantees ≡ lookup k n)
    → as_outcome o ≡ as_outcome (record o { guarantees = n })
unfolding as_outcome
as_outcome_same o n hm hn same =
    let keys_same =
      sort-keys o.guarantees n hm hn
        (λ k. ap (λ r. elim r [ none ↦ false | some _ ↦ true ]) (same k)) in
    rw (keys_same, guarantee_allocations_same o.guarantees n (sort (keys n)) same) refl
