-- ===== src/Consensus/LedgerOutcome/Decoded.antt =====
-- A ledger outcome that is read from an exit has each target once.
use go_nitro.Base.{
  ◌≡◌, ◌==◌, Bool-cases, inl, inr, [], ◌∷◌, Map, IsMap, insert, insert-IsMap, get_elem?, Result, ok,
  deref, ◌>>=◌, >>=-eq-ok, ok_injective, arith, subst, some,
}
use go_nitro.Types.Destination.{Bytes}
use go_nitro.Outcome.Allocation.{
  Allocation, Allocations, GuaranteeMetadata, guarantee_allocation_type,
}
use go_nitro.Outcome.Exit.{SingleAssetExit}
use go_nitro.Consensus.Guarantee.{Guarantee}
use go_nitro.Consensus.LedgerOutcome.{LedgerOutcome, exit_guarantees, from_exit}

abbrev guarantee_of : Allocation → GuaranteeMetadata → Guarantee
guarantee_of a d = record {
  amount = some a.amount;
  target = a.destination;
  left = d.left;
  right = d.right;
}

module _ (decode : Bytes → Result GuaranteeMetadata) where
  exit_guarantees-IsMap :
      (m n : Map Guarantee) (a : Allocations)
      → IsMap m
      → exit_guarantees decode m a ≡ ok n
      → IsMap n
  unfolding exit_guarantees
  exit_guarantees-IsMap m n [] h e = subst IsMap (ok_injective e) h
  exit_guarantees-IsMap m n (a ∷ rest) h e =
      elim (Bool-cases (a.allocation_type == guarantee_allocation_type)) [
        | inr other ↦ exit_guarantees-IsMap m n rest h (ground (arith, other, e))
        | inl is_guarantee ↦
            let took : (decode a.metadata >>= λ d.
            exit_guarantees decode (insert a.destination (guarantee_of a d) m) rest)
                ≡ ok n =
              ground (arith, is_guarantee, e) in
            let (d, hd, e1) =
              >>=-eq-ok (decode a.metadata)
                (λ d. exit_guarantees decode (insert a.destination (guarantee_of a d) m) rest)
                took in
            exit_guarantees-IsMap (insert a.destination (guarantee_of a d) m) n rest
              (insert-IsMap a.destination (guarantee_of a d) m h) e1
      ]

  pub from_exit-IsMap :
      (s : SingleAssetExit) (o : LedgerOutcome) → from_exit decode s ≡ ok o → IsMap o.guarantees
  unfolding from_exit
  from_exit-IsMap s o e =
      let (first, _, e1) = >>=-eq-ok (deref (get_elem? s.allocations 0)) _ e in
      let (second, _, e2) = >>=-eq-ok (deref (get_elem? s.allocations 1)) _ e1 in
      let (g, hg, e3) = >>=-eq-ok (exit_guarantees decode [] s.allocations) _ e2 in
      subst (λ x. IsMap x.guarantees) (ok_injective e3)
        (exit_guarantees-IsMap [] g s.allocations tt hg)
