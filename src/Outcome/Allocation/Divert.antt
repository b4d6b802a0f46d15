-- ===== src/Outcome/Allocation/Divert.antt =====
-- What `DivertToGuarantee` keeps: the total, and that no amount is negative.
use go_nitro.Base.{
  ◌≡◌, ◌≢◌, ◌⊎◌, refl, subst, ok, ok_injective, fail_if, [], ◌∷◌, ◌++◌, All, ℤ, pos, ◌+ℤ◌, ◌≤ℤ◌,
  ltb_ℤ, int_laws, arith, Result, >>=-eq-ok, ◌==◌, if◌then◌else◌, inl, inr, fail_if-eq-ok,
  debtees_not_distinct, sym,
}
use go_nitro.Types.Destination.{Destination, Bytes}
use go_nitro.Outcome.Allocation.{
  Allocation, Allocations, GuaranteeMetadata, reduced, reduce, divert_to_guarantee, total,
}
use go_nitro.Outcome.Allocation.Totals.{amount_sum, IsNonNegative, total-eq-sum, amount_sum-append}

-- No allocation is for the destination.
abbrev pub Absent : Destination → Allocations → Type 0
Absent d = All (λ x. x.destination ≢ d)

-- Exactly one allocation is for the destination.
abbrev pub Once : Destination → Allocations → Type 0
Once d [] = ⊥
Once d (x ∷ a) = (x.destination ≡ d) × Absent d a ⊎ (x.destination ≢ d) × Once d a

module _ (l r : Destination) (la ra : ℤ) where
  reduce_inv :
      (x : Allocation) (a b : Allocations)
      → reduce l r la ra (x ∷ a) ≡ ok b
      → (rest : Allocations) × (reduce l r la ra a ≡ ok rest)
        × (record x { amount = reduced l r la ra x } ∷ rest ≡ b)
        × (pos 0 ≤ℤ reduced l r la ra x)
  unfolding reduce
  reduce_inv x a b h =
      let (u, p, h1) = >>=-eq-ok (fail_if (ltb_ℤ (reduced l r la ra x) (pos 0)) _) _ h in
      let (rest, q, h2) = >>=-eq-ok (reduce l r la ra a) _ h1 in (rest, q, cc, ground (arith, p))

  reduce-IsNonNegative : (a b : Allocations) → reduce l r la ra a ≡ ok b → All IsNonNegative b
  unfolding reduce
  reduce-IsNonNegative [] b h = subst (All IsNonNegative) (ok_injective h) tt
  reduce-IsNonNegative (x ∷ a) b h =
      let (rest, q, e, p) = reduce_inv x a b h in
      subst (All IsNonNegative) e (p, reduce-IsNonNegative a rest q)

  -- What the loop takes away, added up.
  abbrev deducted : Allocations → ℤ
  deducted [] = pos 0
  deducted (x ∷ a) =
      (if x.destination == l then la else if x.destination == r then ra else pos 0) +ℤ deducted a

  amount_sum-reduce :
      (a b : Allocations) → reduce l r la ra a ≡ ok b → amount_sum b +ℤ deducted a ≡ amount_sum a
  unfolding reduce reduced
  amount_sum-reduce [] b h = rw (← ok_injective h) (omega int_laws)
  amount_sum-reduce (x ∷ a) b h =
      let (rest, q, e, p) = reduce_inv x a b h in
      rw (← e) (grind (int_laws, amount_sum-reduce a rest q))

  deducted-Absent : (a : Allocations) → Absent l a → Absent r a → deducted a ≡ pos 0
  deducted-Absent [] nl nr = refl
  deducted-Absent (x ∷ a) nl nr = grind (int_laws, deducted-Absent a nl.1 nr.1)

  deducted_right : (a : Allocations) → Absent l a → Once r a → deducted a ≡ ra
  deducted_right [] nl o = elim o [ ]
  deducted_right (x ∷ a) nl (inl o) = grind (int_laws, deducted-Absent a nl.1 o.1)
  deducted_right (x ∷ a) nl (inr o) = grind (int_laws, deducted_right a nl.1 o.1)

  deducted_left : (a : Allocations) → Once l a → Absent r a → deducted a ≡ la
  deducted_left [] o nr = elim o [ ]
  deducted_left (x ∷ a) (inl o) nr = grind (int_laws, deducted-Absent a o.1 nr.1)
  deducted_left (x ∷ a) (inr o) nr = grind (int_laws, deducted_left a o.1 nr.1)

  deducted_both : (a : Allocations) → l ≢ r → Once l a → Once r a → deducted a ≡ la +ℤ ra
  deducted_both [] ne o o' = elim o [ ]
  deducted_both (x ∷ a) ne (inl o) (inl o') = absurd (omega arith)
  deducted_both (x ∷ a) ne (inl o) (inr o') = grind (int_laws, deducted_right a o.1 o'.1)
  deducted_both (x ∷ a) ne (inr o) (inl o') = grind (int_laws, deducted_left a o.1 o'.1)
  deducted_both (x ∷ a) ne (inr o) (inr o') = grind (int_laws, deducted_both a ne o.1 o'.1)

module _ (encode : GuaranteeMetadata → Result Bytes) (l r target : Destination) (la ra : ℤ) where
  -- A diversion that succeeds between two destinations that each stand once keeps the total, and
  -- every amount in front of the guarantee is zero or more.
  pub divert-total :
      (a b : Allocations)
      → Once l a
      → Once r a
      → divert_to_guarantee l r la ra encode target a ≡ ok b
      → (total b ≡ total a)
        × ((front : Allocations) × (guarantee : Allocation) × (b ≡ front ++ guarantee ∷ [])
            × (guarantee.amount ≡ la +ℤ ra)
            × (guarantee.destination ≡ target)
            × All IsNonNegative front)
  unfolding divert_to_guarantee
  divert-total a b ol or' h =
      let (u, ne, h1) = >>=-eq-ok (fail_if (l == r) debtees_not_distinct) _ h in
      let (front, q, h2) = >>=-eq-ok (reduce l r la ra a) _ h1 in
      let (encoded, enc, h3) = >>=-eq-ok (encode (record { left = l; right = r })) _ h2 in
      let distinct : l ≢ r = ground (arith, fail_if-eq-ok (l == r) debtees_not_distinct ne) in
      let kept = amount_sum-reduce l r la ra a front q in
      let taken = deducted_both l r la ra a distinct ol or' in
      let e = ok_injective h3 in
      (
        rw (total-eq-sum, total-eq-sum, ← e, amount_sum-append front _)
            (grind (int_laws, kept, taken)),
        (front, _, sym e, refl, refl, reduce-IsNonNegative l r la ra a front q),
      )
