-- ===== src/Outcome/Allocation/Affords.antt =====
-- When the allocations can afford a given one.
use go_nitro.Base.{
  ◌≡◌, ◌↔◌, inl, inr, refl, ap, subst, true, Bool-cases, [], ◌∷◌, ◌++◌, All, ℤ, pos, ◌+ℤ◌, ◌-ℤ◌,
  ◌≤ℤ◌, ◌<ℤ◌, int_laws, arith,
}
use go_nitro.Outcome.Allocation.{Allocation, Allocations, equal, affords_from, affords}
use go_nitro.Outcome.Allocation.Equality.{equal_iff}
use go_nitro.Outcome.Allocation.Totals.{amount_sum, IsNonNegative, amount_sum_nonneg}

-- Some allocation is the given one, and the funding covers it behind all that stand before it.
abbrev pub Covers : Allocations → Allocation → ℤ → Type 0
Covers a given funding =
    (pre : Allocations) × (post : Allocations) × (a ≡ pre ++ given ∷ post)
    × (amount_sum pre +ℤ given.amount ≤ℤ funding)

Covers-next :
    (x given : Allocation) (a : Allocations) (funding : ℤ)
    → Covers a given (funding -ℤ x.amount)
    → Covers (x ∷ a) given funding
Covers-next x given a funding (pre, post, e, le) =
    (x ∷ pre, post, ap (λ r. x ∷ r) e, omega int_laws)

affords_from_sound :
    (given : Allocation) (funding : ℤ) (a : Allocations)
    → affords_from given funding a ≡ true
    → Covers a given funding
unfolding affords_from
affords_from_sound given funding [] h = cc
affords_from_sound given funding (x ∷ a) h = elim (Bool-cases (equal x given)) [
  | inl same ↦ ([], a, ap (λ y. y ∷ a) ((equal_iff x given).0 same), grind int_laws)
  | inr differs ↦
      Covers-next x given a funding
        (affords_from_sound given (funding -ℤ x.amount) a (ground arith))
]

affords_from_complete :
    (given : Allocation) (funding : ℤ) (pre post : Allocations)
    → All IsNonNegative pre
    → pos 0 <ℤ given.amount
    → amount_sum pre +ℤ given.amount ≤ℤ funding
    → affords_from given funding (pre ++ given ∷ post) ≡ true
unfolding affords_from
affords_from_complete given funding [] post h p le =
    rw ((equal_iff given given).1 refl) (grind int_laws)
affords_from_complete given funding (x ∷ pre) post h p le =
    let rest = affords_from_complete given (funding -ℤ x.amount) pre post h.1 p in
    let first = amount_sum_nonneg pre h.1 in
    elim (Bool-cases (equal x given)) [
      | inl same ↦ rw same (grind (int_laws, first))
      | inr differs ↦ rw differs (grind (int_laws, first, rest))
    ]

-- Over amounts that are not negative, a positive allocation is afforded exactly if it stands in
-- the list and the funding covers it together with every allocation before it.
pub affords_iff :
    (a : Allocations) (given : Allocation) (funding : ℤ)
    → All IsNonNegative a
    → pos 0 <ℤ given.amount
    → (affords a given funding ≡ true) ↔ Covers a given funding
unfolding affords
affords_iff a given funding h p = (affords_from_sound given funding a, back)
  where
    before : (pre post : Allocations) → All IsNonNegative (pre ++ post) → All IsNonNegative pre
    before [] post k = tt
    before (x ∷ pre) post k = (k.0, before pre post k.1)

    back : Covers a given funding → affords a given funding ≡ true
    back (pre, post, e, le) = rw e (
        affords_from_complete given funding pre post
          (before pre (given ∷ post) (subst (All IsNonNegative) e h)) p le)
