-- ===== src/Types/Funds/Laws.antt =====
-- What the operations on funds mean, asset by asset.
use go_nitro.Base.{
  ℕ, ◌≤◌, ◌≡◌, ◌↔◌, refl, true, false, List, [], ◌∷◌, All, ℤ, pos, ◌+ℤ◌, pos_part, int_laws, arith,
  insert, IsMap, lookup-insert, insert-IsMap, has_key, if◌then◌else◌, ◌∙◌, ◌==◌,
}
use go_nitro.Types.Funds.{
  Funds, amount_of, add_entries, sum_from, sum, can_afford, equal, clone, is_non_zero,
}

-- The amounts of one asset in each of several funds, added up.
abbrev pub total_of : ℕ → List Funds → ℤ
total_of k [] = pos 0
total_of k (f ∷ fs) = amount_of k f +ℤ total_of k fs

missing-amount_of : (k : ℕ) (f : Funds) → has_key k f ≡ false → amount_of k f ≡ pos 0
missing-amount_of k f h = ground arith

pub amount_of-insert :
    (j k : ℕ) (v : ℤ) (m : Funds)
    → amount_of j (insert k v m) ≡ (if j == k then v else amount_of j m)
amount_of-insert j k v m = ground (arith, lookup-insert j k v m)

amount_of-add_entries :
    (k : ℕ) (acc f : Funds)
    → IsMap f
    → amount_of k (add_entries acc f) ≡ amount_of k acc +ℤ amount_of k f
unfolding add_entries
amount_of-add_entries k acc [] h = omega int_laws
amount_of-add_entries k acc ((j, v) ∷ f) h =
    amount_of-add_entries k (insert j (amount_of j acc +ℤ v) acc) f h.1
    ∙ grind (int_laws, amount_of-insert k j (amount_of j acc +ℤ v) acc, missing-amount_of j f h.0)

add_entries-IsMap : (acc f : Funds) → IsMap acc → IsMap (add_entries acc f)
unfolding add_entries
add_entries-IsMap acc [] h = h
add_entries-IsMap acc ((j, v) ∷ f) h =
    add_entries-IsMap (insert j (amount_of j acc +ℤ v) acc) f (insert-IsMap j _ acc h)

amount_of-sum_from :
    (k : ℕ) (acc : Funds) (fs : List Funds)
    → All IsMap fs
    → amount_of k (sum_from acc fs) ≡ amount_of k acc +ℤ total_of k fs
unfolding sum_from
amount_of-sum_from k acc [] h = omega int_laws
amount_of-sum_from k acc (f ∷ fs) h =
    rw (amount_of-sum_from k (add_entries acc f) fs h.1, amount_of-add_entries k acc f h.0)
      (omega int_laws)

sum_from-IsMap : (acc : Funds) (fs : List Funds) → IsMap acc → IsMap (sum_from acc fs)
unfolding sum_from
sum_from-IsMap acc [] h = h
sum_from-IsMap acc (f ∷ fs) h = sum_from-IsMap (add_entries acc f) fs (add_entries-IsMap acc f h)

-- `Sum` gives a map with each asset once, and each asset the sum of its amounts in the arguments.
pub amount_of-sum :
    (k : ℕ) (fs : List Funds)
    → All IsMap fs
    → IsMap (sum fs) × (amount_of k (sum fs) ≡ total_of k fs)
unfolding sum
amount_of-sum k fs h = (sum_from-IsMap [] fs tt, rw (amount_of-sum_from k [] fs h) (omega int_laws))

pub clone-amount_of : (k : ℕ) (f : Funds) → IsMap f → amount_of k (clone f) ≡ amount_of k f
unfolding clone
clone-amount_of k f h = (amount_of-sum k (f ∷ [] ∷ []) (h, (tt, tt))).1 ∙ omega int_laws

-- Each positive amount of `g` is matched by `f`.
can_afford_sound :
    (k : ℕ) (f g : Funds)
    → IsMap g
    → can_afford f g ≡ true
    → pos_part (amount_of k g) ≤ pos_part (amount_of k f)
unfolding can_afford
can_afford_sound k f [] h e = omega arith
can_afford_sound k f ((j, v) ∷ g) h e = ground (arith, can_afford_sound k f g h.1)

can_afford_complete :
    (f g : Funds)
    → IsMap g
    → ((k : ℕ) → pos_part (amount_of k g) ≤ pos_part (amount_of k f))
    → can_afford f g ≡ true
unfolding can_afford
can_afford_complete f [] h le = refl
can_afford_complete f ((j, v) ∷ g) h le =
    ground (arith, le j, can_afford_complete f g h.1 (λ k. tail k))
  where
    tail : (k : ℕ) → pos_part (amount_of k g) ≤ pos_part (amount_of k f)
    tail k = ground (arith, le k, missing-amount_of j g h.0)

-- `Equal` holds exactly when every asset has the same positive amount on both sides: a missing
-- asset is a zero one, and negative amounts count as zero.
pub equal_funds_iff :
    (f g : Funds)
    → IsMap f
    → IsMap g
    → (equal f g ≡ true) ↔ ((k : ℕ) → pos_part (amount_of k f) ≡ pos_part (amount_of k g))
unfolding equal
equal_funds_iff f g hf hg = (forth, back)
  where
    forth : equal f g ≡ true → (k : ℕ) → pos_part (amount_of k f) ≡ pos_part (amount_of k g)
    forth e k = ground (arith, can_afford_sound k f g hg, can_afford_sound k g f hf)

    back : ((k : ℕ) → pos_part (amount_of k f) ≡ pos_part (amount_of k g)) → equal f g ≡ true
    back same =
        rw (can_afford_complete f g hg (λ k. omega (arith, same k)))
          (can_afford_complete g f hf (λ k. omega (arith, same k)))

none_positive : (k : ℕ) (f : Funds) → IsMap f → is_non_zero f ≡ false → pos_part (amount_of k f) ≡ 0
unfolding is_non_zero
none_positive k [] h e = refl
none_positive k ((j, v) ∷ f) h e = ground (arith, none_positive k f h.1)

not_non_zero :
    (f : Funds) → IsMap f → ((k : ℕ) → pos_part (amount_of k f) ≡ 0) → is_non_zero f ≡ false
unfolding is_non_zero
not_non_zero [] h e = refl
not_non_zero ((j, v) ∷ f) h e = ground (arith, e j, not_non_zero f h.1 (λ k. tail k))
  where
    tail : (k : ℕ) → pos_part (amount_of k f) ≡ 0
    tail k = ground (arith, e k, missing-amount_of j f h.0)

-- `IsNonZero` is false exactly when no asset has a positive amount.
pub is_non_zero_iff :
    (f : Funds) → IsMap f → (is_non_zero f ≡ false) ↔ ((k : ℕ) → pos_part (amount_of k f) ≡ 0)
is_non_zero_iff f h = (λ e k. none_positive k f h e, not_non_zero f h)
