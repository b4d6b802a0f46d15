-- ===== src/Base/Sorting.antt =====
-- `sort.Slice` over keys: the library's contract is a sorted rearrangement, which insertion meets;
-- for keys that differ there is one such list.
use Prim.Native.Nat.{ℕ, ◌<◌, ◌≤◌}
use mathlib.Core.Path.{◌≡◌, refl, sym, ap, ◌∙◌}
use mathlib.Core.Logic.{inl, inr}
use mathlib.Core.Bool.{Bool, true, false}
use mathlib.Core.List.{List, [], ◌∷◌}
use native.Mathlib.Omega.{arith}
use go_nitro.Base.Tests.{ltb, ◌==◌, if◌then◌else◌, Bool-cases}
use go_nitro.Base.Lists.{All}
use go_nitro.Base.Maps.{Map, has_key, keys, IsMap}

pub sort_insert : ℕ → List ℕ → List ℕ
sort_insert x [] = x ∷ []
sort_insert x (y ∷ ys) = if ltb y x then y ∷ sort_insert x ys else x ∷ y ∷ ys

unfoldable pub sort : List ℕ → List ℕ
unfolding sort_insert
sort [] = []
sort (x ∷ xs) = sort_insert x (sort xs)

abbrev pub mem : ℕ → List ℕ → Bool
mem k [] = false
mem k (x ∷ l) = if k == x then true else mem k l

-- Each element is below all that follow it.
abbrev IsRising : List ℕ → Type 0
IsRising [] = Unit
IsRising (x ∷ l) = All (λ y. x < y) l × IsRising l

above_trans : (a b : ℕ) (l : List ℕ) → a < b → All (λ y. b < y) l → All (λ y. a < y) l
above_trans a b [] lt h = tt
above_trans a b (x ∷ l) lt h = (omega (arith, h.0), above_trans a b l lt h.1)

not_mem : (a : ℕ) (l : List ℕ) → All (λ y. a < y) l → mem a l ≡ false
not_mem a [] h = refl
not_mem a (x ∷ l) h = ground (arith, h.0, not_mem a l h.1)

mem-sort_insert :
    (k x : ℕ) (l : List ℕ) → mem k (sort_insert x l) ≡ (if k == x then true else mem k l)
unfolding sort_insert
mem-sort_insert k x [] = refl
mem-sort_insert k x (y ∷ l) = ground (arith, mem-sort_insert k x l)

mem-sort : (k : ℕ) (l : List ℕ) → mem k (sort l) ≡ mem k l
unfolding sort
mem-sort k [] = refl
mem-sort k (x ∷ l) = ground (arith, mem-sort_insert k x (sort l), mem-sort k l)

All-sort_insert :
    (a x : ℕ) (l : List ℕ) → a < x → All (λ y. a < y) l → All (λ y. a < y) (sort_insert x l)
unfolding sort_insert
All-sort_insert a x [] lt h = (lt, tt)
All-sort_insert a x (y ∷ l) lt h = ground (arith, lt, h.0, h.1, All-sort_insert a x l lt h.1)

sort_insert-IsRising :
    (x : ℕ) (l : List ℕ) → IsRising l → mem x l ≡ false → IsRising (sort_insert x l)
unfolding sort_insert
sort_insert-IsRising x [] h m = (tt, tt)
sort_insert-IsRising x (y ∷ l) h m = elim (Bool-cases (ltb y x)) [
  | inl lt ↦ rw lt (
    All-sort_insert y x l (ground (arith, lt)) h.0,
    sort_insert-IsRising x l h.1 (ground (arith, m)),
  )
  | inr ge ↦
      let below : x < y = ground (arith, ge, m) in rw ge ((below, above_trans x y l below h.0), h)
]

head_not_below : (x y : ℕ) (r : List ℕ) → All (λ z. y < z) r → mem x (y ∷ r) ≡ true → y ≤ x
head_not_below x y r h m = elim (Bool-cases (ltb x y)) [
  | inl lt ↦ absurd (ground (arith, lt, m, not_mem x r (above_trans x y r (ground (arith, lt)) h)))
  | inr ge ↦ ground (arith, ge)
]

mem_tail :
    (k x : ℕ) (l : List ℕ)
    → All (λ z. x < z) l
    → mem k l ≡ (if k == x then false else mem k (x ∷ l))
mem_tail k x l h = elim (Bool-cases (k == x)) [
  | inl same ↦ rw same (ap (λ j. mem j l) (ground (arith, same)) ∙ not_mem x l h)
  | inr differs ↦ ground (arith, differs)
]

rising_unique : (l r : List ℕ) → IsRising l → IsRising r → ((k : ℕ) → mem k l ≡ mem k r) → l ≡ r
rising_unique [] [] hl hr same = refl
rising_unique [] (y ∷ r) hl hr same = absurd (ground (arith, same y))
rising_unique (x ∷ l) [] hl hr same = absurd (ground (arith, same x))
rising_unique (x ∷ l) (y ∷ r) hl hr same =
    let head : x ≡ y = omega (
      arith,
      head_not_below x y r hr.0 (sym (same x) ∙ ground arith),
      head_not_below y x l hl.0 (same y ∙ ground arith),
    ) in
    let tails : (k : ℕ) → mem k l ≡ mem k r =
      λ k. mem_tail k x l hl.0 ∙ rw (same k, head) (sym (mem_tail k y r hr.0)) in
    ap (λ t. x ∷ t) (rising_unique l r hl.1 hr.1 tails) ∙ ap (λ h. h ∷ r) head

has_key-mem {ℓ} : {V : Type ℓ} (k : ℕ) (m : Map V) → has_key k m ≡ mem k (keys m)
has_key-mem k [] = refl
has_key-mem k (e ∷ m) = ground (arith, has_key-mem k m)

sort-IsRising {ℓ} : {V : Type ℓ} (m : Map V) → IsMap m → IsRising (sort (keys m))
unfolding sort
sort-IsRising [] h = tt
sort-IsRising (e ∷ m) h =
    sort_insert-IsRising e.0 (sort (keys m)) (sort-IsRising m h.1)
      (mem-sort e.0 (keys m) ∙ sym (has_key-mem e.0 m) ∙ h.0)

-- Maps with the same keys give the same sorted keys, in whatever order they hold them.
pub sort-keys {ℓ} :
    {V : Type ℓ} (m n : Map V)
    → IsMap m
    → IsMap n
    → ((k : ℕ) → has_key k m ≡ has_key k n)
    → sort (keys m) ≡ sort (keys n)
sort-keys m n hm hn same =
    rising_unique (sort (keys m)) (sort (keys n)) (sort-IsRising m hm) (sort-IsRising n hn) λ k.
      mem-sort k (keys m)
      ∙ sym (has_key-mem k m)
      ∙ same k
      ∙ has_key-mem k n
      ∙ sym (mem-sort k (keys n))
