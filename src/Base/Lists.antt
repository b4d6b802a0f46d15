-- ===== src/Base/Lists.antt =====
-- Lists over the native numbers: lengths, positions, predicates on every entry.
use Prim.Native.Nat.{ℕ, zero, suc, ◌+◌}
use Prim.Native.Nat.add
use native.Mathlib.Nat.{zero-add}
use mathlib.Core.Path.{◌≡◌, refl, ap}
use mathlib.Core.Bool.{Bool, true, false, ◌&&◌}
use mathlib.Core.Option.{Option, none, some}
use mathlib.Core.Logic.{◌↔◌}
use mathlib.Core.List.{List, [], ◌∷◌, ◌++◌}
use native.Mathlib.Omega.{arith}
use go_nitro.Base.Tests.{◌==◌}

module _ {ℓ} {A : Type ℓ} where
  abbrev pub length : List A → ℕ
  length [] = 0
  length (x ∷ xs) = suc (length xs)

  abbrev pub get_elem? : List A → ℕ → Option A
  get_elem? [] i = none
  get_elem? (x ∷ xs) zero = some x
  get_elem? (x ∷ xs) (suc i) = get_elem? xs i

  -- A write out of bounds changes nothing.
  abbrev pub set : List A → ℕ → A → List A
  set [] i v = []
  set (x ∷ xs) zero v = v ∷ xs
  set (x ∷ xs) (suc i) v = x ∷ set xs i v

  abbrev pub take : ℕ → List A → List A
  take zero xs = []
  take (suc n) [] = []
  take (suc n) (x ∷ xs) = x ∷ take n xs

  abbrev pub drop : ℕ → List A → List A
  drop zero xs = xs
  drop (suc n) [] = []
  drop (suc n) (x ∷ xs) = drop n xs

  pub length-append : (xs ys : List A) → length (xs ++ ys) ≡ length xs + length ys
  length-append [] ys = omega arith
  length-append (x ∷ xs) ys = omega (arith, length-append xs ys)

  pub take-append-take-drop :
      (m n : ℕ) (xs : List A) → take m xs ++ take n (drop m xs) ≡ take (m + n) xs
  take-append-take-drop zero n xs = rw zero-add
  take-append-take-drop (suc m) zero [] = rw (add.suc m zero)
  take-append-take-drop (suc m) (suc n) [] = rw (add.suc m (suc n))
  take-append-take-drop (suc m) n (x ∷ xs) =
      rw (add.suc m n) (ap (λ r. x ∷ r) (take-append-take-drop m n xs))

  -- A list is its front and its last entry.
  pub take-append_last :
      (n : ℕ) (xs : List A) {v : A}
      → length xs ≡ suc n
      → get_elem? xs n ≡ some v
      → take n xs ++ v ∷ [] ≡ xs
  take-append_last zero [] h e = cc
  take-append_last zero (x ∷ []) h e = ground (arith, e)
  take-append_last zero (x ∷ y ∷ xs) h e = absurd (omega arith)
  take-append_last (suc n) [] h e = cc
  take-append_last (suc n) (x ∷ xs) h e = ap (λ r. x ∷ r) (take-append_last n xs (omega arith) e)

  -- Every entry satisfies the predicate.
  abbrev pub All {κ} : (A → Type κ) → List A → Type κ
  All P [] = Unit
  All P (x ∷ xs) = P x × All P xs

  pub All-append {κ} : (P : A → Type κ) (xs ys : List A) → All P xs → All P ys → All P (xs ++ ys)
  All-append P [] ys hx hy = hy
  All-append P (x ∷ xs) ys hx hy = (hx.0, All-append P xs ys hx.1 hy)

-- `bytes.Equal`, and `==` on slices of numbers.
abbrev pub equal_bytes : List ℕ → List ℕ → Bool
equal_bytes [] [] = true
equal_bytes [] (y ∷ ys) = false
equal_bytes (x ∷ xs) [] = false
equal_bytes (x ∷ xs) (y ∷ ys) = x == y && equal_bytes xs ys

equal_bytes_sound : (a b : List ℕ) → equal_bytes a b ≡ true → a ≡ b
equal_bytes_sound [] [] h = refl
equal_bytes_sound [] (y ∷ b) h = cc
equal_bytes_sound (x ∷ a) [] h = cc
equal_bytes_sound (x ∷ a) (y ∷ b) h = ground (arith, equal_bytes_sound a b)

equal_bytes_refl : (a : List ℕ) → equal_bytes a a ≡ true
equal_bytes_refl [] = refl
equal_bytes_refl (x ∷ a) = ground (arith, equal_bytes_refl a)

pub equal_bytes_iff : (a b : List ℕ) → (equal_bytes a b ≡ true) ↔ (a ≡ b)
equal_bytes_iff a b = (equal_bytes_sound a b, λ e. rw e (equal_bytes_refl b))
