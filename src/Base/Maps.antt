-- ===== src/Base/Maps.antt =====
-- Go's maps, keyed by addresses or destinations, as association lists in the order in which a
-- `range` loop would meet the entries. `IsMap` says that no key stands twice.
use Prim.Native.Nat.{ℕ}
use mathlib.Core.Path.{◌≡◌, refl}
use mathlib.Core.Bool.{Bool, true, false}
use mathlib.Core.Option.{Option, none, some}
use mathlib.Core.List.{List, [], ◌∷◌, map}
use native.Mathlib.Omega.{arith}
use go_nitro.Base.Tests.{◌==◌, if◌then◌else◌}
use go_nitro.Base.Int.{ℤ, pos, ◌+ℤ◌, int_laws}

abbrev pub Map {ℓ} : Type ℓ → Type ℓ
Map V = List (ℕ × V)

module _ {ℓ} {V W : Type ℓ} where
  -- The same keys, with another value for each.
  unfoldable pub map_values : (V → W) → Map V → Map W
  map_values f [] = []
  map_values f ((k, v) ∷ m) = (k, f v) ∷ map_values f m

module _ {ℓ} {V W : Type ℓ} where
  pub map_values-map_values :
      (f : V → W) (g : W → V)
      → ((v : V) → g (f v) ≡ v)
      → (m : Map V) → map_values g (map_values f m) ≡ m
  unfolding map_values
  map_values-map_values f g h [] = refl
  map_values-map_values f g h ((k, v) ∷ m) = λ i. (k, h v i) ∷ map_values-map_values f g h m i

  pub map-map :
      (f : V → W) (g : W → V) → ((v : V) → g (f v) ≡ v) → (l : List V) → map g (map f l) ≡ l
  map-map f g h [] = refl
  map-map f g h (v ∷ l) = λ i. h v i ∷ map-map f g h l i

module _ {ℓ} {V : Type ℓ} where
  abbrev pub lookup : ℕ → Map V → Option V
  lookup k [] = none
  lookup k ((j, v) ∷ m) = if k == j then some v else lookup k m

  -- `_, found := m[k]`
  abbrev pub has_key : ℕ → Map V → Bool
  has_key k m = elim (lookup k m) [ none ↦ false | some _ ↦ true ]

  -- `m[k] = v`
  abbrev pub insert : ℕ → V → Map V → Map V
  insert k v [] = (k, v) ∷ []
  insert k v ((j, w) ∷ m) = if k == j then (k, v) ∷ m else (j, w) ∷ insert k v m

  -- `delete(m, k)`
  abbrev pub erase : ℕ → Map V → Map V
  erase k [] = []
  erase k ((j, w) ∷ m) = let rest = erase k m in if k == j then rest else (j, w) ∷ rest

  abbrev pub keys : Map V → List ℕ
  keys = map (λ e. e.0)

  abbrev pub IsMap : Map V → Type 0
  IsMap [] = Unit
  IsMap ((k, v) ∷ m) = (has_key k m ≡ false) × IsMap m

  pub lookup-insert :
      (j k : ℕ) (v : V) (m : Map V)
      → lookup j (insert k v m) ≡ (if j == k then some v else lookup j m)
  lookup-insert j k v [] = refl
  lookup-insert j k v (e ∷ m) = ground (arith, lookup-insert j k v m)

  pub lookup-erase :
      (j k : ℕ) (m : Map V) → lookup j (erase k m) ≡ (if j == k then none else lookup j m)
  lookup-erase j k [] = ground arith
  lookup-erase j k (e ∷ m) = ground (arith, lookup-erase j k m)

  pub insert-IsMap : (k : ℕ) (v : V) (m : Map V) → IsMap m → IsMap (insert k v m)
  insert-IsMap k v [] h = (refl, tt)
  insert-IsMap k v (e ∷ m) h = ground (arith, insert-IsMap k v m h.1, lookup-insert e.0 k v m)

  pub erase-IsMap : (k : ℕ) (m : Map V) → IsMap m → IsMap (erase k m)
  erase-IsMap k [] h = tt
  erase-IsMap k (e ∷ m) h = ground (arith, erase-IsMap k m h.1, lookup-erase e.0 k m)

  -- Erasing a key that is not there changes nothing.
  pub erase_missing : (k : ℕ) (m : Map V) → has_key k m ≡ false → erase k m ≡ m
  erase_missing k [] h = refl
  erase_missing k (e ∷ m) h = ground (arith, erase_missing k m)

  -- The sum of a quantity over the entries.
  abbrev pub sum_map : (V → ℤ) → Map V → ℤ
  sum_map f [] = pos 0
  sum_map f ((k, v) ∷ m) = f v +ℤ sum_map f m

  pub sum_map-insert_new :
      (f : V → ℤ) (k : ℕ) (v : V) (m : Map V)
      → has_key k m ≡ false
      → sum_map f (insert k v m) ≡ sum_map f m +ℤ f v
  sum_map-insert_new f k v [] h = omega int_laws
  sum_map-insert_new f k v (e ∷ m) h = grind (int_laws, sum_map-insert_new f k v m)

  pub sum_map-erase :
      (f : V → ℤ) (k : ℕ) (v : V) (m : Map V)
      → IsMap m
      → lookup k m ≡ some v
      → sum_map f (erase k m) +ℤ f v ≡ sum_map f m
  sum_map-erase f k v [] h e = cc
  sum_map-erase f k v (x ∷ m) h e = grind (int_laws, sum_map-erase f k v m h.1, erase_missing k m)
