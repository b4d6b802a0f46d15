-- ===== src/Outcome/Allocation/Equality.antt =====
-- `Allocation.Equal` and `Allocations.Equal` decide equality.
use go_nitro.Base.{◌≡◌, ◌↔◌, refl, true, ◌∷◌, [], arith, equal_bytes_iff}
use go_nitro.Outcome.Allocation.{Allocation, Allocations, equal, equal_all}

-- `Allocation.Equal` holds exactly of equal allocations.
pub equal_iff : (a b : Allocation) → (equal a b ≡ true) ↔ (a ≡ b)
unfolding equal
equal_iff a b = (
  λ h. ground (arith, equal_bytes_iff a.metadata b.metadata),
  λ e. rw e (ground (arith, equal_bytes_iff b.metadata b.metadata)),
)

equal_all_sound : (a b : Allocations) → equal_all a b ≡ true → a ≡ b
unfolding equal_all
equal_all_sound [] [] h = refl
equal_all_sound [] (y ∷ b) h = ground arith
equal_all_sound (x ∷ a) [] h = ground arith
equal_all_sound (x ∷ a) (y ∷ b) h = ground (arith, equal_iff x y, equal_all_sound a b)

equal_all_refl : (a : Allocations) → equal_all a a ≡ true
unfolding equal_all
equal_all_refl [] = refl
equal_all_refl (x ∷ a) = ground (arith, equal_iff x x, equal_all_refl a)

-- `Allocations.Equal` holds exactly of equal lists: the same allocations at the same positions.
pub equal_all_iff : (a b : Allocations) → (equal_all a b ≡ true) ↔ (a ≡ b)
equal_all_iff a b = (equal_all_sound a b, λ e. rw e (equal_all_refl b))
