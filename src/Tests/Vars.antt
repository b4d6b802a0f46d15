-- ===== src/Tests/Vars.antt =====
-- Additions and removals of guarantees at concrete vars.
use go_nitro.Base.{◌≡◌, ◌↔◌, refl, some, [], ◌∷◌, ℤ, pos, negsuc, ok, arith, ◌+ℤ◌, ◌-ℤ◌}
use go_nitro.Consensus.Guarantee.{Guarantee}
use go_nitro.Consensus.Proposal.{Add, Proposal, zero_remove, type_of}
use go_nitro.Consensus.Vars.{Vars, add, remove, handle_proposal}
use go_nitro.Consensus.Vars.Funds.{
  Added, add_iff, Removed, remove_iff, Kept, handle_proposal-Kept, IsNonNegative,
  handle_proposal-IsNonNegative,
}
use go_nitro.Consensus.Vars.RoundTrip.{undo, remove-add, remove-add_swapped, add_negative}

-- Two turns before the turn number wraps around.
abbrev before : Vars
before = record {
  turn_num = 18446744073709551614;
  outcome = record {
    asset_address = 0;
    leader = record { destination = 1; amount = pos 100 };
    follower = record { destination = 2; amount = pos 50 };
    guarantees = (9, record { amount = some (pos 4); target = 9; left = 1; right = 2 }) ∷ [];
  };
}

abbrev guarantee : Guarantee
guarantee = record { amount = some (pos 30); target = 5; left = 1; right = 2 }

abbrev addition : Add
addition = record { guarantee = guarantee; left_deposit = some (pos 20) }

abbrev proposal : Proposal
proposal = record { ledger_id = 3; to_add = addition; to_remove = zero_remove }

abbrev later : Vars
later = record {
  turn_num = 18446744073709551615;
  outcome = record {
    asset_address = 0;
    leader = record { destination = 1; amount = pos 80 };
    follower = record { destination = 2; amount = pos 40 };
    guarantees =
        (9, record { amount = some (pos 4); target = 9; left = 1; right = 2 })
        ∷ (5, guarantee)
        ∷ [];
  };
}

add_run : add before addition ≡ ok later
unfolding add ◌-ℤ◌
add_run = refl

handle_run : handle_proposal before proposal ≡ ok later
unfolding handle_proposal ◌-ℤ◌
handle_run = refl

-- The turn number wraps around.
remove_run : remove later (undo addition) ≡ ok (record { turn_num = 0; outcome = before.outcome })
unfolding remove ◌+ℤ◌ ◌-ℤ◌
remove_run = refl

add_iff_example :
    (add before addition ≡ ok later) ↔ ((l : ℤ) × (a : ℤ) × Added before addition later l a)
add_iff_example = add_iff before addition later

remove_iff_example :
    (remove later (undo addition) ≡ ok before)
    ↔ ((g : Guarantee) × (l : ℤ) × (a : ℤ) × Removed later (undo addition) before g l a)
remove_iff_example = remove_iff later (undo addition) before

handle_proposal-Kept_example : Kept before later
handle_proposal-Kept_example = handle_proposal-Kept before proposal later (refl, tt) handle_run

before-IsNonNegative : IsNonNegative before.outcome
before-IsNonNegative = record {
  leader_nonneg = omega arith;
  follower_nonneg = omega arith;
  guarantees_nonneg = (omega arith, tt);
}

handle_proposal-IsNonNegative_example : IsNonNegative later.outcome
unfolding type_of
handle_proposal-IsNonNegative_example =
    handle_proposal-IsNonNegative before proposal later before-IsNonNegative (omega arith)
      handle_run

remove-add_example :
    remove later (undo addition) ≡ ok (record { turn_num = 0; outcome = before.outcome })
remove-add_example = remove-add before later addition refl add_run

abbrev swapped : Add
swapped = record {
  guarantee = record { amount = some (pos 30); target = 5; left = 2; right = 1 };
  left_deposit = some (pos 20);
}

abbrev swapped_later : Vars
swapped_later = record {
  turn_num = 18446744073709551615;
  outcome = record {
    asset_address = 0;
    leader = record { destination = 1; amount = pos 80 };
    follower = record { destination = 2; amount = pos 40 };
    guarantees =
        (9, record { amount = some (pos 4); target = 9; left = 1; right = 2 })
        ∷ (5, swapped.guarantee)
        ∷ [];
  };
}

swapped-Added : Added before swapped swapped_later (pos 20) (pos 30)
unfolding ◌-ℤ◌
swapped-Added = record {
  deposit = refl;
  funded = refl;
  fresh = refl;
  left_fits = omega arith;
  leader_affords = omega arith;
  follower_affords = omega arith;
  result = refl;
}

remove-add_swapped_example :
    (u : Vars) × (remove swapped_later (undo swapped) ≡ ok u)
    × (u.outcome.leader.amount +ℤ pos 20 +ℤ pos 20 ≡ pos 100 +ℤ pos 30)
    × (u.outcome.follower.amount +ℤ pos 30 ≡ pos 50 +ℤ pos 20 +ℤ pos 20)
remove-add_swapped_example =
    remove-add_swapped before swapped_later swapped (pos 20) (pos 30) (omega arith) swapped-Added

abbrev negative : Guarantee
negative = record { amount = some (negsuc 9); target = 5; left = 1; right = 2 }

add_negative_example :
    (w : Vars) × (add before (record { guarantee = negative; left_deposit = some (negsuc 9) })
      ≡ ok w)
    × (w.outcome.leader.amount ≡ pos 100 +ℤ pos 10)
add_negative_example = add_negative before negative 9 refl (omega arith) (omega arith) refl
