-- ===== src/Consensus/Vars/RoundTrip.antt =====
-- Adding a guarantee and removing it again, and what the checks of an addition let through.
use go_nitro.Base.{
  ℕ, suc, ◌≡◌, ◌≢◌, refl, some, ℤ, pos, negsuc, ◌+ℤ◌, ◌-ℤ◌, ◌≤ℤ◌, int_laws, arith, has_key, false,
  insert, erase, lookup-insert, Map, ok, [], ◌∷◌,
}
use go_nitro.Consensus.Guarantee.{Guarantee}
use go_nitro.Consensus.Proposal.{Add, Remove}
use go_nitro.Consensus.Vars.{Vars, add, remove, next_turn, debit, credit}
use go_nitro.Consensus.Vars.Funds.{Added, add_iff, remove_iff}

erase-insert :
    (k : ℕ) (g : Guarantee) (m : Map Guarantee) → has_key k m ≡ false → erase k (insert k g m) ≡ m
erase-insert k g [] h = ground arith
erase-insert k g (x ∷ m) h = ground (arith, erase-insert k g m)

-- What the removal of an addition's guarantee asks for, with the amount of its left deposit.
abbrev pub undo : Add → Remove
undo p = record { target = p.guarantee.target; left_amount = p.left_deposit }

-- Where the leader is the guarantee's left party, removing what was added, with the left deposit
-- as the left amount, succeeds and gives the old outcome back, two turns later.
pub remove-add :
    (v w : Vars) (p : Add)
    → v.outcome.leader.destination ≡ p.guarantee.left
    → add v p ≡ ok w
    → remove w (undo p)
      ≡ ok (record { turn_num = next_turn (next_turn v.turn_num); outcome = v.outcome })
remove-add v w p own h =
    let (l, a, x) = (add_iff v p w).0 h in
    (remove_iff w (undo p) _).1 (
      p.guarantee,
      l,
      a,
      record {
        found = rw x.result (
            ground (
              arith,
              lookup-insert p.guarantee.target p.guarantee.target p.guarantee v.outcome.guarantees,
            ));
        paid = x.deposit;
        funded = x.funded;
        left_fits = x.left_fits;
        result = rw x.result (
            grind (
              int_laws,
              own,
              erase-insert p.guarantee.target p.guarantee v.outcome.guarantees x.fresh,
            ));
      },
    )

-- Where the leader is not the left party, the addition still takes the left deposit from the
-- leader, while the removal pays it to the follower: the two balances have swapped their parts.
pub remove-add_swapped :
    (v w : Vars) (p : Add) (l a : ℤ)
    → v.outcome.leader.destination ≢ p.guarantee.left
    → Added v p w l a
    → (u : Vars) × (remove w (undo p) ≡ ok u)
      × (u.outcome.leader.amount +ℤ l +ℤ l ≡ v.outcome.leader.amount +ℤ a)
      × (u.outcome.follower.amount +ℤ a ≡ v.outcome.follower.amount +ℤ l +ℤ l)
remove-add_swapped v w p l a own x =
    let u : Vars = record {
      turn_num = next_turn w.turn_num;
      outcome = record (w.outcome) {
        leader = credit w.outcome.leader (a -ℤ l);
        follower = credit w.outcome.follower l;
        guarantees = erase p.guarantee.target w.outcome.guarantees;
      };
    } in
    (
      u,
      (remove_iff w (undo p) u).1 (
        p.guarantee,
        l,
        a,
        record {
          found = rw x.result (
              ground (
                arith,
                lookup-insert p.guarantee.target p.guarantee.target p.guarantee
                    v.outcome.guarantees,
              ));
          paid = x.deposit;
          funded = x.funded;
          left_fits = x.left_fits;
          result = rw x.result (ground (arith, own));
        },
      ),
      rw x.result (omega int_laws),
      rw x.result (omega int_laws),
    )

-- The checks let a negative amount through: an addition of a guarantee of -(n + 1) that the leader
-- deposits alone, for a target that has no guarantee yet, succeeds in every outcome with balances
-- of zero or more, and raises the leader's balance by n + 1.
pub add_negative :
    (v : Vars) (g : Guarantee) (n : ℕ)
    → has_key g.target v.outcome.guarantees ≡ false
    → pos 0 ≤ℤ v.outcome.leader.amount
    → pos 0 ≤ℤ v.outcome.follower.amount
    → g.amount ≡ some (negsuc n)
    → (w : Vars) × (add v (record { guarantee = g; left_deposit = some (negsuc n) }) ≡ ok w)
      × (w.outcome.leader.amount ≡ v.outcome.leader.amount +ℤ pos (suc n))
add_negative v g n fresh lead follow e =
    let w : Vars = record {
      turn_num = next_turn v.turn_num;
      outcome = record (v.outcome) {
        leader = debit v.outcome.leader (negsuc n);
        follower = debit v.outcome.follower (negsuc n -ℤ negsuc n);
        guarantees = insert g.target g v.outcome.guarantees;
      };
    } in
    (
      w,
      (add_iff v _ w).1 (
        negsuc n,
        negsuc n,
        record {
          deposit = refl;
          funded = e;
          fresh = fresh;
          left_fits = omega arith;
          leader_affords = omega arith;
          follower_affords = omega int_laws;
          result = refl;
        },
      ),
      omega int_laws,
    )
