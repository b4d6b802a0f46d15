-- ===== src/Consensus/Vars/Funds.antt =====
-- What a proposal does to the funds of a ledger channel: nothing is made and nothing is lost.
use go_nitro.Base.{
  ◌≡◌, false, refl, inl, inr, Option, none, some, ℤ, pos, ◌+ℤ◌, ◌-ℤ◌, ◌≤ℤ◌, int_laws, arith, Map,
  IsMap, lookup, has_key, sum_map, sum_map-insert_new, sum_map-erase, insert, erase, insert-IsMap,
  Option-cases, All, [], ◌∷◌, ℕ, ◌↔◌, erase-IsMap, ok, ◌==◌, if◌then◌else◌,
}
use go_nitro.Consensus.Guarantee.{Guarantee}
use go_nitro.Consensus.LedgerOutcome.{LedgerOutcome}
use go_nitro.Consensus.Proposal.{Add, Remove, Proposal, add_proposal, remove_proposal, type_of}
use go_nitro.Consensus.Vars.{Vars, add, remove, handle_proposal, next_turn}

-- The integer behind a pointer, zero if it is nil.
abbrev pub value : Option ℤ → ℤ
value none = pos 0
value (some x) = x

-- Both balances and all guarantees.
abbrev pub total_funds : LedgerOutcome → ℤ
total_funds o = o.leader.amount +ℤ o.follower.amount +ℤ sum_map (λ g. value g.amount) o.guarantees

-- What `Add` checks and does where it succeeds.
pub record Added (v : Vars) (p : Add) (w : Vars) (left amount : ℤ) : Type 0 where
  pub deposit : p.left_deposit ≡ some left
  pub funded : p.guarantee.amount ≡ some amount
  pub fresh : has_key p.guarantee.target v.outcome.guarantees ≡ false
  pub left_fits : left ≤ℤ amount
  pub leader_affords : left ≤ℤ v.outcome.leader.amount
  pub follower_affords : amount -ℤ left ≤ℤ v.outcome.follower.amount
  pub result : w ≡ record {
    turn_num = next_turn v.turn_num;
    outcome = record (v.outcome) {
      leader = record (v.outcome.leader) { amount = v.outcome.leader.amount -ℤ left };
      follower = record (v.outcome.follower) {
        amount = v.outcome.follower.amount -ℤ (amount -ℤ left);
      };
      guarantees = insert p.guarantee.target p.guarantee v.outcome.guarantees;
    };
  }

add_sound : (v : Vars) (p : Add) (w : Vars) → add v p ≡ ok w → (l : ℤ) × (a : ℤ) × Added v p w l a
unfolding add
add_sound v p w h = elim (Option-cases p.left_deposit) [
  | inl e ↦ absurd (ground arith)
  | inr (l, e) ↦ elim (Option-cases p.guarantee.amount) [
    | inl e' ↦ absurd (ground arith)
    | inr (a, e') ↦ (
      l,
      a,
      record {
        deposit = e;
        funded = e';
        fresh = ground arith;
        left_fits = ground arith;
        leader_affords = ground arith;
        follower_affords = ground arith;
        result = ground arith;
      },
    )
  ]
]

add_complete : (v : Vars) (p : Add) (w : Vars) (l a : ℤ) → Added v p w l a → add v p ≡ ok w
unfolding add
add_complete v p w l a h = ground arith

-- `Vars.Add` succeeds exactly if the target is new, both pointers are set, the left deposit is at
-- most the amount and within the leader's balance, and the rest is within the follower's; then it
-- takes the left deposit from the leader's amount and the rest from the follower's, enters the
-- guarantee and raises the turn number.
pub add_iff :
    (v : Vars) (p : Add) (w : Vars) → (add v p ≡ ok w) ↔ ((l : ℤ) × (a : ℤ) × Added v p w l a)
add_iff v p w = (add_sound v p w, λ (l, a, h). add_complete v p w l a h)

-- What `Remove` checks and does where it succeeds.
pub record Removed (v : Vars) (p : Remove) (w : Vars) (g : Guarantee) (left amount : ℤ)
    : Type 0 where
  pub found : lookup p.target v.outcome.guarantees ≡ some g
  pub paid : p.left_amount ≡ some left
  pub funded : g.amount ≡ some amount
  pub left_fits : left ≤ℤ amount
  pub result : w ≡ record {
    turn_num = next_turn v.turn_num;
    outcome = record (v.outcome) {
      leader = record (v.outcome.leader) {
        amount =
            v.outcome.leader.amount
            +ℤ (if v.outcome.leader.destination == g.left then left else amount -ℤ left);
      };
      follower = record (v.outcome.follower) {
        amount =
            v.outcome.follower.amount
            +ℤ (if v.outcome.leader.destination == g.left then amount -ℤ left else left);
      };
      guarantees = erase p.target v.outcome.guarantees;
    };
  }

remove_sound :
    (v : Vars) (p : Remove) (w : Vars)
    → remove v p ≡ ok w
    → (g : Guarantee) × (l : ℤ) × (a : ℤ) × Removed v p w g l a
unfolding remove
remove_sound v p w h = elim (Option-cases (lookup p.target v.outcome.guarantees)) [
  | inl e ↦ absurd (ground arith)
  | inr (g, e) ↦ elim (Option-cases p.left_amount) [
    | inl e' ↦ absurd (ground arith)
    | inr (l, e') ↦ elim (Option-cases g.amount) [
      | inl e'' ↦ absurd (ground arith)
      | inr (a, e'') ↦ (
        g,
        l,
        a,
        record {
          found = e;
          paid = e';
          funded = e'';
          left_fits = ground arith;
          result = ground arith;
        },
      )
    ]
  ]
]

remove_complete :
    (v : Vars) (p : Remove) (w : Vars) (g : Guarantee) (l a : ℤ)
    → Removed v p w g l a
    → remove v p ≡ ok w
unfolding remove
remove_complete v p w g l a h = ground arith

-- `Vars.Remove` succeeds exactly if the target has a guarantee, both pointers are set and the
-- left amount is at most the guarantee's; then it pays the two parts back, to the leader the left
-- one if it is the guarantee's left party, drops the guarantee and raises the turn number.
pub remove_iff :
    (v : Vars) (p : Remove) (w : Vars)
    → (remove v p ≡ ok w) ↔ ((g : Guarantee) × (l : ℤ) × (a : ℤ) × Removed v p w g l a)
remove_iff v p w = (remove_sound v p w, λ (g, l, a, h). remove_complete v p w g l a h)

-- The funds of the two vars are equal, their maps have each target once, and the turn is the next.
pub record Kept (v w : Vars) : Type 0 where
  pub total : total_funds w.outcome ≡ total_funds v.outcome
  pub keyed : IsMap w.outcome.guarantees
  pub turn : w.turn_num ≡ next_turn v.turn_num
  pub leader_name : w.outcome.leader.destination ≡ v.outcome.leader.destination
  pub follower_name : w.outcome.follower.destination ≡ v.outcome.follower.destination

add-Kept : (v : Vars) (p : Add) (w : Vars) → IsMap v.outcome.guarantees → add v p ≡ ok w → Kept v w
add-Kept v p w m h =
    let (l, a, x) = add_sound v p w h in
    rw x.result (record {
      total =
          rw
            (
              sum_map-insert_new (λ g. value g.amount) p.guarantee.target p.guarantee
                  v.outcome.guarantees x.fresh,
              x.funded,
            )
            (omega int_laws);
      keyed = insert-IsMap _ _ _ m;
      turn = refl;
      leader_name = refl;
      follower_name = refl;
    })

remove-Kept :
    (v : Vars) (p : Remove) (w : Vars) → IsMap v.outcome.guarantees → remove v p ≡ ok w → Kept v w
remove-Kept v p w m h =
    let (g, l, a, x) = remove_sound v p w h in
    let erased = sum_map-erase (λ g. value g.amount) p.target g v.outcome.guarantees m x.found in
    rw x.result (record {
      total = grind (int_laws, erased, x.funded);
      keyed = erase-IsMap _ _ m;
      turn = refl;
      leader_name = refl;
      follower_name = refl;
    })

-- A proposal that is handled moves funds between the balances and the guarantees and keeps their
-- sum; it raises the turn number by one and leaves the owners of the balances.
pub handle_proposal-Kept :
    (v : Vars) (p : Proposal) (w : Vars)
    → IsMap v.outcome.guarantees
    → handle_proposal v p ≡ ok w
    → Kept v w
unfolding handle_proposal
handle_proposal-Kept v p w m h =
    ground (arith, add-Kept v p.to_add w m, remove-Kept v p.to_remove w m)

-- Neither the balances nor the guarantees are negative.
pub record IsNonNegative (o : LedgerOutcome) : Type 0 where
  pub leader_nonneg : pos 0 ≤ℤ o.leader.amount
  pub follower_nonneg : pos 0 ≤ℤ o.follower.amount
  pub guarantees_nonneg : All (λ e. pos 0 ≤ℤ value (e.1).amount) o.guarantees

insert_nonneg :
    (k : ℕ) (g : Guarantee) (m : Map Guarantee)
    → pos 0 ≤ℤ value g.amount
    → All (λ e. pos 0 ≤ℤ value (e.1).amount) m
    → All (λ e. pos 0 ≤ℤ value (e.1).amount) (insert k g m)
insert_nonneg k g [] h n = (h, tt)
insert_nonneg k g (x ∷ m) h n = ground (arith, insert_nonneg k g m h n.1)

erase_nonneg :
    (k : ℕ) (m : Map Guarantee)
    → All (λ e. pos 0 ≤ℤ value (e.1).amount) m
    → All (λ e. pos 0 ≤ℤ value (e.1).amount) (erase k m)
erase_nonneg k [] n = tt
erase_nonneg k (x ∷ m) n = ground (arith, erase_nonneg k m n.1)

-- The deposit of an addition, or the amount of a removal.
abbrev pub proposed_amount : Proposal → ℤ
proposed_amount p = elim (type_of p) [
  | add_proposal ↦ value p.to_add.left_deposit
  | remove_proposal ↦ value p.to_remove.left_amount
]

add-IsNonNegative :
    (v : Vars) (p : Add) (w : Vars)
    → IsNonNegative v.outcome
    → pos 0 ≤ℤ value p.left_deposit
    → add v p ≡ ok w
    → IsNonNegative w.outcome
add-IsNonNegative v p w n d h =
    let (l, a, x) = add_sound v p w h in
    let deposit : pos 0 ≤ℤ l = ground (arith, x.deposit) in
    let funded : pos 0 ≤ℤ value p.guarantee.amount = rw x.funded (omega (arith, x.left_fits)) in
    rw x.result (record {
      leader_nonneg = omega (int_laws, x.leader_affords);
      follower_nonneg = omega (int_laws, x.follower_affords);
      guarantees_nonneg =
          insert_nonneg p.guarantee.target p.guarantee v.outcome.guarantees funded
            n.guarantees_nonneg;
    })

remove-IsNonNegative :
    (v : Vars) (p : Remove) (w : Vars)
    → IsNonNegative v.outcome
    → pos 0 ≤ℤ value p.left_amount
    → remove v p ≡ ok w
    → IsNonNegative w.outcome
remove-IsNonNegative v p w n d h =
    let (g, l, a, x) = remove_sound v p w h in
    let paid : pos 0 ≤ℤ l = ground (arith, x.paid) in
    rw x.result (record {
      leader_nonneg = grind (int_laws, x.left_fits);
      follower_nonneg = grind (int_laws, x.left_fits);
      guarantees_nonneg = erase_nonneg p.target v.outcome.guarantees n.guarantees_nonneg;
    })

-- A proposal whose deposit or amount is not negative keeps all balances and guarantees from
-- falling below zero.
pub handle_proposal-IsNonNegative :
    (v : Vars) (p : Proposal) (w : Vars)
    → IsNonNegative v.outcome
    → pos 0 ≤ℤ proposed_amount p
    → handle_proposal v p ≡ ok w
    → IsNonNegative w.outcome
unfolding handle_proposal
handle_proposal-IsNonNegative v p w n d h =
    ground (arith, add-IsNonNegative v p.to_add w n, remove-IsNonNegative v p.to_remove w n)

-- A proposal that is handled raises the turn number by one, modulo 2 ^ 64.
pub handle_proposal_turn :
    (v : Vars) (p : Proposal) (w : Vars)
    → handle_proposal v p ≡ ok w
    → w.turn_num ≡ next_turn v.turn_num
unfolding handle_proposal add remove
handle_proposal_turn v p w h = ground arith
