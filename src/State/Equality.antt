-- ===== src/State/Equality.antt =====
-- `State.Equal` decides equality, and what `State.Clone` leaves out.
use go_nitro.Base.{
  ◌≡◌, ◌↔◌, refl, sym, ap, true, Bool, equal_bools, Option, none, some, [], ◌∷◌, List, ℕ, ℤ, arith,
  equal_bytes_iff, eqb_ℤ_iff, length, drop, zero, suc, ok, deref, >>=-eq-ok, or_fail-eq-ok,
  ok_injective, panicked,
}
use go_nitro.Outcome.Allocation.{Allocation, Allocations}
use go_nitro.Outcome.Allocation
use go_nitro.Outcome.Exit.{SingleAssetExit, Exit}
use go_nitro.Outcome.Exit
use go_nitro.Outcome.Exit.Laws
use go_nitro.State.Data.{
  State, equal, equal_pointers, equal_participants, clone, clone_fixed_part, fixed_part,
  variable_part, state_from_fixed_and_variable_part,
}

equal_pointers_iff : (a b : Option ℤ) → (equal_pointers a b ≡ true) ↔ (a ≡ b)
unfolding equal_pointers
equal_pointers_iff none none = (λ h. refl, λ h. refl)
equal_pointers_iff none (some b) = (λ h. cc, λ h. cc)
equal_pointers_iff (some a) none = (λ h. cc, λ h. cc)
equal_pointers_iff (some a) (some b) =
    (λ h. ap some ((eqb_ℤ_iff a b).0 h), λ h. (eqb_ℤ_iff a b).1 (cc))

equal_participants_iff : (p q : List ℕ) → (equal_participants p q ≡ true) ↔ (p ≡ q)
unfolding equal_participants
equal_participants_iff p q =
    (λ h. ground (arith, equal_bytes_iff p q), λ e. rw e (ground (arith, equal_bytes_iff q q)))

equal_bools_iff : (a b : Bool) → (equal_bools a b ≡ true) ↔ (a ≡ b)
equal_bools_iff a b = ground arith

-- `State.Equal` holds exactly of states that agree in every field.
pub equal_states_iff : (s r : State) → (equal s r ≡ true) ↔ (s ≡ r)
unfolding equal
equal_states_iff s r = (
  λ h. ground (
    arith,
    equal_pointers_iff s.chain_id r.chain_id,
    equal_participants_iff s.participants r.participants,
    equal_pointers_iff s.channel_nonce r.channel_nonce,
    equal_pointers_iff s.challenge_duration r.challenge_duration,
    equal_bytes_iff s.app_data r.app_data,
    Laws.equal_exits_iff s.outcome r.outcome,
    equal_bools_iff s.is_final r.is_final,
  ),
  λ e. rw e (
      ground (
        arith,
        equal_pointers_iff r.chain_id r.chain_id,
        equal_participants_iff r.participants r.participants,
        equal_pointers_iff r.channel_nonce r.channel_nonce,
        equal_pointers_iff r.challenge_duration r.challenge_duration,
        equal_bytes_iff r.app_data r.app_data,
        Laws.equal_exits_iff r.outcome r.outcome,
        equal_bools_iff r.is_final r.is_final,
      )),
)

pub clone_allocations : (a : Allocations) → Allocation.clone_all a ≡ a
unfolding Allocation.clone_all
clone_allocations [] = refl
clone_allocations (x ∷ a) = ap (λ r. x ∷ r) (clone_allocations a)

clone_outcome : (e : Exit) → Exit.clone e ≡ e
unfolding Exit.clone
clone_outcome [] = refl
clone_outcome (s ∷ e) = rw (clone_allocations s.allocations) (ap (λ r. s ∷ r) (clone_outcome e))

drop-nil : (n : ℕ) → drop {A = ℕ} n [] ≡ []
drop-nil zero = refl
drop-nil (suc n) = refl

restored :
    (s : State) (c n d : ℤ)
    → s.chain_id ≡ some c
    → s.channel_nonce ≡ some n
    → s.challenge_duration ≡ some d
    → record s {
      chain_id = some c;
      channel_nonce = some n;
      challenge_duration = some d;
      app_data = [];
    }
      ≡ record s { app_data = [] }
restored s c n d pc pn pd i = record s {
  chain_id = sym pc i;
  channel_nonce = sym pn i;
  challenge_duration = sym pd i;
  app_data = [];
}

pub clone_lem :
    (s r : State)
    → (clone s ≡ ok r) ↔ (
        (c : ℤ) × (n : ℤ) × (d : ℤ) × (s.chain_id ≡ some c)
        × (s.channel_nonce ≡ some n)
        × (s.challenge_duration ≡ some d)
        × (r ≡ record s { app_data = [] }))
unfolding clone
clone_lem s r = (
  λ h.
      let (f, hf, h1) = >>=-eq-ok (clone_fixed_part (fixed_part s)) _ h in
      let (c, hc, h2) = >>=-eq-ok (deref s.chain_id) _ hf in
      let (n, hn, h3) = >>=-eq-ok (deref s.channel_nonce) _ h2 in
      let (d, hd, h4) = >>=-eq-ok (deref s.challenge_duration) _ h3 in
      let pc = or_fail-eq-ok s.chain_id panicked hc in
      let pn = or_fail-eq-ok s.channel_nonce panicked hn in
      let pd = or_fail-eq-ok s.challenge_duration panicked hd in
      (
        c,
        n,
        d,
        pc,
        pn,
        pd,
        rw
            (
              ← ok_injective h1,
              ← ok_injective h4,
              clone_outcome s.outcome,
              drop-nil (length s.app_data),
            )
            (restored s c n d pc pn pd),
      ),
  λ (c, n, d, pc, pn, pd, e).
      rw (pc, pn, pd, e, clone_outcome s.outcome, drop-nil (length s.app_data))
        (ap ok (restored s c n d pc pn pd)),
)

-- A state is its fixed part and its variable part.
pub state_from_fixed_and_variable_part-parts :
    (s : State) → state_from_fixed_and_variable_part (fixed_part s) (variable_part s) ≡ s
unfolding state_from_fixed_and_variable_part fixed_part variable_part
state_from_fixed_and_variable_part-parts s = refl
