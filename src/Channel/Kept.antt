-- ===== src/Channel/Kept.antt =====
-- What adding and signing states leaves alone in a channel.
use go_nitro.Base.{
  ◌≡◌, ◌∙◌, refl, ap, Bool, Bool-cases, Option-cases, inl, inr, ◌⊎◌, subst, not, lookup, arith, ok,
  fail_if, >>=-eq-ok, ok_injective, panicked, ℕ, ◌==◌, ltb, if◌then◌else◌, Map, some, [], ◌∷◌, keys,
  insert, lookup-insert,
}
use go_nitro.Types.Destination.{Bytes}
use go_nitro.State.Data.{State}
use go_nitro.State.Library.{Library}
use go_nitro.State.Hashing
use go_nitro.State.Hashing.{state_channel_id}
use go_nitro.State.Signed.{SignedState, new_signed_state, merge}
use go_nitro.Channel.{Channel, latest_turn}
use go_nitro.Channel.Updates.{
  update_supported, merge_stored, add_signed_state, own_signature, sign_and_add_state,
}

-- The same channel for the same participant, with the same holdings.
pub record IsKept (c c' : Channel) : Type 0 where
  pub name : c'.id ≡ c.id
  pub role : c'.my_index ≡ c.my_index
  pub fixed : c'.fp ≡ c.fp
  pub holdings : c'.on_chain_funding ≡ c.on_chain_funding

-- The map has a signed state for the turn.
abbrev pub Has : ℕ → Map SignedState → Type 0
Has k m = (ss : SignedState) × (lookup k m ≡ some ss)

insert-Has : (k j : ℕ) (ss : SignedState) (m : Map SignedState) → Has k m → Has k (insert j ss m)
insert-Has k j ss m (x, h) = elim (Bool-cases (k == j)) [
  | inl same ↦ (ss, lookup-insert k j ss m ∙ ground (arith, same))
  | inr other ↦ (x, lookup-insert k j ss m ∙ ground (arith, other, h))
]

later_turn :
    (n : ℕ) (m : Map SignedState) → (latest_turn n (keys m) ≡ n) ⊎ Has (latest_turn n (keys m)) m
unfolding latest_turn
later_turn n [] = inl refl
later_turn n (e ∷ m) =
    let next = if ltb n e.0 then e.0 else n in
    elim (Bool-cases (latest_turn next (keys m) == e.0)) [
      | inl here ↦ inr (e.1, ground (arith, here))
      | inr other ↦ elim (later_turn next m) [
        | inr (x, h) ↦ inr (x, ground (arith, other, h))
        | inl same ↦ inl (ground (arith, other, same))
      ]
    ]

-- The latest turn of a map that is not empty is one that it has.
pub latest_turn-Has :
    (e : ℕ × SignedState) (m : Map SignedState) → Has (latest_turn 0 (keys (e ∷ m))) (e ∷ m)
unfolding latest_turn
latest_turn-Has e m =
    let next = if ltb 0 e.0 then e.0 else 0 in
    elim (Bool-cases (latest_turn next (keys m) == e.0)) [
      | inl here ↦ (e.1, ground (arith, here))
      | inr other ↦ elim (later_turn next m) [
        | inr (x, h) ↦ (x, ground (arith, other, h))
        | inl same ↦ absurd (ground (arith, other, same))
      ]
    ]

module _ (lib : Library) where
  merge_stored-Has :
      (k : ℕ) (c c' : Channel) (stored ss : SignedState) (b : Bool)
      → merge_stored lib c stored ss ≡ ok (b, c')
      → Has k c.signed_state_for_turn_num
      → Has k c'.signed_state_for_turn_num
  unfolding merge_stored update_supported
  merge_stored-Has k c c' stored ss b e h =
      let kept =
        insert-Has k ss.state.turn_num (merge lib stored ss).0 c.signed_state_for_turn_num h in
      subst (Has k) (ground (arith, e)) kept

  add_signed_state-Has :
      (k : ℕ) (c c' : Channel) (ss : SignedState) (b : Bool)
      → add_signed_state lib c ss ≡ ok (b, c')
      → Has k c.signed_state_for_turn_num
      → Has k c'.signed_state_for_turn_num
  unfolding add_signed_state update_supported
  add_signed_state-Has k c c' ss b e h =
      let (id, hid, e1) = >>=-eq-ok (state_channel_id lib ss.state) _ e in
      elim (Option-cases (lookup ss.state.turn_num c.signed_state_for_turn_num)) [
        | inr (stored, at) ↦
            let merged : (merge_stored lib c stored ss ≡ ok (b, c')) ⊎ (c ≡ c') =
              ground (arith, at, e1) in
            elim merged [
              | inl m ↦ merge_stored-Has k c c' stored ss b m h
              | inr same ↦ subst (λ x. Has k x.signed_state_for_turn_num) same h
            ]
        | inl fresh ↦
            let entered = insert ss.state.turn_num ss c.signed_state_for_turn_num in
            let made : (entered ≡ c'.signed_state_for_turn_num)
                ⊎ (c.signed_state_for_turn_num ≡ c'.signed_state_for_turn_num) =
              ground (arith, fresh, e1) in
            elim made [
              | inl new ↦
                  subst (Has k) new
                    (insert-Has k ss.state.turn_num ss c.signed_state_for_turn_num h)
              | inr same ↦ subst (Has k) same h
            ]
      ]

  -- Signing a state keeps a signed state for each turn that had one.
  pub sign_and_add_state-Has :
      (k : ℕ) (c c' : Channel) (s : State) (key : Bytes) (ss : SignedState)
      → sign_and_add_state lib c s key ≡ ok (ss, c')
      → Has k c.signed_state_for_turn_num
      → Has k c'.signed_state_for_turn_num
  unfolding sign_and_add_state
  sign_and_add_state-Has k c c' s key ss e h =
      let (sig, _, e1) = >>=-eq-ok (Hashing.sign lib s key) _ e in
      let (made, _, e2) = >>=-eq-ok (own_signature lib (new_signed_state s) sig) _ e1 in
      let (r, hr, e3) = >>=-eq-ok (add_signed_state lib c made) _ e2 in
      let (_, _, e4) = >>=-eq-ok (fail_if (not r.0) panicked) _ e3 in
      subst (λ x. Has k x.signed_state_for_turn_num) (ap (λ x. x.1) (ok_injective e4))
        (add_signed_state-Has k c r.1 made r.0 hr h)

  merge_stored-IsKept :
      (c c' : Channel) (stored ss : SignedState) (b : Bool)
      → merge_stored lib c stored ss ≡ ok (b, c')
      → IsKept c c'
  unfolding merge_stored update_supported
  merge_stored-IsKept c c' stored ss b e = record {
    name = ground (arith, e);
    role = ground (arith, e);
    fixed = ground (arith, e);
    holdings = ground (arith, e);
  }

  pub add_signed_state-IsKept :
      (c c' : Channel) (ss : SignedState) (b : Bool)
      → add_signed_state lib c ss ≡ ok (b, c')
      → IsKept c c'
  unfolding add_signed_state update_supported
  add_signed_state-IsKept c c' ss b e =
      let (id, hid, e1) = >>=-eq-ok (state_channel_id lib ss.state) _ e in
      elim (Option-cases (lookup ss.state.turn_num c.signed_state_for_turn_num)) [
        | inr (stored, at) ↦
            let merged : (merge_stored lib c stored ss ≡ ok (b, c')) ⊎ (c ≡ c') =
              ground (arith, at, e1) in
            elim merged [
              | inl h ↦ merge_stored-IsKept c c' stored ss b h
              | inr same ↦
                  subst (IsKept c) same
                    (record { name = refl; role = refl; fixed = refl; holdings = refl })
            ]
        | inl fresh ↦ record {
          name = ground (arith, fresh, e1);
          role = ground (arith, fresh, e1);
          fixed = ground (arith, fresh, e1);
          holdings = ground (arith, fresh, e1);
        }
      ]

  pub sign_and_add_state-IsKept :
      (c c' : Channel) (s : State) (key : Bytes) (ss : SignedState)
      → sign_and_add_state lib c s key ≡ ok (ss, c')
      → IsKept c c'
  unfolding sign_and_add_state
  sign_and_add_state-IsKept c c' s key ss e =
      let (sig, _, e1) = >>=-eq-ok (Hashing.sign lib s key) _ e in
      let (made, _, e2) = >>=-eq-ok (own_signature lib (new_signed_state s) sig) _ e1 in
      let (r, hr, e3) = >>=-eq-ok (add_signed_state lib c made) _ e2 in
      let (_, _, e4) = >>=-eq-ok (fail_if (not r.0) panicked) _ e3 in
      subst (IsKept c) (ap (λ x. x.1) (ok_injective e4)) (add_signed_state-IsKept c r.1 made r.0 hr)
