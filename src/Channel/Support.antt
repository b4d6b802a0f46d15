-- ===== src/Channel/Support.antt =====
-- The invariant of a channel, and that its supported state bears every participant's signature.
use go_nitro.Base.{
  ℕ, ◌≤◌, ◌≡◌, ◌≢◌, ◌⊎◌, inl, inr, refl, ap, sym, ◌∙◌, true, some, Bool, Bool-cases, Option-cases,
  [], ◌&&◌, ◌||◌, not, ltb, subst, arith, All, Map, lookup, insert, lookup-insert, ok, >>=-eq-ok,
  ok_injective, ◌==◌, get_elem?,
}
use go_nitro.Types.Destination.{Address, Destination}
use go_nitro.State.Signature.{Signature}
use go_nitro.State.Data.{State, fixed_part}
use go_nitro.State.Data
use go_nitro.State.Equality.{clone_lem}
use go_nitro.State.Library.{Library}
use go_nitro.State.Hashing.{validate, state_channel_id, recover_signer}
use go_nitro.State.Signed.{SignedState, new_signed_state, has_all_signatures, merge}
use go_nitro.State.Signed.Signers.{IsSigned, has_all_signatures_lem, All-insert, All-lookup}
use go_nitro.State.Signed.Merging.{Grown, merge-Grown, Grown-full}
use go_nitro.Channel.{Channel, max_turn_num, latest_supported_state}
use go_nitro.Channel.Updates.{new, update_supported, merge_stored, add_signed_state}

module _ (lib : Library) where
  -- A signed state is stored by its turn number, belongs to the channel, and bears only
  -- signatures of its participants.
  pub record IsStored (id : Destination) (e : ℕ × SignedState) : Type 0 where
    pub turn : (e.1).state.turn_num ≡ e.0
    pub own : state_channel_id lib (e.1).state ≡ ok id
    pub signed : IsSigned lib e.1

  -- No state is supported, or the one that is has all its signatures.
  abbrev pub IsSupported : ℕ → Map SignedState → Type 0
  IsSupported latest m =
      (latest ≡ max_turn_num)
      ⊎ (ss : SignedState) × (lookup latest m ≡ some ss) × (has_all_signatures ss ≡ true)

  pub record IsValid (c : Channel) : Type 0 where
    pub entries : All (IsStored c.id) c.signed_state_for_turn_num
    pub supported : IsSupported c.latest_supported_state_turn_num c.signed_state_for_turn_num

  unsigned : (s : State) → IsSigned lib (new_signed_state s)
  unfolding new_signed_state
  unsigned s = record { keyed = tt; by = tt }

  same_fixed :
      (s : State)
      → state_channel_id lib (record s { app_data = []; turn_num = 1 }) ≡ state_channel_id lib s
  unfolding state_channel_id fixed_part
  same_fixed s = refl

  -- A channel made from a state with the turn number of the prefund state is valid, and has no
  -- supported state.
  pub new-IsValid :
      (s : State) (i : ℕ) (c : Channel)
      → s.turn_num ≡ 0
      → new lib s i ≡ ok c
      → IsValid c × (c.latest_supported_state_turn_num ≡ max_turn_num)
  unfolding new new_signed_state
  new-IsValid s i c zero_turn e =
      let (_, _, e1) = >>=-eq-ok (validate lib (fixed_part s)) _ e in
      let (id, hid, e2) = >>=-eq-ok (state_channel_id lib s) _ e1 in
      let (post, hp, e3) = >>=-eq-ok (Data.clone s) _ e2 in
      let (_, _, _, _, _, _, copied) = (clone_lem s post).0 hp in
      let own : state_channel_id lib (record post { turn_num = 1 }) ≡ ok id =
        subst (λ x. state_channel_id lib (record x { turn_num = 1 }) ≡ ok id) (sym copied)
          (same_fixed s ∙ hid) in
      subst (λ x. IsValid x × (x.latest_supported_state_turn_num ≡ max_turn_num)) (ok_injective e3)
        (
          record {
            entries = (
              record { turn = zero_turn; own = hid; signed = unsigned s },
              (record { turn = refl; own = own; signed = unsigned _ }, tt),
            );
            supported = inl refl;
          },
          refl,
        )

  store-IsValid :
      (c : Channel) (turn : ℕ) (r : SignedState)
      → IsValid c
      → IsStored c.id (turn, r)
      → ((ss : SignedState) → lookup turn c.signed_state_for_turn_num ≡ some ss → Grown lib ss r)
      → IsValid (record c { signed_state_for_turn_num = insert turn r c.signed_state_for_turn_num })
  store-IsValid c turn r v h grown = record {
    entries = All-insert (IsStored c.id) turn r c.signed_state_for_turn_num h v.entries;
    supported = elim v.supported [
      | inl none_yet ↦ inl none_yet
      | inr (ss, at, full) ↦ elim (Bool-cases (c.latest_supported_state_turn_num == turn)) [
        | inl same ↦ inr (
          r,
          ground (
            arith,
            lookup-insert c.latest_supported_state_turn_num turn r c.signed_state_for_turn_num,
            same,
          ),
          Grown-full lib ss r (grown ss (ground (arith, same, at))) full,
        )
        | inr differs ↦ inr (
          ss,
          ground (
            arith,
            lookup-insert c.latest_supported_state_turn_num turn r c.signed_state_for_turn_num,
            differs,
            at,
          ),
          full,
        )
      ]
    ];
  }

  -- What the end of `AddSignedState` does.
  update_cases :
      (c : Channel) (turn : ℕ) (r : SignedState)
      → lookup turn c.signed_state_for_turn_num ≡ some r
      → (has_all_signatures r ≡ true)
          × (update_supported c turn ≡ record c { latest_supported_state_turn_num = turn })
        ⊎ (update_supported c turn ≡ c)
  unfolding update_supported
  update_cases c turn r at = elim (Bool-cases (has_all_signatures r)) [
    | inl full ↦ inl (full, ground (arith, at, full))
    | inr partial ↦ inr (ground (arith, at, partial))
  ]

  -- The channel belongs together as before, and its supported turn is the old one or the given.
  pub record Advanced (c c' : Channel) (turn : ℕ) : Type 0 where
    pub valid : IsValid c'
    pub own : c'.id ≡ c.id
    pub latest :
        (c'.latest_supported_state_turn_num ≡ c.latest_supported_state_turn_num)
        ⊎ (c'.latest_supported_state_turn_num ≡ turn)

  update_supported-Advanced :
      (c : Channel) (turn : ℕ) (r : SignedState)
      → IsValid c
      → lookup turn c.signed_state_for_turn_num ≡ some r
      → Advanced c (update_supported c turn) turn
  update_supported-Advanced c turn r v at = elim (update_cases c turn r at) [
    | inl (full, same) ↦ rw same (record {
      valid = record { entries = v.entries; supported = inr (r, at, full) };
      own = refl;
      latest = inr refl;
    })
    | inr same ↦ rw same (record { valid = v; own = refl; latest = inl refl })
  ]

  stored_at :
      (turn : ℕ) (r : SignedState) (m : Map SignedState) → lookup turn (insert turn r m) ≡ some r
  stored_at turn r m = ground (arith, lookup-insert turn turn r m)

  merge_stored-Advanced :
      (c c' : Channel) (stored ss : SignedState) (b : Bool)
      → IsValid c
      → lookup ss.state.turn_num c.signed_state_for_turn_num ≡ some stored
      → merge_stored lib c stored ss ≡ ok (b, c')
      → Advanced c c' ss.state.turn_num
  unfolding merge_stored
  merge_stored-Advanced c c' stored ss b v at e =
      let turn = ss.state.turn_num in
      let r = (merge lib stored ss).0 in
      let held = All-lookup (IsStored c.id) turn stored c.signed_state_for_turn_num v.entries at in
      let g = merge-Grown lib stored ss held.signed in
      let here : IsStored c.id (turn, r) = record {
        turn = rw g.same held.turn;
        own = rw g.same held.own;
        signed = g.signed;
      } in
      let c2 = record c { signed_state_for_turn_num = insert turn r c.signed_state_for_turn_num } in
      let v' =
        store-IsValid c turn r v here
          (λ x q. subst (λ y. Grown lib y r) (ground (arith, at, q)) g) in
      elim (Option-cases (merge lib stored ss).1) [
        | inl none_failed ↦
            let u =
              update_supported-Advanced c2 turn r v'
                (stored_at turn r c.signed_state_for_turn_num) in
            let moved : Advanced c (update_supported c2 turn) turn = record {
              valid = u.valid;
              own = u.own;
              latest = u.latest;
            } in
            subst (λ x. Advanced c x turn) (ground (arith, none_failed, e)) moved
        | inr (x, failed) ↦
            subst (λ y. Advanced c y turn) (ground (arith, failed, e))
              (record { valid = v'; own = refl; latest = inl refl })
      ]

  -- Adding a signed state whose signatures are its participants' keeps a valid channel valid, in
  -- whatever way the call ends; its identity stays, and the supported turn number never falls once
  -- there is one.
  pub add_signed_state-IsValid :
      (c c' : Channel) (ss : SignedState) (b : Bool)
      → IsValid c
      → IsSigned lib ss
      → add_signed_state lib c ss ≡ ok (b, c')
      → IsValid c'
        × (c'.id ≡ c.id)
        × (c.latest_supported_state_turn_num ≢ max_turn_num
            → c.latest_supported_state_turn_num ≤ c'.latest_supported_state_turn_num)
  unfolding add_signed_state
  add_signed_state-IsValid c c' ss b v signed e =
      let (id, hid, e1) = >>=-eq-ok (state_channel_id lib ss.state) _ e in
      let turn = ss.state.turn_num in
      let latest = c.latest_supported_state_turn_num in
      let refused = not (id == c.id) || not (latest == max_turn_num) && ltb turn latest in
      elim (Bool-cases refused) [
        | inl skip ↦
            subst
              (λ x.
                IsValid x
                × (x.id ≡ c.id)
                × (latest ≢ max_turn_num → latest ≤ x.latest_supported_state_turn_num))
              (ground (arith, skip, e1)) (v, refl, λ h. omega arith)
        | inr goes_on ↦
            let own : id ≡ c.id = ground (arith, goes_on) in
            let a : Advanced c c' turn =
              elim (Option-cases (lookup turn c.signed_state_for_turn_num)) [
                | inr (stored, at) ↦
                    merge_stored-Advanced c c' stored ss b v at (ground (arith, goes_on, at, e1))
                | inl fresh ↦
                    let here : IsStored c.id (turn, ss) = record {
                      turn = refl;
                      own = hid ∙ ap ok own;
                      signed = signed;
                    } in
                    let v' =
                      store-IsValid c turn ss v here (λ x q. absurd (ground (arith, fresh, q))) in
                    let c2 = record c {
                      signed_state_for_turn_num = insert turn ss c.signed_state_for_turn_num;
                    } in
                    let u =
                      update_supported-Advanced c2 turn ss v'
                        (stored_at turn ss c.signed_state_for_turn_num) in
                    let moved : Advanced c (update_supported c2 turn) turn = record {
                      valid = u.valid;
                      own = u.own;
                      latest = u.latest;
                    } in
                    subst (λ x. Advanced c x turn) (ground (arith, goes_on, fresh, e1)) moved
              ] in
            (a.valid, a.own, λ h. ground (arith, goes_on, a.latest, h))
      ]

  -- In a valid channel every participant has signed the state that `LatestSupportedState` gives.
  pub latest_supported_state_lem :
      (c : Channel) (s : State) (i : ℕ) (signer : Address)
      → IsValid c
      → latest_supported_state c ≡ ok s
      → get_elem? s.participants i ≡ some signer
      → (sig : Signature) × (recover_signer lib s sig ≡ ok signer)
  unfolding latest_supported_state
  latest_supported_state_lem c s i signer v e at = elim v.supported [
    | inl none_yet ↦ absurd (ground (arith, none_yet, e))
    | inr (ss, here, full) ↦
        let same : ss.state ≡ s = ground (arith, here, e) in
        let signed =
          (All-lookup (IsStored c.id) c.latest_supported_state_turn_num ss
            c.signed_state_for_turn_num v.entries here).signed in
        let (sig, _, by) =
          has_all_signatures_lem lib ss i signer signed full
            (ap (λ x. get_elem? x.participants i) same ∙ at) in
        (sig, ap (λ x. recover_signer lib x sig) (sym same) ∙ by)
  ]
