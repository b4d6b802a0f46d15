-- ===== src/Channel/Unchecked.antt =====
-- What `AddSignedState` does with signatures that come with a new turn number.
use go_nitro.Base.{
  ◌≡◌, ◌⊎◌, ◌≤◌, inl, inr, true, false, none, some, ok, arith, insert, lookup, lookup-insert, ◌==◌,
  ltb, not, ◌&&◌,
}
use go_nitro.State.Library.{Library}
use go_nitro.State.Hashing.{state_channel_id}
use go_nitro.State.Signed.{SignedState, has_all_signatures}
use go_nitro.Channel.{Channel, max_turn_num, latest_supported_state}
use go_nitro.Channel.Updates.{add_signed_state, update_supported}

module _ (lib : Library) where
  -- A signed state for the channel, with a turn number that no stored state has, that is not below
  -- the supported one if there is one, and that is not the number for no supported state: with as
  -- many signatures as participants, whoever made them, it is added, it is what the channel stores
  -- for the turn, and its state becomes the one that the channel gives as supported.
  pub add_signed_state_unchecked :
      (c : Channel) (ss : SignedState)
      → state_channel_id lib ss.state ≡ ok c.id
      → (c.latest_supported_state_turn_num ≡ max_turn_num)
        ⊎ (c.latest_supported_state_turn_num ≤ ss.state.turn_num)
      → (ss.state.turn_num == max_turn_num) ≡ false
      → lookup ss.state.turn_num c.signed_state_for_turn_num ≡ none
      → has_all_signatures ss ≡ true
      → (c' : Channel) × (add_signed_state lib c ss ≡ ok (true, c'))
        × (lookup ss.state.turn_num c'.signed_state_for_turn_num ≡ some ss)
        × (latest_supported_state c' ≡ ok ss.state)
  unfolding add_signed_state update_supported latest_supported_state
  add_signed_state_unchecked c ss own current proper fresh full =
      let turn = ss.state.turn_num in
      let entered = insert turn ss c.signed_state_for_turn_num in
      let found : lookup turn entered ≡ some ss =
        ground (arith, lookup-insert turn turn ss c.signed_state_for_turn_num) in
      let not_stale : (not (c.latest_supported_state_turn_num == max_turn_num)
            && ltb turn c.latest_supported_state_turn_num)
          ≡ false =
        elim current [ inl e ↦ ground (arith, e) | inr l ↦ ground (arith, l) ] in
      (
        record c { signed_state_for_turn_num = entered; latest_supported_state_turn_num = turn },
        rw own (ground (arith, not_stale, fresh, full, found)),
        found,
        ground (arith, proper, found),
      )
