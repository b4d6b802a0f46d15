-- ===== src/Channel/Updates.antt =====
-- channel/channel.go and channel/virtual.go: what makes and changes a channel. A method that
-- mutates the receiver returns the new channel.
use go_nitro.Base.{
  ℕ, Bool, true, false, ◌&&◌, ◌||◌, not, none, some, [], ◌∷◌, length, ◌==◌, ltb, if◌then◌else◌, Map,
  lookup, insert, keys, is_panic, Result, ok, err, fail_if, panicked, ◌>>=◌, ◌>>◌, wrong_my_index,
  wrong_participants, wrong_allocations,
}
use go_nitro.Types.Destination.{Bytes}
use go_nitro.Types.Funds.{Funds}
use go_nitro.Types.Funds
use go_nitro.Outcome.Exit.{Exit, total_allocated}
use go_nitro.State.Signature.{Signature}
use go_nitro.State.Data.{State, FixedPart, fixed_part, clone_fixed_part}
use go_nitro.State.Data
use go_nitro.State.Library.{Library}
use go_nitro.State.Hashing.{validate, state_channel_id}
use go_nitro.State.Hashing
use go_nitro.State.Signed.{
  SignedState, new_signed_state, has_signature_for_participant, has_all_signatures, add_signature,
  merge,
}
use go_nitro.State.Signed
use go_nitro.Channel.{
  Channel, pre_fund_turn_num, post_fund_turn_num, max_turn_num, state_at, zero_holdings,
  pre_fund_state, post_fund_state,
}

-- The end of `AddSignedState`, after the signatures are stored.
unfoldable pub update_supported : Channel → ℕ → Channel
update_supported c turn =
    if has_all_signatures (state_at turn c.signed_state_for_turn_num)
    then record c { latest_supported_state_turn_num = turn }
    else c

module _ (lib : Library) where
  -- `New`
  unfoldable pub new : State → ℕ → Result Channel
  unfolding zero_holdings
  new s my_index = do
    validate lib (fixed_part s)
    id ← state_channel_id lib s
    post ← Data.clone s
    ok (record {
      id = id;
      my_index = my_index;
      on_chain_funding = zero_holdings [] (keys (total_allocated s.outcome));
      fp = fixed_part s;
      signed_state_for_turn_num =
          insert post_fund_turn_num
            (new_signed_state (record post { turn_num = post_fund_turn_num }))
            (insert pre_fund_turn_num (new_signed_state s) []);
      latest_supported_state_turn_num = max_turn_num;
    })

  -- The loop of `Clone`: the new channel has a clone of each signed state.
  clone_states : Map SignedState → Map SignedState → Result (Map SignedState)
  clone_states m [] = ok m
  clone_states m ((turn, ss) ∷ rest) = do
    cloned ← Signed.clone ss
    clone_states (insert turn cloned m) rest

  -- `Channel.Clone` of a pointer that is not nil. Where `New` fails, the maps of the channel that
  -- it returns are nil, and the loop panics at the first write.
  unfoldable pub clone : Channel → Result Channel
  unfolding clone_states
  clone c = do
    s ← Data.clone (pre_fund_state c)
    d ← elim (new s c.my_index) [ ok d ↦ ok d | err e ↦ err panicked ]
    states ← clone_states d.signed_state_for_turn_num c.signed_state_for_turn_num
    fp ← clone_fixed_part c.fp
    ok (record d {
      latest_supported_state_turn_num = c.latest_supported_state_turn_num;
      signed_state_for_turn_num = states;
      on_chain_funding = Funds.clone c.on_chain_funding;
      fp = fp;
    })

  -- The merge in `AddSignedState` with the signed state that is stored already. It changes the
  -- stored one in place, also where it fails; a panic in it is none of the errors that it returns.
  unfoldable pub merge_stored : Channel → SignedState → SignedState → Result (Bool × Channel)
  unfolding update_supported
  merge_stored c stored ss =
      let turn = ss.state.turn_num in
      let (merged, failure) = merge lib stored ss in
      let c' = record c {
        signed_state_for_turn_num = insert turn merged c.signed_state_for_turn_num;
      } in
      elim failure [
        | none ↦ ok (true, update_supported c' turn)
        | some e ↦ if is_panic e then err panicked else ok (false, c')
      ]

  -- `Channel.AddSignedState`: the result and the channel afterwards.
  unfoldable pub add_signed_state : Channel → SignedState → Result (Bool × Channel)
  unfolding merge_stored update_supported
  add_signed_state c ss = do
    id ← state_channel_id lib ss.state
    let turn = ss.state.turn_num
    let stale =
        not (c.latest_supported_state_turn_num == max_turn_num)
        && ltb turn c.latest_supported_state_turn_num
    if not (id == c.id) || stale
        then ok (false, c)
        else (elim (lookup turn c.signed_state_for_turn_num) [
          | some stored ↦ merge_stored c stored ss
          | none ↦ ok (
            true,
            update_supported
                (record c {
                  signed_state_for_turn_num = insert turn ss c.signed_state_for_turn_num;
                })
                turn,
          )
        ])

  -- `Channel.AddStateWithSignature`; a panic in `AddSignature` is none of its errors.
  unfoldable pub add_state_with_signature : Channel → State → Signature → Result (Bool × Channel)
  add_state_with_signature c s sig = elim (add_signature lib (new_signed_state s) sig) [
    | ok ss ↦ add_signed_state c ss
    | err e ↦ if is_panic e then err panicked else ok (false, c)
  ]

  -- `AddSignature` where an error is a panic.
  unfoldable pub own_signature : SignedState → Signature → Result SignedState
  own_signature ss sig = elim (add_signature lib ss sig) [
    | ok signed ↦ ok signed
    | err e ↦ err panicked
  ]

  -- `Channel.SignAndAddState`
  unfoldable pub sign_and_add_state : Channel → State → Bytes → Result (SignedState × Channel)
  sign_and_add_state c s key = do
    sig ← Hashing.sign lib s key
    ss ← own_signature (new_signed_state s) sig
    (added, c') ← add_signed_state c ss
    fail_if (not added) panicked
    ok (ss, c')

  -- `Channel.SignAndAddPrefund`
  unfoldable pub sign_and_add_prefund : Channel → Bytes → Result (SignedState × Channel)
  sign_and_add_prefund c key = sign_and_add_state c (pre_fund_state c) key

  -- `Channel.SignAndAddPostfund`
  unfoldable pub sign_and_add_postfund : Channel → Bytes → Result (SignedState × Channel)
  sign_and_add_postfund c key = sign_and_add_state c (post_fund_state c) key

  -- The loop of `NewSingleHopVirtualChannel`.
  unfoldable pub two_allocations : Exit → Result (Unit {0})
  two_allocations [] = ok tt
  two_allocations (e ∷ es) = do
    fail_if (not (length e.allocations == 2)) wrong_allocations
    two_allocations es

  -- `NewSingleHopVirtualChannel`
  unfoldable pub new_single_hop_virtual_channel : State → ℕ → Result Channel
  unfolding two_allocations
  new_single_hop_virtual_channel s my_index = do
    fail_if (ltb 2 my_index) wrong_my_index
    fail_if (not (length s.participants == 3)) wrong_participants
    two_allocations s.outcome
    new s my_index
