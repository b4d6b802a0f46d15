-- ===== src/Channel.antt =====
-- channel/channel.go and channel/constants.go: a channel and the signed states
-- that it stores by turn number, and its queries.
pub mod Updates
pub mod Support
pub mod Unchecked
pub mod Kept
pub mod Serde
use go_nitro.Base.{
  ℕ, ◌-◌, ◌^◌, Bool, true, false, ◌&&◌, ◌||◌, not, Option, none, some, List, [], ◌∷◌, length,
  get_elem?, ◌==◌, ltb, if◌then◌else◌, ℤ, pos, Map, lookup, insert, keys, Error, Result, ok, err,
  fail_if, deref, panicked, ◌>>=◌, ◌>>◌, no_supported_state, no_signed_states, wrong_my_index,
  wrong_participants, wrong_allocations,
}
use go_nitro.Types.Destination.{Address, Destination, Bytes, address_to_destination}
use go_nitro.Types.Funds.{Funds}
use go_nitro.Types.Funds
use go_nitro.Outcome.Allocation.{Allocation}
use go_nitro.Outcome.Exit.{Exit, total_allocated}
use go_nitro.Outcome.Exit
use go_nitro.State.Signature.{Signature}
use go_nitro.State.Data.{State, FixedPart, fixed_part, clone_fixed_part}
use go_nitro.State.Data
use go_nitro.State.Library.{Library}
use go_nitro.State.Hashing.{validate, state_channel_id}
use go_nitro.State.Hashing
use go_nitro.State.Signed.{
  SignedState, new_signed_state, has_signature_for_participant, has_all_signatures, add_signature,
  merge,
}
use go_nitro.State.Signed

abbrev pub pre_fund_turn_num : ℕ
pre_fund_turn_num = 0

abbrev pub post_fund_turn_num : ℕ
post_fund_turn_num = 1

-- "There is not yet a supported state."
abbrev pub max_turn_num : ℕ
max_turn_num = 2 ^ 64 - 1

pub record Channel : Type 0 where
  pub id : Destination
  pub my_index : ℕ
  pub on_chain_funding : Funds
  pub fp : FixedPart
  pub signed_state_for_turn_num : Map SignedState
  pub latest_supported_state_turn_num : ℕ

-- The zero `SignedState{}`, which the map gives for a turn number that it does not have.
abbrev pub zero_signed_state : SignedState
zero_signed_state = record {
  state = record {
    chain_id = none;
    participants = [];
    channel_nonce = none;
    app_definition = 0;
    challenge_duration = none;
    app_data = [];
    outcome = [];
    turn_num = 0;
    is_final = false;
  };
  sigs = [];
}

abbrev pub state_at : ℕ → Map SignedState → SignedState
state_at turn m = elim (lookup turn m) [ none ↦ zero_signed_state | some ss ↦ ss ]

-- The loop that sets the holdings of each asset to zero.
unfoldable pub zero_holdings : Funds → List Address → Funds
zero_holdings m [] = m
zero_holdings m (asset ∷ rest) = zero_holdings (insert asset (pos 0) m) rest

-- `Channel.SignedPreFundState` and `Channel.PreFundState`
unfoldable pub signed_pre_fund_state : Channel → SignedState
signed_pre_fund_state c = state_at pre_fund_turn_num c.signed_state_for_turn_num

unfoldable pub pre_fund_state : Channel → State
unfolding signed_pre_fund_state
pre_fund_state c = (signed_pre_fund_state c).state

-- `Channel.SignedPostFundState` and `Channel.PostFundState`
unfoldable pub signed_post_fund_state : Channel → SignedState
signed_post_fund_state c = state_at post_fund_turn_num c.signed_state_for_turn_num

unfoldable pub post_fund_state : Channel → State
unfolding signed_post_fund_state
post_fund_state c = (signed_post_fund_state c).state

abbrev pub signed_by_me : ℕ → Channel → Bool
signed_by_me turn c = elim (lookup turn c.signed_state_for_turn_num) [
  | none ↦ false
  | some ss ↦ has_signature_for_participant ss c.my_index
]

-- `Channel.PreFundSignedByMe`
unfoldable pub pre_fund_signed_by_me : Channel → Bool
pre_fund_signed_by_me c = signed_by_me pre_fund_turn_num c

-- `Channel.PostFundSignedByMe`
unfoldable pub post_fund_signed_by_me : Channel → Bool
post_fund_signed_by_me c = signed_by_me post_fund_turn_num c

-- `Channel.PreFundComplete`
unfoldable pub pre_fund_complete : Channel → Bool
pre_fund_complete c = has_all_signatures (state_at pre_fund_turn_num c.signed_state_for_turn_num)

-- `Channel.PostFundComplete`
unfoldable pub post_fund_complete : Channel → Bool
post_fund_complete c = has_all_signatures (state_at post_fund_turn_num c.signed_state_for_turn_num)

-- `Channel.MyDestination`
unfoldable pub my_destination : Channel → Result Destination
my_destination c = do
  me ← deref (get_elem? c.fp.participants c.my_index)
  ok (address_to_destination me)

-- `Channel.LatestSupportedState`
unfoldable pub latest_supported_state : Channel → Result State
latest_supported_state c =
    if c.latest_supported_state_turn_num == max_turn_num
    then err no_supported_state
    else ok (state_at c.latest_supported_state_turn_num c.signed_state_for_turn_num).state

-- The loop of `LatestSignedState`.
unfoldable pub latest_turn : ℕ → List ℕ → ℕ
latest_turn latest [] = latest
latest_turn latest (k ∷ ks) = latest_turn (if ltb latest k then k else latest) ks

-- `Channel.LatestSignedState`
unfoldable pub latest_signed_state : Channel → Result SignedState
unfolding latest_turn
latest_signed_state c =
    if length c.signed_state_for_turn_num == 0
    then err no_signed_states
    else ok
        (state_at (latest_turn 0 (keys c.signed_state_for_turn_num)) c.signed_state_for_turn_num)

-- `Channel.Total`
unfoldable pub total : Channel → Funds
total c = total_allocated (pre_fund_state c).outcome

-- `Channel.Affords`
unfoldable pub affords : Channel → Map Allocation → Funds → Bool
affords c allocation_map funding_map = elim (latest_supported_state c) [
  | ok s ↦ Exit.affords s.outcome allocation_map funding_map
  | err e ↦ false
]
