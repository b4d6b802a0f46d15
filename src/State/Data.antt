-- ===== src/State/Data.antt =====
-- channel/state/state.go: the data of a state. Its pointers to integers
-- are options.
use go_nitro.Base.{
  ℕ, Bool, true, false, ◌&&◌, Option, none, some, List, [], ◌++◌, length, take, drop, ◌==◌,
  equal_bytes, ℤ, eqb_ℤ, if◌then◌else◌, equal_bools, Result, ok, deref, ◌>>=◌,
}
use go_nitro.Types.Destination.{Address, Bytes}
use go_nitro.Outcome.Exit.{Exit}
use go_nitro.Outcome.Exit

pub record FixedPart : Type 0 where
  pub chain_id : Option ℤ
  pub participants : List Address
  pub channel_nonce : Option ℤ
  pub app_definition : Address
  pub challenge_duration : Option ℤ

pub record VariablePart : Type 0 where
  pub app_data : Bytes
  pub outcome : Exit
  pub turn_num : ℕ
  pub is_final : Bool

pub record State : Type 0 where
  pub chain_id : Option ℤ
  pub participants : List Address
  pub channel_nonce : Option ℤ
  pub app_definition : Address
  pub challenge_duration : Option ℤ
  pub app_data : Bytes
  pub outcome : Exit
  pub turn_num : ℕ
  pub is_final : Bool

-- `State.FixedPart`
unfoldable pub fixed_part : State → FixedPart
fixed_part s = record {
  chain_id = s.chain_id;
  participants = s.participants;
  channel_nonce = s.channel_nonce;
  app_definition = s.app_definition;
  challenge_duration = s.challenge_duration;
}

-- `State.VariablePart`
unfoldable pub variable_part : State → VariablePart
variable_part s = record {
  app_data = s.app_data;
  outcome = s.outcome;
  turn_num = s.turn_num;
  is_final = s.is_final;
}

-- `StateFromFixedAndVariablePart`
unfoldable pub state_from_fixed_and_variable_part : FixedPart → VariablePart → State
state_from_fixed_and_variable_part f v = record {
  chain_id = f.chain_id;
  participants = f.participants;
  channel_nonce = f.channel_nonce;
  app_definition = f.app_definition;
  challenge_duration = f.challenge_duration;
  app_data = v.app_data;
  outcome = v.outcome;
  turn_num = v.turn_num;
  is_final = v.is_final;
}

-- `types.Equal`: both nil, or the same integer.
unfoldable pub equal_pointers : Option ℤ → Option ℤ → Bool
equal_pointers none none = true
equal_pointers none (some b) = false
equal_pointers (some a) none = false
equal_pointers (some a) (some b) = eqb_ℤ a b

-- `equalParticipants`
unfoldable pub equal_participants : List Address → List Address → Bool
equal_participants p q = if length p == length q then equal_bytes p q else false

-- `State.Equal`
unfoldable pub equal : State → State → Bool
unfolding equal_pointers equal_participants
equal s r =
    equal_pointers s.chain_id r.chain_id
    && (equal_participants s.participants r.participants
        && (equal_pointers s.channel_nonce r.channel_nonce
            && (s.app_definition == r.app_definition
                && (equal_pointers s.challenge_duration r.challenge_duration
                    && (equal_bytes s.app_data r.app_data
                        && (Exit.equal s.outcome r.outcome
                            && (s.turn_num == r.turn_num && equal_bools s.is_final r.is_final)))))))

-- `FixedPart.Clone`, which panics on a nil chain id, nonce or challenge duration.
unfoldable pub clone_fixed_part : FixedPart → Result FixedPart
clone_fixed_part f = do
  chain_id ← deref f.chain_id
  channel_nonce ← deref f.channel_nonce
  challenge_duration ← deref f.challenge_duration
  ok (record {
    chain_id = some chain_id;
    participants = [] ++ f.participants;
    channel_nonce = some channel_nonce;
    app_definition = f.app_definition;
    challenge_duration = some challenge_duration;
  })

-- Go's `copy(dst, src)` on slices of bytes: what `dst` holds afterwards.
unfoldable pub copy : Bytes → Bytes → Bytes
copy dst src = take (length dst) src ++ drop (length src) dst

-- `State.Clone`: `make(types.Bytes, 0, n)` has length 0, whatever its capacity.
unfoldable pub clone : State → Result State
unfolding clone_fixed_part fixed_part copy
clone s = do
  f ← clone_fixed_part (fixed_part s)
  ok (record {
    chain_id = f.chain_id;
    participants = f.participants;
    channel_nonce = f.channel_nonce;
    app_definition = f.app_definition;
    challenge_duration = f.challenge_duration;
    app_data = copy [] s.app_data;
    outcome = Exit.clone s.outcome;
    turn_num = s.turn_num;
    is_final = s.is_final;
  })
