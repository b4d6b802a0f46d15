-- ===== src/Channel/Serde.antt =====
-- The JSON codecs of channel/channel.go and channel/state/signedstate.go. A text is the value that it
-- spells: of a struct whose fields are all exported, as `State` and `FixedPart`, encoding/json writes
-- and reads every field.
use go_nitro.Base.{ℕ, ◌≡◌, refl, ap, Map, map_values, map_values-map_values}
use go_nitro.Types.Destination.{Destination}
use go_nitro.Types.Funds.{Funds}
use go_nitro.State.Signature.{Signature}
use go_nitro.State.Data.{State, FixedPart}
use go_nitro.State.Signed.{SignedState}
use go_nitro.Channel.{Channel}

-- The struct in `SignedState.MarshalJSON` and `SignedState.UnmarshalJSON`.
pub record JsonSignedState : Type 0 where
  pub state : State
  pub sigs : Map Signature

-- `SignedState.MarshalJSON` and `SignedState.UnmarshalJSON`
abbrev pub marshal_signed_state : SignedState → JsonSignedState
marshal_signed_state ss = record { state = ss.state; sigs = ss.sigs }

abbrev pub unmarshal_signed_state : JsonSignedState → SignedState
unmarshal_signed_state rr = record { state = rr.state; sigs = rr.sigs }

-- `jsonChannel`
pub record JsonChannel : Type 0 where
  pub id : Destination
  pub my_index : ℕ
  pub on_chain_funding : Funds
  pub fixed_part : FixedPart
  pub signed_state_for_turn_num : Map JsonSignedState
  pub latest_supported_state_turn_num : ℕ

-- `Channel.MarshalJSON`
unfoldable pub marshal_channel : Channel → JsonChannel
unfolding map_values
marshal_channel c = record {
  id = c.id;
  my_index = c.my_index;
  on_chain_funding = c.on_chain_funding;
  fixed_part = c.fp;
  signed_state_for_turn_num = map_values marshal_signed_state c.signed_state_for_turn_num;
  latest_supported_state_turn_num = c.latest_supported_state_turn_num;
}

-- `Channel.UnmarshalJSON`
unfoldable pub unmarshal_channel : JsonChannel → Channel
unfolding map_values
unmarshal_channel json_ch = record {
  id = json_ch.id;
  my_index = json_ch.my_index;
  on_chain_funding = json_ch.on_chain_funding;
  latest_supported_state_turn_num = json_ch.latest_supported_state_turn_num;
  signed_state_for_turn_num = map_values unmarshal_signed_state json_ch.signed_state_for_turn_num;
  fp = json_ch.fixed_part;
}

-- A channel is read from its text as it was.
pub unmarshal_channel-marshal_channel : (c : Channel) → unmarshal_channel (marshal_channel c) ≡ c
unfolding marshal_channel unmarshal_channel
unmarshal_channel-marshal_channel c =
    ap (λ m. record c { signed_state_for_turn_num = m })
      (map_values-map_values marshal_signed_state unmarshal_signed_state (λ v. refl)
        c.signed_state_for_turn_num)
