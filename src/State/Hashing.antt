-- ===== src/State/Hashing.antt =====
-- channel/state/state.go: identifiers, hashes and signatures of states.
use go_nitro.Base.{
  ℕ, ◌-◌, ◌^◌, Bool, true, false, Option, none, some, ltb, if◌then◌else◌, ℤ, pos, negsuc, Result,
  ok, err, fail_if, panicked, nil_chain_id, nil_channel_nonce, external_channel_id, ◌>>=◌, ◌>>◌,
}
use go_nitro.Types.Destination.{Address, Destination, Bytes, bytes, is_external}
use go_nitro.State.Signature.{Signature}
use go_nitro.State.Data.{State, FixedPart, fixed_part}
use go_nitro.State.Library.{Library}
use go_nitro.State.Signing.{sign_ethereum_message, recover_ethereum_message_signer}

-- Go's `int64(n)` of an unsigned 64-bit number.
unfoldable pub int64 : ℕ → ℤ
int64 n = if ltb n (2 ^ 63) then pos n else negsuc (2 ^ 64 - 1 - n)

abbrev pub is_none : Option ℤ → Bool
is_none none = true
is_none (some x) = false

module _ (lib : Library) where
  -- `FixedPart.ChannelId`: an error of the encoder is a panic.
  unfoldable pub channel_id : FixedPart → Result Destination
  channel_id fp =
      elim (lib.pack_fixed_part fp.chain_id fp.participants fp.channel_nonce fp.app_definition
        fp.challenge_duration) [ ok encoded ↦ ok (lib.keccak256 encoded) | err e ↦ err panicked ]

  -- `State.ChannelId`
  unfoldable pub state_channel_id : State → Result Destination
  state_channel_id s = channel_id (fixed_part s)

  -- `State.encode`
  unfoldable pub encode : State → Result Bytes
  encode s = do
    id ← state_channel_id s
    lib.pack_state id s.app_data s.outcome (int64 s.turn_num) s.is_final

  -- `State.Hash`
  unfoldable pub hash : State → Result ℕ
  hash s = do encoded ← encode s; ok (lib.keccak256 encoded)

  -- `State.Sign`
  unfoldable pub sign : State → Bytes → Result Signature
  sign s secret_key = do h ← hash s; sign_ethereum_message lib (bytes h) secret_key

  -- `State.RecoverSigner`
  unfoldable pub recover_signer : State → Signature → Result Address
  recover_signer s sig = do h ← hash s; recover_ethereum_message_signer lib (bytes h) sig

  -- `FixedPart.Validate`
  unfoldable pub validate : FixedPart → Result (Unit {0})
  validate fp = do
    fail_if (is_none fp.chain_id) nil_chain_id
    fail_if (is_none fp.channel_nonce) nil_channel_nonce
    id ← channel_id fp
    fail_if (is_external id) external_channel_id
