-- ===== src/Tests/Channel.antt =====
-- A channel between two participants: its prefund state signed, merged and supported.
use go_nitro.Base.{
  ℕ, ◌+◌, ◌^◌, ◌≤◌, ◌≡◌, ◌≢◌, refl, true, false, some, [], ◌∷◌, pos, ok, lookup, inl,
}
use go_nitro.Types.Destination.{bytes, is_external}
use go_nitro.Outcome.Exit
use go_nitro.Outcome.Exit.{Exit, total_allocated}
use go_nitro.State.Signature.{Signature, join_signature}
use go_nitro.State.Data
use go_nitro.State.Data.{State, fixed_part}
use go_nitro.State.Hashing.{validate, channel_id, state_channel_id, recover_signer, hash, encode}
use go_nitro.State.Signing.{message_digest, recover_ethereum_message_signer}
use go_nitro.State.Signed.{SignedState, new_signed_state, has_all_signatures, add_signature, merge}
use go_nitro.State.Signed.Signers.{IsSigned, has_all_signatures_lem}
use go_nitro.State.Signed.Merging.{Grown, merge-Grown}
use go_nitro.Channel.{Channel, max_turn_num, latest_supported_state}
use go_nitro.Channel.Updates.{new, add_signed_state, update_supported, merge_stored}
use go_nitro.Channel.Support.{
  IsValid, new-IsValid, add_signed_state-IsValid, latest_supported_state_lem,
}
use go_nitro.Channel.Unchecked.{add_signed_state_unchecked}
use go_nitro.Tests.Data.{toy, signature_of}

abbrev state_of : ℕ → State
state_of turn = record {
  chain_id = some (pos 1337);
  participants = 11 ∷ 22 ∷ [];
  channel_nonce = some (pos 7);
  app_definition = 4;
  challenge_duration = some (pos 60);
  app_data = [];
  outcome = [];
  turn_num = turn;
  is_final = false;
}

abbrev empty : ℕ → SignedState
empty turn = record { state = state_of turn; sigs = [] }

abbrev half : SignedState
half = record { state = state_of 0; sigs = (0, signature_of 11) ∷ [] }

abbrev full : SignedState
full = record { state = state_of 0; sigs = (0, signature_of 11) ∷ (1, signature_of 22) ∷ [] }

-- The second participant has signed alone.
abbrev other : SignedState
other = record { state = state_of 0; sigs = (1, signature_of 22) ∷ [] }

abbrev fresh : Channel
fresh = record {
  id = 2 ^ 255 + 2;
  my_index = 0;
  on_chain_funding = [];
  fp = fixed_part (state_of 0);
  signed_state_for_turn_num = (0, empty 0) ∷ (1, empty 1) ∷ [];
  latest_supported_state_turn_num = max_turn_num;
}

abbrev supported : Channel
supported = record fresh {
  signed_state_for_turn_num = (0, full) ∷ (1, empty 1) ∷ [];
  latest_supported_state_turn_num = 0;
}

new_run : new toy (state_of 0) 0 ≡ ok fresh
unfolding new validate channel_id state_channel_id fixed_part Data.clone Exit.clone total_allocated
    new_signed_state is_external bytes
new_run = refl

recover_run : recover_signer toy (state_of 0) (signature_of 11) ≡ ok 11
unfolding recover_signer hash encode channel_id state_channel_id fixed_part
    recover_ethereum_message_signer message_digest join_signature bytes
recover_run = refl

recover_other_run : recover_signer toy (state_of 0) (signature_of 22) ≡ ok 22
unfolding recover_signer hash encode channel_id state_channel_id fixed_part
    recover_ethereum_message_signer message_digest join_signature bytes
recover_other_run = refl

add_signature_run : add_signature toy (empty 0) (signature_of 11) ≡ ok half
unfolding add_signature
add_signature_run = rw recover_run refl

empty-IsSigned : (turn : ℕ) → IsSigned toy (empty turn)
empty-IsSigned turn = record { keyed = tt; by = tt }

full-IsSigned : IsSigned toy full
full-IsSigned = record {
  keyed = (refl, (refl, tt));
  by = (
    record { signer = 11; stands = refl; recovers = recover_run },
    (record { signer = 22; stands = refl; recovers = recover_other_run }, tt),
  );
}

full_run : has_all_signatures full ≡ true
unfolding has_all_signatures
full_run = refl

has_all_signatures_lem_example :
    (sig : Signature) × (lookup 1 full.sigs ≡ some sig)
    × (recover_signer toy (state_of 0) sig ≡ ok 22)
has_all_signatures_lem_example = has_all_signatures_lem toy full 1 22 full-IsSigned full_run refl

half-IsSigned : IsSigned toy half
half-IsSigned = record {
  keyed = (refl, tt);
  by = (record { signer = 11; stands = refl; recovers = recover_run }, tt);
}

merge-Grown_example : Grown toy half (merge toy half other).0
merge-Grown_example = merge-Grown toy half other half-IsSigned

fresh-IsValid : IsValid toy fresh
fresh-IsValid = (new-IsValid toy (state_of 0) 0 fresh refl new_run).0

add_run : add_signed_state toy fresh full ≡ ok (true, supported)
unfolding add_signed_state merge_stored update_supported merge Data.equal has_all_signatures
    state_channel_id channel_id fixed_part add_signature recover_signer hash encode
    recover_ethereum_message_signer message_digest join_signature bytes Exit.equal
    Data.equal_pointers
add_run = refl

add_signed_state-IsValid_example :
    IsValid toy supported
    × (supported.id ≡ fresh.id)
    × (max_turn_num ≢ max_turn_num → max_turn_num ≤ 0)
add_signed_state-IsValid_example =
    add_signed_state-IsValid toy fresh supported full true fresh-IsValid full-IsSigned add_run

supported-IsValid : IsValid toy supported
supported-IsValid =
    (add_signed_state-IsValid toy fresh supported full true fresh-IsValid full-IsSigned add_run).0

supported_run : latest_supported_state supported ≡ ok (state_of 0)
unfolding latest_supported_state
supported_run = refl

latest_supported_state_lem_example :
    (sig : Signature) × (recover_signer toy (state_of 0) sig ≡ ok 22)
latest_supported_state_lem_example =
    latest_supported_state_lem toy supported (state_of 0) 1 22 supported-IsValid supported_run refl

-- Signatures that are nobody's.
abbrev forged : SignedState
forged = record { state = state_of 5; sigs = (0, signature_of 99) ∷ (1, signature_of 99) ∷ [] }

forged_own : state_channel_id toy forged.state ≡ ok fresh.id
unfolding state_channel_id channel_id fixed_part
forged_own = refl

forged_full : has_all_signatures forged ≡ true
unfolding has_all_signatures
forged_full = refl

add_signed_state_unchecked_example :
    (c' : Channel) × (add_signed_state toy fresh forged ≡ ok (true, c'))
    × (lookup 5 c'.signed_state_for_turn_num ≡ some forged)
    × (latest_supported_state c' ≡ ok (state_of 5))
add_signed_state_unchecked_example =
    add_signed_state_unchecked toy fresh forged forged_own (inl refl) refl refl forged_full
