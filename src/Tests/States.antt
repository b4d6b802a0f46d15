-- ===== src/Tests/States.antt =====
-- States, their copies and their signatures at concrete inputs.
use go_nitro.Base.{◌≡◌, refl, false, some, [], ◌∷◌, pos, ok}
use go_nitro.Types.Destination.{bytes}
use go_nitro.Outcome.Exit
use go_nitro.State.Data.{State, clone, fixed_part}
use go_nitro.State.Hashing
use go_nitro.State.Hashing.{channel_id, state_channel_id, encode, hash}
use go_nitro.State.Signature.{split_signature}
use go_nitro.State.Signing.{message_digest, sign_ethereum_message, address_from_secret_key}
use go_nitro.State.Recovery.{recover_signer-sign}
use go_nitro.Tests.Data.{toy, toy-CurveLaws, leader_key, signature_of}

abbrev two_party : State
two_party = record {
  chain_id = some (pos 1337);
  participants = 11 ∷ 22 ∷ [];
  channel_nonce = some (pos 7);
  app_definition = 4;
  challenge_duration = some (pos 60);
  app_data = 1 ∷ 2 ∷ [];
  outcome = [];
  turn_num = 3;
  is_final = false;
}

clone_run : clone two_party ≡ ok (record two_party { app_data = [] })
unfolding clone Exit.clone
clone_run = refl

sign_run : sign_ethereum_message toy (5 ∷ []) leader_key ≡ ok (signature_of 11)
unfolding sign_ethereum_message message_digest split_signature bytes
sign_run = refl

address_run : address_from_secret_key toy leader_key ≡ ok 11
unfolding address_from_secret_key
address_run = refl

state_sign_run : Hashing.sign toy two_party leader_key ≡ ok (signature_of 11)
unfolding Hashing.sign hash encode state_channel_id channel_id fixed_part sign_ethereum_message
    message_digest split_signature bytes
state_sign_run = refl

recover_signer-sign_example : Hashing.recover_signer toy two_party (signature_of 11) ≡ ok 11
recover_signer-sign_example =
    recover_signer-sign toy two_party leader_key (signature_of 11) 11 toy-CurveLaws address_run
      state_sign_run
