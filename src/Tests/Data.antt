-- ===== src/Tests/Data.antt =====
-- A toy library for go-ethereum, and a ledger channel between two participants.
use go_nitro.Base.{
  ℕ, ◌+◌, ◌^◌, ◌≡◌, ◌<◌, ◌∙◌, refl, ap, arith, subst, some, [], ◌∷◌, length, get_elem?, pos, ok,
  ok_injective,
}
use go_nitro.Types.Destination.{Bytes, zeros}
use go_nitro.State.Signature.{Signature}
use go_nitro.State.Data.{FixedPart}
use go_nitro.State.Library.{Library}
use go_nitro.State.Recovery.{CurveLaws}

abbrev pub first : Bytes → ℕ
first [] = 0
first (b ∷ bs) = b

-- A secret key is one byte, which is its address too and the first byte of its signatures.
abbrev pub toy : Library
toy = record {
  keccak256 = λ b. 2 ^ 255 + length b;
  sign = λ digest key. ok (first key ∷ zeros 64);
  recover_pubkey = λ digest sig. ok (first sig ∷ []);
  unmarshal_pubkey = λ key. ok key;
  pubkey_to_address = first;
  to_ecdsa = λ key. ok (first key ∷ []);
  public_key = λ key. key;
  pack_fixed_part = λ chain_id participants nonce app duration. ok participants;
  pack_state = λ id app_data outcome turn is_final. ok app_data;
  pack_guarantee_metadata = λ m. ok (m.left ∷ m.right ∷ []);
  unpack_guarantee_metadata = λ b. ok (record { left = first b; right = 0 });
}

small : (v : ℕ) → some 0 ≡ some v → v < 4
small v h = ground arith

pub toy-CurveLaws : CurveLaws toy
toy-CurveLaws = record {
  length-sign = λ digest key sig e. subst (λ s. length s ≡ 65) (ok_injective e) refl;
  recovery_id = λ digest key sig v e h. small v (ap (λ s. get_elem? s 64) (ok_injective e) ∙ h);
  recover_signed = λ digest key sig k e h. (
    first key ∷ [],
    subst (λ s. toy.recover_pubkey digest s ≡ ok (first key ∷ [])) (ok_injective e) refl,
    ap (λ r. ok r) (ok_injective h),
  );
}

abbrev pub leader_key : Bytes
leader_key = 11 ∷ []

abbrev pub follower_key : Bytes
follower_key = 22 ∷ []

-- The signatures of the two on anything.
abbrev pub signature_of : ℕ → Signature
signature_of a = record { r = a ∷ zeros 31; s = zeros 32; v = 27 }

abbrev pub fixed : FixedPart
fixed = record {
  chain_id = some (pos 1337);
  participants = 11 ∷ 22 ∷ [];
  channel_nonce = some (pos 7);
  app_definition = 0;
  challenge_duration = some (pos 60);
}
