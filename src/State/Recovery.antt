-- ===== src/State/Recovery.antt =====
-- A signature made with a secret key recovers to the address of the key.
use go_nitro.Base.{
  ℕ, ◌≡◌, ◌<◌, ap, ◌∙◌, some, length, get_elem?, take, drop, ◌++◌, [], ◌∷◌, arith, ok, deref,
  >>=-eq-ok, or_fail-eq-ok, ok_injective, panicked, take-append-take-drop, take-append_last, ltb,
  leb, ◌-◌, ◌+◌, ◌%◌, Result-cases, inl, inr, if◌then◌else◌, sym,
}
use mathlib.Core.List.{append_assoc}
use go_nitro.Types.Destination.{Address, Bytes, bytes}
use go_nitro.State.Data.{State}
use go_nitro.State.Hashing
use go_nitro.State.Signature.{Signature, split_signature, join_signature}
use go_nitro.State.Library.{Library}
use go_nitro.State.Signing.{
  message_digest, sign_ethereum_message, recover_ethereum_message_signer, address_from_secret_key,
}

-- What go-ethereum documents of secp256k1: a signature has 65 bytes, the last of which is a
-- recovery id below 4, and recovery finds the public key that signed.
pub record CurveLaws (lib : Library) : Type 0 where
  pub length-sign : (digest key sig : Bytes) → lib.sign digest key ≡ ok sig → length sig ≡ 65
  pub recovery_id :
      (digest key sig : Bytes) (v : ℕ)
      → lib.sign digest key ≡ ok sig
      → get_elem? sig 64 ≡ some v
      → v < 4
  pub recover_signed :
      (digest key sig ecdsa_key : Bytes)
      → lib.sign digest key ≡ ok sig
      → lib.to_ecdsa key ≡ ok ecdsa_key
      → (pub_key : Bytes) × (lib.recover_pubkey digest sig ≡ ok pub_key)
        × (lib.unmarshal_pubkey pub_key ≡ ok (lib.public_key ecdsa_key))

-- Joining the parts of 65 bytes gives them back.
join-split_signature :
    (b : Bytes) (g : Signature) → length b ≡ 65 → split_signature b ≡ ok g → join_signature g ≡ b
unfolding split_signature join_signature
join-split_signature b g h e =
    let (v, p, q) = >>=-eq-ok (deref (get_elem? b 64)) _ e in
    let last = or_fail-eq-ok (get_elem? b 64) panicked p in
    rw (← ok_injective q) (
      sym (append_assoc (take 32 b) (take 32 (drop 32 b)) (v ∷ []))
      ∙ ap (λ r. r ++ v ∷ []) (take-append-take-drop 32 32 b)
      ∙ take-append_last 64 b h last)

split_signature_v :
    (b : Bytes) (g : Signature) → split_signature b ≡ ok g → get_elem? b 64 ≡ some g.v
unfolding split_signature
split_signature_v b g e =
    let (v, p, q) = >>=-eq-ok (deref (get_elem? b 64)) _ e in
    or_fail-eq-ok (get_elem? b 64) panicked p ∙ ap (λ x. some x.v) (ok_injective q)

-- The shift by 27 is undone.
v_round :
    (g : Signature)
    → g.v < 4
    → let sig = if ltb g.v 27 then record g { v = (g.v + 27) % 256 } else g in
      (if leb 27 sig.v then record sig { v = sig.v - 27 } else sig) ≡ g
v_round g h = ground arith

module _ (lib : Library) where
  address_inv :
      (key : Bytes) (addr : Address)
      → address_from_secret_key lib key ≡ ok addr
      → (ecdsa_key : Bytes) × (lib.to_ecdsa key ≡ ok ecdsa_key)
        × (lib.pubkey_to_address (lib.public_key ecdsa_key) ≡ addr)
  unfolding address_from_secret_key
  address_inv key addr h = elim (Result-cases (lib.to_ecdsa key)) [
    | inl (k, e) ↦ (k, e, ground arith)
    | inr (x, e) ↦ absurd (ground arith)
  ]

  -- A signature made with a secret key recovers, on the same message, to the key's address.
  pub recover-sign :
      (message key : Bytes) (sig : Signature) (addr : Address)
      → CurveLaws lib
      → address_from_secret_key lib key ≡ ok addr
      → sign_ethereum_message lib message key ≡ ok sig
      → recover_ethereum_message_signer lib message sig ≡ ok addr
  unfolding sign_ethereum_message recover_ethereum_message_signer
  recover-sign message key sig addr laws ha hs =
      let digest = message_digest lib message in
      let (c, hc, h1) = >>=-eq-ok (lib.sign digest key) _ hs in
      let (g, hg, h2) = >>=-eq-ok (split_signature c) _ h1 in
      let (k, hk, own) = address_inv key addr ha in
      let (pub_key, hr, hu) = laws.recover_signed digest key c k hc hk in
      let small = laws.recovery_id digest key c g.v hc (split_signature_v c g hg) in
      rw (
        ← ok_injective h2,
        v_round g small,
        join-split_signature c g (laws.length-sign digest key c hc) hg,
        hr,
        hu,
        own,
      )

  -- `State.RecoverSigner` finds the address of the key with which `State.Sign` signed the state.
  pub recover_signer-sign :
      (s : State) (key : Bytes) (sig : Signature) (addr : Address)
      → CurveLaws lib
      → address_from_secret_key lib key ≡ ok addr
      → Hashing.sign lib s key ≡ ok sig
      → Hashing.recover_signer lib s sig ≡ ok addr
  unfolding Hashing.sign Hashing.recover_signer
  recover_signer-sign s key sig addr laws ha hs =
      let (h, hh, h1) = >>=-eq-ok (Hashing.hash lib s) _ hs in
      rw hh (recover-sign (bytes h) key sig addr laws ha h1)
