-- ===== src/State/Signing.antt =====
-- crypto/signatures.go and crypto/keys.go: signing a message and recovering its signer.
use go_nitro.Base.{
  ℕ, zero, suc, ◌+◌, ◌-◌, ◌/◌, ◌%◌, [], ◌∷◌, ◌++◌, length, ltb, leb, if◌then◌else◌, Result, ok, err,
  panicked, ◌>>=◌,
}
use go_nitro.Types.Destination.{Address, Bytes, bytes}
use go_nitro.State.Signature.{Signature, split_signature, join_signature}
use go_nitro.State.Library.{Library}

-- The decimal digits of a number, as `%d` prints them; the fuel bounds their count.
decimal_from : ℕ → ℕ → Bytes → Bytes
decimal_from zero n acc = acc
decimal_from (suc fuel) n acc =
    let digits = (48 + n % 10) ∷ acc in
    let rest = decimal_from fuel (n / 10) digits in if ltb n 10 then digits else rest

abbrev pub decimal : ℕ → Bytes
unfolding decimal_from
decimal n = decimal_from (suc n) n []

-- "\x19Ethereum Signed Message:\n"
abbrev pub message_prefix : Bytes
message_prefix =
    0x19 ∷ b'E' ∷ b't' ∷ b'h' ∷ b'e' ∷ b'r' ∷ b'e' ∷ b'u' ∷ b'm' ∷ b' ' ∷ b'S' ∷ b'i' ∷ b'g' ∷ b'n'
    ∷ b'e' ∷ b'd' ∷ b' ' ∷ b'M' ∷ b'e' ∷ b's' ∷ b's' ∷ b'a' ∷ b'g' ∷ b'e' ∷ b':' ∷ 10 ∷ []

module _ (lib : Library) where
  -- `computeEthereumSignedMessageDigest`
  unfoldable pub message_digest : Bytes → Bytes
  unfolding decimal_from
  message_digest message =
      bytes (lib.keccak256 (message_prefix ++ (decimal (length message) ++ message)))

  -- `SignEthereumMessage`
  unfoldable pub sign_ethereum_message : Bytes → Bytes → Result Signature
  sign_ethereum_message message secret_key = do
    concatenated ← lib.sign (message_digest message) secret_key
    sig ← split_signature concatenated
    ok (if ltb sig.v 27 then record sig { v = (sig.v + 27) % 256 } else sig)

  -- `RecoverEthereumMessageSigner`
  unfoldable pub recover_ethereum_message_signer : Bytes → Signature → Result Address
  recover_ethereum_message_signer message signature = do
    let sig = if leb 27 signature.v then record signature { v = signature.v - 27 } else signature
    pub_key ← lib.recover_pubkey (message_digest message) (join_signature sig)
    ecdsa_pub_key ← lib.unmarshal_pubkey pub_key
    ok (lib.pubkey_to_address ecdsa_pub_key)

  -- `GetAddressFromSecretKeyBytes`; a key that is none ends the program (`log.Fatal`).
  unfoldable pub address_from_secret_key : Bytes → Result Address
  address_from_secret_key secret_key = elim (lib.to_ecdsa secret_key) [
    | ok key ↦ ok (lib.pubkey_to_address (lib.public_key key))
    | err e ↦ err panicked
  ]
