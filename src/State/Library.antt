-- ===== src/State/Library.antt =====
-- What the code takes from go-ethereum: hashing, the curve, and the ABI codec. A client of this
-- development chooses the record; the laws that a theorem needs are hypotheses of their own.
use go_nitro.Base.{ℕ, Bool, List, Option, ℤ, Result}
use go_nitro.Types.Destination.{Address, Destination, Bytes}
use go_nitro.Outcome.Allocation.{GuaranteeMetadata}
use go_nitro.Outcome.Exit.{Exit}

pub record Library : Type 0 where
  -- `crypto.Keccak256Hash`, as a 256-bit number
  pub keccak256 : Bytes → ℕ
  -- `secp256k1.Sign`, on a digest and a secret key
  pub sign : Bytes → Bytes → Result Bytes
  -- `secp256k1.RecoverPubkey`, then `crypto.UnmarshalPubkey`, then `crypto.PubkeyToAddress`
  pub recover_pubkey : Bytes → Bytes → Result Bytes
  pub unmarshal_pubkey : Bytes → Result Bytes
  pub pubkey_to_address : Bytes → Address
  -- `crypto.ToECDSA`, then the public key of the secret key
  pub to_ecdsa : Bytes → Result Bytes
  pub public_key : Bytes → Bytes
  -- `abi.Arguments.Pack` of the fixed part of a channel
  pub pack_fixed_part : Option ℤ → List Address → Option ℤ → Address → Option ℤ → Result Bytes
  -- `abi.Arguments.Pack` of the hashed parts of a state
  pub pack_state : Destination → Bytes → Exit → ℤ → Bool → Result Bytes
  -- `abi.Arguments.Pack` and `Unpack` of guarantee metadata
  pub pack_guarantee_metadata : GuaranteeMetadata → Result Bytes
  pub unpack_guarantee_metadata : Bytes → Result GuaranteeMetadata
