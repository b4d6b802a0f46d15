-- ===== src/Types/Destination.antt =====
-- types/types.go and types/destination.go. An address is the 160-bit number that its 20 bytes
-- spell, a destination the 256-bit number of its 32 bytes, both big-endian.
use go_nitro.Base.{
  ℕ, zero, suc, ◌+◌, ◌*◌, ◌/◌, ◌%◌, ◌^◌, Bool, true, ◌&&◌, not, List, [], ◌∷◌, ◌++◌, length, take,
  drop, ◌==◌, Result, ok, fail_if, ◌>>◌, not_external_destination,
}

abbrev pub Address : Type 0
Address = ℕ

abbrev pub Destination : Type 0
Destination = ℕ

abbrev pub Bytes : Type 0
Bytes = List ℕ

-- The `n` lowest bytes of a number, highest first.
abbrev pub be_bytes : ℕ → ℕ → Bytes
be_bytes zero d = []
be_bytes (suc n) d = (d / 256 ^ n % 256) ∷ be_bytes n d

abbrev pub of_bytes : Bytes → ℕ
of_bytes [] = 0
of_bytes (b ∷ bs) = b * 256 ^ length bs + of_bytes bs

abbrev pub zeros : ℕ → Bytes
zeros zero = []
zeros (suc n) = 0 ∷ zeros n

-- `Destination.Bytes`
unfoldable pub bytes : Destination → Bytes
bytes d = be_bytes 32 d

all_zero : Bytes → Bool
all_zero [] = true
all_zero (b ∷ bs) = b == 0 && all_zero bs

-- `Destination.IsExternal`
unfoldable pub is_external : Destination → Bool
unfolding all_zero bytes
is_external d = all_zero (take 12 (bytes d))

-- `Destination.ToAddress`
unfoldable pub to_address : Destination → Result Address
unfolding is_external
to_address d = do
  fail_if (not (is_external d)) not_external_destination
  ok (of_bytes (drop 12 (bytes d)))

-- `AddressToDestination` writes the 20 bytes behind 12 zeros.
unfoldable pub address_to_destination : Address → Destination
address_to_destination a = of_bytes (zeros 12 ++ be_bytes 20 a)
