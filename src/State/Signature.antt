-- ===== src/State/Signature.antt =====
-- crypto/signatures.go: the parts of a signature.
use go_nitro.Base.{
  ℕ, Bool, ◌&&◌, [], ◌∷◌, ◌++◌, take, drop, get_elem?, ◌==◌, equal_bytes, Result, ok, deref, ◌>>=◌,
}
use go_nitro.Types.Destination.{Bytes}

pub record Signature : Type 0 where
  pub r : Bytes
  pub s : Bytes
  pub v : ℕ

-- The zero `Signature{}`.
abbrev pub zero_signature : Signature
zero_signature = record { r = []; s = []; v = 0 }

-- `SplitSignature`: a slice shorter than 65 bytes panics.
unfoldable pub split_signature : Bytes → Result Signature
split_signature b = do
  v ← deref (get_elem? b 64)
  ok (record { r = take 32 b; s = take 32 (drop 32 b); v = v })

-- `joinSignature`
unfoldable pub join_signature : Signature → Bytes
join_signature g = g.r ++ (g.s ++ g.v ∷ [])

-- `Signature.Equal`
unfoldable pub equal : Signature → Signature → Bool
equal a b = equal_bytes a.s b.s && (equal_bytes a.r b.r && a.v == b.v)
