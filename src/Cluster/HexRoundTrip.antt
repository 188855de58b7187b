-- ===== src/Cluster/HexRoundTrip.antt =====
-- src/dv_spec/types/hex.py: what is encoded is decoded again.
use distributed_validator_sp.Base.{
  ℕ, ◌/◌, ◌%◌, ◌<◌, ◌≡◌, refl, ap, false, [], ◌∷◌, nat_eq, any, ok, All, arith,
}
use distributed_validator_sp.Types.{Bytes}
use distributed_validator_sp.Cluster.Hex.{
  is_space, digit_value, from_hex, remove_prefix, decode_hex_bytes, digit, to_hex, encode_hex_bytes,
}

digit_value-digit : (n : ℕ) → n < 16 → digit_value (digit n) ≡ ok n
unfolding digit_value digit
digit_value-digit n h = ground arith

is_space-digit : (n : ℕ) → n < 16 → is_space (digit n) ≡ false
unfolding is_space digit
is_space-digit n h = ground arith

-- The numbers of a byte string.
abbrev pub IsBytes : Bytes → Type 0
IsBytes = All (λ b. b < 256)

is_space-to_hex : (bytes : Bytes) → IsBytes bytes → any is_space (to_hex bytes) ≡ false
unfolding to_hex
is_space-to_hex [] h = refl
is_space-to_hex (b ∷ bytes) h =
    rw (is_space-digit (b / 16) (omega (arith, h.0)), is_space-digit (b % 16) (omega arith))
      (is_space-to_hex bytes h.1)

from_hex-to_hex : (bytes : Bytes) → IsBytes bytes → from_hex (to_hex bytes) ≡ ok bytes
unfolding from_hex to_hex
from_hex-to_hex [] h = refl
from_hex-to_hex (b ∷ bytes) h =
    rw
      (
        digit_value-digit (b / 16) (omega (arith, h.0)),
        digit_value-digit (b % 16) (omega arith),
        from_hex-to_hex bytes h.1,
      )
      (ap (λ n. ok (n ∷ bytes)) (omega arith))

-- Decoding what encode_hex_bytes writes for a byte string gives back the byte string.
pub decode_hex_bytes-encode_hex_bytes :
    (bytes : Bytes)
    → All (λ b. b < 256) bytes
    → decode_hex_bytes (encode_hex_bytes bytes) ≡ ok bytes
unfolding decode_hex_bytes encode_hex_bytes remove_prefix
decode_hex_bytes-encode_hex_bytes [] h = refl
decode_hex_bytes-encode_hex_bytes (b ∷ bytes) h =
    rw (is_space-to_hex (b ∷ bytes) h) (from_hex-to_hex (b ∷ bytes) h)
