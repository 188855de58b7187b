-- ===== src/Cluster/Hex.antt =====
-- src/dv_spec/types/hex.py: byte strings as the cluster files write them.
use distributed_validator_sp.Base.{
  ℕ, ◌+◌, ◌-◌, ◌*◌, ◌/◌, ◌%◌, Bool, ◌&&◌, ◌||◌, [], ◌∷◌, ◌==◌, nat_eq, if◌then◌else◌, leb, ltb, any,
  Result, ok, err, ◌>>=◌,
}
use distributed_validator_sp.Types.{Bytes}
use distributed_validator_sp.Crypto.{Error, invalid_hex}

-- char.isspace(), on ASCII. A character beyond it is refused either way.
unfoldable pub is_space : ℕ → Bool
is_space char = (leb 9 char && leb char 13) || (leb 28 char && leb char 32)

-- The value of a hex digit of either case.
unfoldable pub digit_value : ℕ → Result Error ℕ
digit_value char =
    if leb 48 char && leb char 57
    then ok (char - 48)
    else if leb 97 char && leb char 102
    then ok (char - 87)
    else if leb 65 char && leb char 70
    then ok (char - 55)
    else err invalid_hex

-- bytes.fromhex, on a text without white space
unfoldable pub from_hex : Bytes → Result Error Bytes
unfolding digit_value
from_hex [] = ok []
from_hex (a ∷ []) = err invalid_hex
from_hex (a ∷ b ∷ text) = do
  high ← digit_value a
  low ← digit_value b
  rest ← from_hex text
  ok ((high * 16 + low) ∷ rest)

-- value.removeprefix("0x")
unfoldable pub remove_prefix : Bytes → Bytes
remove_prefix [] = []
remove_prefix (a ∷ []) = a ∷ []
remove_prefix (a ∷ b ∷ text) = if a == 48 && b == 120 then text else a ∷ b ∷ text

unfoldable pub decode_hex_bytes : Bytes → Result Error Bytes
unfolding remove_prefix is_space from_hex
decode_hex_bytes value =
    let text = remove_prefix value in if any is_space text then err invalid_hex else from_hex text

-- A lower-case hex digit.
unfoldable pub digit : ℕ → ℕ
digit n = if ltb n 10 then n + 48 else n + 87

-- value.hex()
unfoldable pub to_hex : Bytes → Bytes
unfolding digit
to_hex [] = []
to_hex (b ∷ bytes) = digit (b / 16) ∷ digit (b % 16) ∷ to_hex bytes

unfoldable pub encode_hex_bytes : Bytes → Bytes
unfolding to_hex
encode_hex_bytes [] = []
encode_hex_bytes (b ∷ bytes) = 48 ∷ 120 ∷ to_hex (b ∷ bytes)
