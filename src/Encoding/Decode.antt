-- ===== src/Encoding/Decode.antt =====
-- A reference decoder of the protobuf wire format, for what src/dv_spec/encoding/proto.py writes.
use distributed_validator_sp.Base.{
  ℕ, zero, suc, ◌+◌, ◌-◌, ◌*◌, ◌&&◌, Option, none, some, List, [], ◌∷◌, ◌==◌, nat_eq, if◌then◌else◌,
  ltb, leb, length, take, drop,
}
use distributed_validator_sp.Types.{Bytes}

-- A base-128 number from the low end, and what follows it.
unfoldable pub decode_varint : Bytes → Option (ℕ × Bytes)
decode_varint [] = none
decode_varint (b ∷ bytes) =
    let rest = decode_varint bytes in
    if ltb b 128
    then some (b, bytes)
    else elim rest [ none ↦ none | some (high, after) ↦ some (b - 128 + 128 * high, after) ]

-- The payload of a length-delimited field of the number given, and what follows it.
unfoldable pub decode_delimited : ℕ → Bytes → Option (Bytes × Bytes)
unfolding decode_varint
decode_delimited number bytes = elim (decode_varint bytes) [
  | none ↦ none
  | some (tag, rest) ↦ elim (decode_varint rest) [
    | none ↦ none
    | some (size, payload) ↦
        if tag == number * 8 + 2 && leb size (length payload)
        then some (take size payload, drop size payload)
        else none
  ]
]

-- A map entry: a key in field 1 and a value in field 2, and nothing more.
unfoldable pub decode_entry : Bytes → Option (Bytes × Bytes)
unfolding decode_delimited
decode_entry bytes = elim (decode_delimited 1 bytes) [
  | none ↦ none
  | some (key, rest) ↦ elim (decode_delimited 2 rest) [
    | none ↦ none
    | some (value, []) ↦ some (key, value)
    | some (value, b ∷ more) ↦ none
  ]
]

-- The entries of a map in field 1, as many as the rounds allow.
unfoldable pub decode_entries : ℕ → Bytes → Option (List (Bytes × Bytes))
unfolding decode_delimited decode_entry
decode_entries zero [] = some []
decode_entries zero (b ∷ bytes) = none
decode_entries (suc rounds) [] = some []
decode_entries (suc rounds) (b ∷ bytes) = elim (decode_delimited 1 (b ∷ bytes)) [
  | none ↦ none
  | some (entry, rest) ↦ elim (decode_entry entry) [
    | none ↦ none
    | some decoded ↦ elim (decode_entries rounds rest) [
      | none ↦ none
      | some entries ↦ some (decoded ∷ entries)
    ]
  ]
]

-- An entry has at least one byte.
unfoldable pub decode_unsigned_data_set : Bytes → Option (List (Bytes × Bytes))
unfolding decode_entries
decode_unsigned_data_set bytes = decode_entries (length bytes) bytes
