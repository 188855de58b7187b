-- ===== src/Encoding/Proto.antt =====
-- src/dv_spec/encoding/proto.py: the deterministic protobuf encoding.
use distributed_validator_sp.Base.{
  ℕ, zero, suc, ◌+◌, ◌*◌, ◌-◌, ◌/◌, ◌%◌, ◌^◌, ℤ, pos, negsuc, List, [], ◌∷◌, ◌++◌, ◌==◌, nat_eq,
  if◌then◌else◌, length, Dict, sorted, list_ltb,
}
use distributed_validator_sp.Types.{Bytes, Duty, duty_type_code}

abbrev pub wire_type_varint : ℕ
wire_type_varint = 0

abbrev pub wire_type_length_delimited : ℕ
wire_type_length_delimited = 2

-- The loop of `varint`: seven bits a byte, from the low end, the top bit set while more follow.
-- `byte | 0x80` is `byte + 128`, as `byte` is below 128. A round divides the value by 128, so
-- `value + 1` rounds are more than enough.
unfoldable pub varint_loop : ℕ → ℕ → Bytes
varint_loop zero value = []
varint_loop (suc fuel) value =
    let byte = value % 128 in
    let rest = varint_loop fuel (value / 128) in
    if value / 128 == 0 then byte ∷ [] else (byte + 128) ∷ rest

-- `varint` at a non-negative integer. All fields that are encoded here hold such.
unfoldable pub varint : ℕ → Bytes
unfolding varint_loop
varint value = varint_loop (suc value) value

unfoldable pub tag : ℕ → ℕ → Bytes
unfolding varint
tag field_number wire_type = varint (field_number * 8 + wire_type)

unfoldable pub varint_field : ℕ → ℕ → Bytes
unfolding tag varint
varint_field field_number value =
    if value == 0 then [] else tag field_number wire_type_varint ++ varint value

unfoldable pub length_delimited : ℕ → Bytes → Bytes
unfolding tag varint
length_delimited field_number payload =
    tag field_number wire_type_length_delimited ++ (varint (length payload) ++ payload)

unfoldable pub bytes_field : ℕ → Bytes → Bytes
unfolding length_delimited
bytes_field field_number [] = []
bytes_field field_number (b ∷ bs) = length_delimited field_number (b ∷ bs)

-- A `str` is already held as its UTF-8 bytes.
unfoldable pub string_field : ℕ → Bytes → Bytes
unfolding bytes_field
string_field field_number value = bytes_field field_number value

unfoldable pub encode_duty : Duty → Bytes
unfolding varint_field
encode_duty duty = varint_field 1 duty.slot ++ varint_field 2 (duty_type_code duty.type)

-- `varint` at any integer: a negative one is extended to 64 bits.
unfoldable pub varint_int : ℤ → Bytes
unfolding varint
varint_int (pos n) = varint n
varint_int (negsuc n) = varint (2 ^ 64 - (n + 1))

-- for key in sorted(entries), over the entries in the order of their keys
unfoldable pub encode_entries : List (Bytes × Bytes) → Bytes
unfolding length_delimited
encode_entries [] = []
encode_entries ((key, value) ∷ entries) =
    length_delimited 1 (length_delimited 1 key ++ length_delimited 2 value)
    ++ encode_entries entries

-- The keys of a mapping are distinct, so that they order the entries.
abbrev pub entry_key : Bytes × Bytes → Bytes
entry_key entry = entry.0

unfoldable pub encode_unsigned_data_set : Dict Bytes Bytes → Bytes
unfolding encode_entries
encode_unsigned_data_set entries =
    encode_entries (sorted (λ a b. list_ltb (entry_key a) (entry_key b)) entries)

unfoldable pub encode_any : Bytes → Bytes → Bytes
unfolding string_field bytes_field
encode_any type_url value = string_field 1 type_url ++ bytes_field 2 value

unfoldable pub encode_string_value : Bytes → Bytes
unfolding length_delimited
encode_string_value value = length_delimited 3 value

-- "type.googleapis.com/google.protobuf.Value"
abbrev pub string_value_type_url : Bytes
string_value_type_url =
    116 ∷ 121 ∷ 112 ∷ 101 ∷ 46 ∷ 103 ∷ 111 ∷ 111 ∷ 103 ∷ 108 ∷ 101 ∷ 97 ∷ 112 ∷ 105 ∷ 115 ∷ 46 ∷ 99
    ∷ 111 ∷ 109 ∷ 47 ∷ 103 ∷ 111 ∷ 111 ∷ 103 ∷ 108 ∷ 101 ∷ 46 ∷ 112 ∷ 114 ∷ 111 ∷ 116 ∷ 111 ∷ 98
    ∷ 117 ∷ 102 ∷ 46 ∷ 86 ∷ 97 ∷ 108 ∷ 117 ∷ 101 ∷ []

unfoldable pub encode_any_string : Bytes → Bytes
unfolding encode_any encode_string_value
encode_any_string value = encode_any string_value_type_url (encode_string_value value)
