-- ===== src/Encoding/DecodeBack.antt =====
-- src/dv_spec/encoding/proto.py: what is encoded is decoded again.
use distributed_validator_sp.Base.{
  ℕ, zero, suc, true, false, ◌+◌, ◌*◌, ◌/◌, ◌≤◌, ◌<◌, ◌≡◌, refl, some, List, [], ◌∷◌, ◌++◌, ◌==◌,
  nat_eq, ==-refl, leb, length, length-append, take-append, drop-append, Dict, sorted, list_ltb,
  Bool-cases, inl, inr, le→leb, arith,
}
use mathlib.Core.List.{append_assoc, append-nil}
use distributed_validator_sp.Types.{Bytes}
use distributed_validator_sp.Encoding.Proto.{
  varint_loop, varint, tag, length_delimited, encode_entries, entry_key, encode_unsigned_data_set,
}
use distributed_validator_sp.Encoding.Decode.{
  decode_varint, decode_delimited, decode_entry, decode_entries, decode_unsigned_data_set,
}

decode_varint-loop :
    (fuel value : ℕ) (rest : Bytes)
    → value < fuel
    → decode_varint (varint_loop fuel value ++ rest) ≡ some (value, rest)
unfolding decode_varint varint_loop
decode_varint-loop zero value rest h = absurd (omega arith)
decode_varint-loop (suc fuel) value rest h = elim (Bool-cases (value / 128 == 0)) [
  | inl t ↦ rw t (ground arith)
  | inr f ↦ rw f (rw (decode_varint-loop fuel (value / 128) rest (ground arith)) (ground arith))
]

pub decode_varint-varint :
    (value : ℕ) (rest : Bytes) → decode_varint (varint value ++ rest) ≡ some (value, rest)
unfolding varint
decode_varint-varint value rest = decode_varint-loop (suc value) value rest (omega arith)

-- A tag, a length, and a payload of that length.
decode_delimited-parts :
    (number : ℕ) (bytes after payload rest : Bytes)
    → decode_varint bytes ≡ some (number * 8 + 2, after)
    → decode_varint after ≡ some (length payload, payload ++ rest)
    → decode_delimited number bytes ≡ some (payload, rest)
unfolding decode_delimited
decode_delimited-parts number bytes after payload rest p q =
    let fits : leb (length payload) (length (payload ++ rest)) ≡ true =
      le→leb _ _ (rw length-append (omega arith)) in
    rw
      (
        p,
        decode_delimited,
        q,
        ==-refl (number * 8 + 2),
        fits,
        take-append payload rest,
        drop-append payload rest,
      )
      refl

decode_delimited-back :
    (number : ℕ) (payload rest : Bytes)
    → decode_delimited number (length_delimited number payload ++ rest) ≡ some (payload, rest)
unfolding length_delimited tag
decode_delimited-back number payload rest =
    rw
      (
        append_assoc (varint (number * 8 + 2)) (varint (length payload) ++ payload) rest,
        append_assoc (varint (length payload)) payload rest,
      )
      (decode_delimited-parts number _ (varint (length payload) ++ (payload ++ rest)) payload rest
        (decode_varint-varint (number * 8 + 2) (varint (length payload) ++ (payload ++ rest)))
        (decode_varint-varint (length payload) (payload ++ rest)))

decode_entry-parts :
    (bytes after key value : Bytes)
    → decode_delimited 1 bytes ≡ some (key, after)
    → decode_delimited 2 after ≡ some (value, [])
    → decode_entry bytes ≡ some (key, value)
unfolding decode_entry
decode_entry-parts bytes after key value p q = rw (p, decode_entry, q) refl

decode_entry-back :
    (key value : Bytes)
    → decode_entry (length_delimited 1 key ++ length_delimited 2 value) ≡ some (key, value)
decode_entry-back key value =
    decode_entry-parts (length_delimited 1 key ++ length_delimited 2 value)
      (length_delimited 2 value) key value (decode_delimited-back 1 key (length_delimited 2 value))
      (rw (append-nil (length_delimited 2 value)) at (decode_delimited-back 2 value []))

no_field : (entry rest : Bytes) → decode_delimited 1 [] ≡ some (entry, rest) → true ≡ false
unfolding decode_delimited decode_varint
no_field entry rest p = cc

decode_entries-parts :
    (rounds : ℕ) (bytes entry rest : Bytes) (decoded : Bytes × Bytes)
    (entries : List (Bytes × Bytes))
    → decode_delimited 1 bytes ≡ some (entry, rest)
    → decode_entry entry ≡ some decoded
    → decode_entries rounds rest ≡ some entries
    → decode_entries (suc rounds) bytes ≡ some (decoded ∷ entries)
unfolding decode_entries
decode_entries-parts rounds [] entry rest decoded entries p q r =
    absurd (cc (no_field entry rest p))
decode_entries-parts rounds (b ∷ bytes) entry rest decoded entries p q r =
    rw (p, decode_entries, q, r) refl

varint_positive : (n : ℕ) → 1 ≤ length (varint n)
unfolding varint varint_loop
varint_positive n = ground arith

-- A field is not empty.
delimited_positive : (number : ℕ) (payload : Bytes) → 1 ≤ length (length_delimited number payload)
unfolding length_delimited tag
delimited_positive number payload =
    rw length-append (omega (arith, varint_positive (number * 8 + 2)))

delimited_shorter :
    (number : ℕ) (payload rest : Bytes)
    → length rest + 1 ≤ length (length_delimited number payload ++ rest)
delimited_shorter number payload rest =
    rw length-append (omega (arith, delimited_positive number payload))

decode_entries-back :
    (rounds : ℕ) (entries : List (Bytes × Bytes))
    → length (encode_entries entries) ≤ rounds
    → decode_entries rounds (encode_entries entries) ≡ some entries
unfolding encode_entries decode_entries
decode_entries-back zero [] h = refl
decode_entries-back (suc rounds) [] h = refl
decode_entries-back zero ((key, value) ∷ entries) h =
    let entry = length_delimited 1 key ++ length_delimited 2 value in
    absurd (omega (arith, h, delimited_shorter 1 entry (encode_entries entries)))
decode_entries-back (suc rounds) ((key, value) ∷ entries) h =
    let entry = length_delimited 1 key ++ length_delimited 2 value in
    let shorter : length (encode_entries entries) ≤ rounds =
      omega (arith, h, delimited_shorter 1 entry (encode_entries entries)) in
    decode_entries-parts rounds (length_delimited 1 entry ++ encode_entries entries) entry
      (encode_entries entries) (key, value) entries
      (decode_delimited-back 1 entry (encode_entries entries)) (decode_entry-back key value)
      (decode_entries-back rounds entries shorter)

-- Decoding the encoding of an unsigned data set gives back its entries in the order of their keys, so
-- that sets of the same encoding, and only they, have the same entries.
pub unsigned_data_set_back :
    (entries : Dict Bytes Bytes)
    → decode_unsigned_data_set (encode_unsigned_data_set entries)
      ≡ some (sorted (λ a b. list_ltb (entry_key a) (entry_key b)) entries)
unfolding decode_unsigned_data_set encode_unsigned_data_set
unsigned_data_set_back entries =
    decode_entries-back _ (sorted (λ a b. list_ltb (entry_key a) (entry_key b)) entries)
      (omega arith)
