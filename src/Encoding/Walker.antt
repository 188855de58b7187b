-- ===== src/Encoding/Walker.antt =====
-- src/dv_spec/encoding/ssz.py: the incremental hasher HashWalker, and the put functions over it.
use distributed_validator_sp.Base.{
  ℕ, zero, suc, ◌+◌, ◌-◌, ◌*◌, ◌/◌, ◌%◌, ◌^◌, Bool, List, [], ◌∷◌, ◌++◌, ◌==◌, nat_eq,
  if◌then◌else◌, leb, ltb, length, take, drop, replicate, Result, ok, err, ◌>>=◌,
}
use distributed_validator_sp.Types.{Bytes}
use distributed_validator_sp.Crypto.{
  Crypto, Error, uint64_out_of_range, length_overflow, not_aligned, incomplete_walk, over_limit,
  over_fixed_length,
}
use distributed_validator_sp.Encoding.Ssz.{chunk_size, slices, pad_to_chunk, merkleize}

-- The state of a walk: its only attribute, the chunk buffer.
abbrev pub HashWalker : Type 0
HashWalker = Bytes

abbrev pub uint64_size : ℕ
uint64_size = 8

unfoldable pub calculate_limit : ℕ → ℕ → ℕ → ℕ
calculate_limit max_capacity num_items item_size =
    let limit = (max_capacity * item_size + chunk_size - 1) / chunk_size in
    if limit == 0 then (if num_items == 0 then 1 else num_items) else limit

-- value.to_bytes(size, "little"), for a value that fits
unfoldable pub little_endian : ℕ → ℕ → Bytes
little_endian zero value = []
little_endian (suc size) value = value % 256 ∷ little_endian size (value / 256)

unfoldable pub uint64_bytes : ℕ → Result Error Bytes
unfolding little_endian
uint64_bytes value =
    if ltb value (2 ^ 64) then ok (little_endian uint64_size value) else err uint64_out_of_range

-- `int.to_bytes` raises an OverflowError for a count that does not fit.
unfoldable pub length_mixin : ℕ → Result Error Bytes
unfolding little_endian
length_mixin num =
    if ltb num (2 ^ 64)
    then ok (little_endian uint64_size num ++ replicate (chunk_size - uint64_size) 0)
    else err length_overflow

unfoldable pub index : HashWalker → ℕ
index walker = length walker

unfoldable pub append_bytes32 : HashWalker → Bytes → HashWalker
append_bytes32 walker bytes =
    let remainder = length bytes % chunk_size in
    let buffer = walker ++ bytes in
    if remainder == 0 then buffer else buffer ++ replicate (chunk_size - remainder) 0

unfoldable pub fill_up_to_32 : HashWalker → HashWalker
unfolding pad_to_chunk
fill_up_to_32 walker = pad_to_chunk walker

unfoldable pub chunks_from : HashWalker → ℕ → Result Error (List Bytes)
unfolding slices
chunks_from walker start =
    let region = drop start walker in
    if length region % chunk_size == 0
    then ok (slices ((length region + 31) / 32) region)
    else err not_aligned

unfoldable pub hash_root : HashWalker → Result Error Bytes
hash_root walker = if length walker == chunk_size then ok walker else err incomplete_walk

unfoldable pub put_bool : HashWalker → Bool → HashWalker
unfolding append_bytes32
put_bool walker value = append_bytes32 walker (if value then 1 ∷ [] else 0 ∷ [])

unfoldable pub put_uint64 : HashWalker → ℕ → Result Error HashWalker
unfolding append_bytes32 uint64_bytes
put_uint64 walker value = do bytes ← uint64_bytes value; ok (append_bytes32 walker bytes)

-- for value in values: self.buffer += _uint64_bytes(value)
unfoldable pub append_uint64s : HashWalker → List ℕ → Result Error HashWalker
unfolding uint64_bytes
append_uint64s walker [] = ok walker
append_uint64s walker (value ∷ values) = do
  bytes ← uint64_bytes value
  append_uint64s (walker ++ bytes) values

module _ (c : Crypto) where
  -- HashWalker.merkleize
  unfoldable pub merkleize_from : HashWalker → ℕ → Result Error HashWalker
  unfolding chunks_from merkleize
  merkleize_from walker start = do
    chunks ← chunks_from walker start
    root ← merkleize c chunks 0
    ok (take start walker ++ root)

  unfoldable pub merkleize_with_mixin : HashWalker → ℕ → ℕ → ℕ → Result Error HashWalker
  unfolding fill_up_to_32 chunks_from merkleize length_mixin
  merkleize_with_mixin walker start num limit = do
    chunks ← chunks_from (fill_up_to_32 walker) start
    root ← merkleize c chunks limit
    mixin ← length_mixin num
    ok (take start (fill_up_to_32 walker) ++ c.sha256 (root ++ mixin))

  unfoldable pub put_bytes : HashWalker → Bytes → Result Error HashWalker
  unfolding append_bytes32 merkleize_from index
  put_bytes walker bytes =
      if leb (length bytes) chunk_size
      then ok (append_bytes32 walker bytes)
      else merkleize_from (append_bytes32 walker bytes) (index walker)

  unfoldable pub put_uint64_array : HashWalker → List ℕ → ℕ → Result Error HashWalker
  unfolding append_uint64s fill_up_to_32 merkleize_with_mixin calculate_limit index
  put_uint64_array walker values max_capacity = do
    appended ← append_uint64s walker values
    merkleize_with_mixin (fill_up_to_32 appended) (index walker) (length values)
        (calculate_limit max_capacity (length values) uint64_size)

  unfoldable pub put_byte_list : HashWalker → Bytes → ℕ → Result Error HashWalker
  unfolding append_bytes32 merkleize_with_mixin index
  put_byte_list walker bytes max_bytes =
      if ltb max_bytes (length bytes)
      then err over_limit
      else merkleize_with_mixin (append_bytes32 walker bytes) (index walker) (length bytes)
          ((max_bytes + chunk_size - 1) / chunk_size)

  -- A short value is left-padded with zeros.
  unfoldable pub put_bytes_n : HashWalker → Bytes → ℕ → Result Error HashWalker
  unfolding put_bytes
  put_bytes_n walker bytes size =
      if ltb size (length bytes)
      then err over_fixed_length
      else put_bytes walker (replicate (size - length bytes) 0 ++ bytes)
