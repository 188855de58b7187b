-- ===== src/Encoding/Ssz.antt =====
-- src/dv_spec/encoding/ssz.py: chunks, merkleization, and the hash root of a protobuf encoding.
use distributed_validator_sp.Base.{
  ℕ, zero, suc, ◌+◌, ◌-◌, ◌/◌, ◌%◌, ◌^◌, List, [], ◌∷◌, ◌++◌, ◌==◌, nat_eq, if◌then◌else◌, leb, ltb,
  length, take, drop, replicate, Result, ok, err,
}
use distributed_validator_sp.Types.{Bytes}
use distributed_validator_sp.Crypto.{Crypto, Error, too_many_chunks}

abbrev pub chunk_size : ℕ
chunk_size = 32

abbrev pub zero_chunk : Bytes
zero_chunk = replicate 32 0

-- `int.bit_length`; a round halves the value, so `n + 1` rounds are enough.
unfoldable pub bit_length_loop : ℕ → ℕ → ℕ
bit_length_loop zero n = 0
bit_length_loop (suc fuel) n =
    let rest = bit_length_loop fuel (n / 2) in if n == 0 then 0 else suc rest

unfoldable pub bit_length : ℕ → ℕ
unfolding bit_length_loop
bit_length n = bit_length_loop (suc n) n

unfoldable pub chunk_count_depth : ℕ → ℕ
unfolding bit_length
chunk_count_depth chunk_count =
    if leb chunk_count 1 then 0 else bit_length (2 ^ bit_length (chunk_count - 1)) - 1

-- [data[i : i + 32] for i in range(0, len(data), 32)]: one slice for each of the rounds.
unfoldable pub slices : ℕ → Bytes → List Bytes
slices zero bytes = []
slices (suc rounds) bytes = take 32 bytes ∷ slices rounds (drop 32 bytes)

-- The bytes, right-padded with zeros to a chunk boundary.
unfoldable pub pad_to_chunk : Bytes → Bytes
pad_to_chunk bytes =
    let remainder = length bytes % chunk_size in
    if remainder == 0 then bytes else bytes ++ replicate (chunk_size - remainder) 0

unfoldable pub chunkify : Bytes → List Bytes
unfolding slices pad_to_chunk
chunkify bytes = let padded = pad_to_chunk bytes in slices ((length padded + 31) / 32) padded

-- `layer[0]`
abbrev pub first_chunk : List Bytes → Bytes
first_chunk [] = zero_chunk
first_chunk (c ∷ cs) = c

module _ (c : Crypto) where
  -- ZERO_HASHES[level], which the source tabulates for 0 ≤ level ≤ 64.
  unfoldable pub zero_hash : ℕ → Bytes
  zero_hash zero = zero_chunk
  zero_hash (suc level) = let h = zero_hash level in c.sha256 (h ++ h)

  -- [sha256(layer[i] + layer[i + 1]) for i in range(0, len(layer), 2)], once the layer is even
  unfoldable pub hash_pairs : List Bytes → List Bytes
  hash_pairs [] = []
  hash_pairs (a ∷ []) = []
  hash_pairs (a ∷ b ∷ rest) = c.sha256 (a ++ b) ∷ hash_pairs rest

  unfoldable pub next_layer : ℕ → List Bytes → List Bytes
  unfolding hash_pairs zero_hash
  next_layer level layer =
      hash_pairs (if length layer % 2 == 0 then layer else layer ++ zero_hash level ∷ [])

  -- for level in range(depth): the rounds left, and the level
  unfoldable pub layers : ℕ → ℕ → List Bytes → List Bytes
  unfolding next_layer
  layers zero level layer = layer
  layers (suc rounds) level layer = layers rounds (suc level) (next_layer level layer)

  -- The body of `merkleize` once its limit is known: the number of leaves the tree is sized for.
  unfoldable pub merkleize_sized : List Bytes → ℕ → Bytes
  unfolding layers chunk_count_depth zero_hash
  merkleize_sized chunks limit =
      if limit == 0
      then zero_chunk
      else if limit == 1
      then (if length chunks == 1 then first_chunk chunks else zero_chunk)
      else if length chunks == 0
      then zero_hash (chunk_count_depth limit)
      else first_chunk (layers (chunk_count_depth limit) 0 chunks)

  -- A limit of zero sizes the tree to the chunks present.
  unfoldable pub merkleize : List Bytes → ℕ → Result Error Bytes
  unfolding merkleize_sized
  merkleize chunks limit =
      let size = length chunks in
      if limit == 0
      then ok (merkleize_sized chunks size)
      else if ltb limit size
      then err too_many_chunks
      else ok (merkleize_sized chunks limit)

  -- `merkleize` is called with no limit here, and then does not raise.
  unfoldable pub hash_proto : Bytes → Bytes
  unfolding merkleize_sized chunkify
  hash_proto [] = zero_chunk
  hash_proto (b ∷ bs) =
      let encoding = b ∷ bs in
      if leb (length encoding) chunk_size
      then first_chunk (chunkify encoding)
      else merkleize_sized (chunkify encoding) (length (chunkify encoding))
