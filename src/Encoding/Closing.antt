-- ===== src/Encoding/Closing.antt =====
-- src/dv_spec/encoding/ssz.py: a root is one chunk, and closing a container or a list leaves one.
use distributed_validator_sp.Base.{
  ℕ, zero, suc, ◌+◌, ◌*◌, ◌/◌, ◌^◌, ◌≡◌, refl, arith, ◌⊎◌, inl, inr, List, [], ◌∷◌, ◌++◌, ◌==◌,
  nat_eq, ltb, Bool-cases, length, drop, Result, ok, err, ◌>>=◌, length-take, length-drop,
  take-append, drop-append, All,
}
use distributed_validator_sp.Types.{Bytes}
use distributed_validator_sp.Crypto.{Crypto, Error, too_many_chunks}
use distributed_validator_sp.Encoding.Ssz.{
  chunk_count_depth, pad_to_chunk, slices, first_chunk, zero_hash, hash_pairs, next_layer, layers,
  merkleize_sized, merkleize,
}
use distributed_validator_sp.Encoding.Walker.{
  HashWalker, chunks_from, merkleize_from, merkleize_with_mixin, length_mixin,
}
use distributed_validator_sp.Encoding.Fields.{
  IsAligned, IsChunk, Leaves, pad_to_chunk-Aligned, fill_up_to_32-behind,
}

slices-All : (n : ℕ) (b : Bytes) → length b ≡ 32 * n → All IsChunk (slices n b)
unfolding slices
slices-All zero b h = tt
slices-All (suc n) b h =
    (length-take 32 b (omega arith), slices-All n (drop 32 b) (rw length-drop (omega arith)))

-- Of a region of whole chunks, all of them are returned.
pub chunks_from-aligned :
    (w t : Bytes)
    → IsAligned t
    → (chunks : List Bytes) × (chunks_from (w ++ t) (length w) ≡ ok chunks) × All IsChunk chunks
unfolding chunks_from
chunks_from-aligned w t h = (
  slices ((length t + 31) / 32) t,
  rw (drop-append w t, h),
  slices-All ((length t + 31) / 32) t (omega arith),
)

-- A hash of 32 bytes.
module _ (c : Crypto) (hashes : (b : Bytes) → IsChunk (c.sha256 b)) where
  zero_hash-IsChunk : (level : ℕ) → IsChunk (zero_hash c level)
  unfolding zero_hash
  zero_hash-IsChunk zero = refl
  zero_hash-IsChunk (suc level) = hashes (zero_hash c level ++ zero_hash c level)

  hash_pairs-All : (l : List Bytes) → All IsChunk (hash_pairs c l)
  unfolding hash_pairs
  hash_pairs-All [] = tt
  hash_pairs-All (a ∷ []) = tt
  hash_pairs-All (a ∷ b ∷ rest) = (hashes (a ++ b), hash_pairs-All rest)

  layers-All : (n level : ℕ) (l : List Bytes) → All IsChunk l → All IsChunk (layers c n level l)
  unfolding layers next_layer
  layers-All zero level l h = h
  layers-All (suc n) level l h = layers-All n (suc level) (next_layer c level l) (hash_pairs-All _)

  first_chunk-IsChunk : (l : List Bytes) → All IsChunk l → IsChunk (first_chunk l)
  first_chunk-IsChunk [] h = refl
  first_chunk-IsChunk (a ∷ l) h = h.0

  merkleize_sized-IsChunk :
      (l : List Bytes) (limit : ℕ) → All IsChunk l → IsChunk (merkleize_sized c l limit)
  unfolding merkleize_sized
  merkleize_sized-IsChunk l limit h = ground (
    arith,
    first_chunk-IsChunk l h,
    first_chunk-IsChunk (layers c (chunk_count_depth limit) 0 l)
        (layers-All (chunk_count_depth limit) 0 l h),
    zero_hash-IsChunk (chunk_count_depth limit),
  )

  merkleize-cases :
      (chunks : List Bytes) (limit : ℕ)
      → All IsChunk chunks
      → (merkleize c chunks limit ≡ err too_many_chunks)
        ⊎ ((root : Bytes) × (merkleize c chunks limit ≡ ok root) × IsChunk root)
  unfolding merkleize
  merkleize-cases chunks limit h = elim (Bool-cases (limit == 0)) [
    | inl t ↦ inr (
      merkleize_sized c chunks (length chunks),
      rw t,
      merkleize_sized-IsChunk chunks (length chunks) h,
    )
    | inr f ↦ elim (Bool-cases (ltb limit (length chunks))) [
      | inl t ↦ inl (rw (f, t))
      | inr g ↦
          inr (merkleize_sized c chunks limit, rw (f, g), merkleize_sized-IsChunk chunks limit h)
    ]
  ]

  merkleize-Leaves :
      (w : HashWalker) (chunks : List Bytes) (limit : ℕ) (k : Bytes → Result Error HashWalker)
      → All IsChunk chunks
      → ((root : Bytes) → IsChunk root → Leaves IsChunk w (k root))
      → Leaves IsChunk w (merkleize c chunks limit >>= k)
  merkleize-Leaves w chunks limit k h f = elim (merkleize-cases chunks limit h) [
    | inl t ↦ rw t (λ p. cc, λ p. cc)
    | inr (root, e, p) ↦ rw e (f root p)
  ]

  -- A container that holds whole chunks is closed into one.
  pub merkleize_from-Leaves :
      (w t : Bytes) → IsAligned t → Leaves IsChunk w (merkleize_from c (w ++ t) (length w))
  unfolding merkleize_from
  merkleize_from-Leaves w t h =
      let (chunks, e, all) = chunks_from-aligned w t h in
      rw (e, take-append w t)
        (merkleize-Leaves w chunks 0 (λ root. ok (w ++ root)) all (λ root p. (root, refl, p)))

  length_mixin-Leaves :
      (w : HashWalker) (num : ℕ) (k : Bytes → Bytes)
      → ((mixin : Bytes) → IsChunk (k mixin))
      → Leaves IsChunk w (length_mixin num >>= λ mixin. ok (w ++ k mixin))
  unfolding length_mixin
  length_mixin-Leaves w num k h = elim (Bool-cases (ltb num (2 ^ 64))) [
    | inl t ↦ rw t (_, refl, h _)
    | inr f ↦ rw f (λ p. cc, λ p. cc)
  ]

  -- A list over whole chunks is padded and closed into one chunk.
  pub merkleize_with_mixin-Leaves :
      (w t : Bytes) (num limit : ℕ)
      → IsAligned w
      → Leaves IsChunk w (merkleize_with_mixin c (w ++ t) (length w) num limit)
  unfolding merkleize_with_mixin
  merkleize_with_mixin-Leaves w t num limit h =
      let (chunks, e, all) = chunks_from-aligned w (pad_to_chunk t) (pad_to_chunk-Aligned t) in
      rw (fill_up_to_32-behind w t h, e, take-append w (pad_to_chunk t))
        (merkleize-Leaves w chunks limit
          (λ root. length_mixin num >>= λ mixin. ok (w ++ c.sha256 (root ++ mixin))) all
          (λ root p.
            length_mixin-Leaves w num (λ mixin. c.sha256 (root ++ mixin))
              (λ mixin. hashes (root ++ mixin))))
