-- ===== src/Encoding/Puts.antt =====
-- src/dv_spec/encoding/ssz.py: every put function appends whole chunks, a container or list that is
-- built of them is one chunk, and the root of such a walk is there.
use distributed_validator_sp.Base.{
  ℕ, ◌+◌, ◌-◌, ◌/◌, ◌^◌, ◌≡◌, refl, subst, inl, inr, Bool, List, [], ◌∷◌, ◌++◌, nat_eq,
  if◌then◌else◌, leb, ltb, Bool-cases, length, replicate, Result, ok, err, ◌>>=◌,
}
use mathlib.Core.List.{append_assoc, append-nil}
use distributed_validator_sp.Types.{Bytes}
use distributed_validator_sp.Crypto.{Crypto, Error}
use distributed_validator_sp.Encoding.Ssz.{pad_to_chunk}
use distributed_validator_sp.Encoding.Walker.{
  HashWalker, calculate_limit, uint64_bytes, index, append_bytes32, hash_root, put_bool, put_uint64,
  append_uint64s, merkleize_from, merkleize_with_mixin, put_bytes, put_uint64_array, put_byte_list,
  put_bytes_n,
}
use distributed_validator_sp.Encoding.Fields.{
  IsAligned, IsRefusal, IsChunk, Leaves, Leaves-bind, Leaves-mono, IsField, IsClosed,
  pad_to_chunk-Aligned, append_bytes32-pad, append_bytes32-Leaves, fill_up_to_32-behind,
}
use distributed_validator_sp.Encoding.Closing.{merkleize_from-Leaves, merkleize_with_mixin-Leaves}

pub append_bytes32-IsField : (b : Bytes) → IsField (λ w. ok (append_bytes32 w b))
append_bytes32-IsField b = record { leaves = λ w h. append_bytes32-Leaves w b }

pub put_bool-IsField : (b : Bool) → IsField (λ w. ok (put_bool w b))
unfolding put_bool
put_bool-IsField b = append_bytes32-IsField (if b then 1 ∷ [] else 0 ∷ [])

uint64_bytes-Leaves :
    (P : Bytes → Type 0) (w : HashWalker) (n : ℕ) (k : Bytes → Result Error HashWalker)
    → ((b : Bytes) → Leaves P w (k b))
    → Leaves P w (uint64_bytes n >>= k)
unfolding uint64_bytes
uint64_bytes-Leaves P w n k h = elim (Bool-cases (ltb n (2 ^ 64))) [
  | inl t ↦ rw t (h _)
  | inr f ↦ rw f (λ p. cc, λ p. cc)
]

pub put_uint64-IsField : (n : ℕ) → IsField (λ w. put_uint64 w n)
unfolding put_uint64
put_uint64-IsField n = record {
  leaves = λ w h. uint64_bytes-Leaves IsAligned w n _ (λ b. append_bytes32-Leaves w b);
}

-- The numbers of an array are not padded one by one.
append_uint64s-Leaves :
    (w t : Bytes) (ns : List ℕ) → Leaves (λ b. Unit) w (append_uint64s (w ++ t) ns)
unfolding append_uint64s
append_uint64s-Leaves w t [] = (t, refl, tt)
append_uint64s-Leaves w t (n ∷ ns) =
    uint64_bytes-Leaves (λ b. Unit) w n _
      (λ b. rw (append_assoc w t b) (append_uint64s-Leaves w (t ++ b) ns))

module _ (c : Crypto) (hashes : (b : Bytes) → IsChunk (c.sha256 b)) where
  pub put_bytes-IsField : (b : Bytes) → IsField (λ w. put_bytes c w b)
  unfolding put_bytes index
  put_bytes-IsField b = record {
    leaves = λ w h. elim (Bool-cases (leb (length b) 32)) [
      | inl t ↦ rw t (append_bytes32-Leaves w b)
      | inr f ↦
          rw (f, append_bytes32-pad w b)
            (Leaves-mono IsChunk IsAligned w _ (λ t p. rw p)
              (merkleize_from-Leaves c hashes w (pad_to_chunk b) (pad_to_chunk-Aligned b)))
    ];
  }

  pub put_bytes_n-IsField : (b : Bytes) (size : ℕ) → IsField (λ w. put_bytes_n c w b size)
  unfolding put_bytes_n
  put_bytes_n-IsField b size = record {
    leaves = λ w h. elim (Bool-cases (ltb size (length b))) [
      | inl t ↦ rw t (λ p. cc, λ p. cc)
      | inr f ↦ rw f ((put_bytes-IsField (replicate (size - length b) 0 ++ b)).leaves w h)
    ];
  }

  pub put_byte_list-IsField : (b : Bytes) (max : ℕ) → IsField (λ w. put_byte_list c w b max)
  unfolding put_byte_list index
  put_byte_list-IsField b max = record {
    leaves = λ w h. elim (Bool-cases (ltb max (length b))) [
      | inl t ↦ rw t (λ p. cc, λ p. cc)
      | inr f ↦
          rw (f, append_bytes32-pad w b)
            (Leaves-mono IsChunk IsAligned w _ (λ t p. rw p)
              (merkleize_with_mixin-Leaves c hashes w (pad_to_chunk b) (length b)
                ((max + 32 - 1) / 32) h))
    ];
  }

  pub put_uint64_array-IsField :
      (ns : List ℕ) (max : ℕ) → IsField (λ w. put_uint64_array c w ns max)
  unfolding put_uint64_array index
  put_uint64_array-IsField ns max = record {
    leaves = λ w h.
        Leaves-bind (λ b. Unit) IsAligned w (append_uint64s w ns) _
          (subst (λ v. Leaves (λ b. Unit) w (append_uint64s v ns)) (append-nil w)
            (append_uint64s-Leaves w [] ns))
          (λ t _.
            (rw (fill_up_to_32-behind w t h) (
              Leaves-mono IsChunk IsAligned w _ (λ t p. rw p)
                (merkleize_with_mixin-Leaves c hashes w (pad_to_chunk t) (length ns)
                  (calculate_limit max (length ns) 8) h))));
  }

  module _ {f : HashWalker → Result Error HashWalker} where
    -- A container of fields, and a list of them.
    pub container-IsClosed : IsField f → IsClosed (λ w. f w >>= λ v. merkleize_from c v (index w))
    unfolding index
    container-IsClosed a = record {
      leaves = λ w h.
          Leaves-bind IsAligned IsChunk w (f w) _ (a.leaves w h)
            (λ t p. merkleize_from-Leaves c hashes w t p);
    }

    pub list-IsClosed :
        (num limit : ℕ)
        → IsField f
        → IsClosed (λ w. f w >>= λ v. merkleize_with_mixin c v (index w) num limit)
    unfolding index
    list-IsClosed num limit a = record {
      leaves = λ w h.
          Leaves-bind IsAligned IsChunk w (f w) _ (a.leaves w h)
            (λ t p. merkleize_with_mixin-Leaves c hashes w t num limit h);
    }

-- `r` is a hash root, or one of the errors that a walk in balance can raise.
abbrev pub IsRoot : Result Error Bytes → Type 0
IsRoot (err e) = IsRefusal e
IsRoot (ok root) = IsChunk root

hash_root-IsRoot : (r : Result Error HashWalker) → Leaves IsChunk [] r → IsRoot (r >>= hash_root)
unfolding hash_root
hash_root-IsRoot (err e) h = h
hash_root-IsRoot (ok v) h = let p : length v ≡ 32 = rw h.1 h.2 in rw p p

-- A walk that starts on an empty buffer and is closed has a root.
pub walk-IsRoot :
    {f : HashWalker → Result Error HashWalker} → IsClosed f → IsRoot (f [] >>= hash_root)
walk-IsRoot {f} a = hash_root-IsRoot (f []) (a.leaves [] refl)
