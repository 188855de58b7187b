-- ===== src/Encoding/Fields.antt =====
-- src/dv_spec/encoding/ssz.py: what the put functions do to the buffer of a walk.
use distributed_validator_sp.Base.{
  ℕ, ◌-◌, ◌%◌, ◌≡◌, ◌≢◌, refl, sym, ◌∙◌, subst, arith, inl, inr, [], ◌++◌, ◌==◌, nat_eq, Bool-cases,
  length, replicate, Result, ok, err, ◌>>=◌, length-append, length-replicate,
}
use mathlib.Core.List.{append_assoc, append-nil}
use distributed_validator_sp.Types.{Bytes}
use distributed_validator_sp.Crypto.{Error, not_aligned, incomplete_walk}
use distributed_validator_sp.Encoding.Ssz.{pad_to_chunk}
use distributed_validator_sp.Encoding.Walker.{HashWalker, append_bytes32, fill_up_to_32}

-- Whole chunks.
abbrev pub IsAligned : Bytes → Type 0
IsAligned b = length b % 32 ≡ 0

-- Not an error of a walk that is out of balance.
abbrev pub IsRefusal : Error → Type 0
IsRefusal e = (e ≢ not_aligned) × (e ≢ incomplete_walk)

-- `r` is a refusal, or leaves `walker` with bytes that satisfy `P` behind it.
abbrev pub Leaves : (Bytes → Type 0) → HashWalker → Result Error HashWalker → Type 0
Leaves P walker (err e) = IsRefusal e
Leaves P walker (ok left) = (t : Bytes) × (left ≡ walker ++ t) × P t

-- A function that appends whole chunks to a buffer of whole chunks, or exactly one chunk.
pub record IsField (f : HashWalker → Result Error HashWalker) : Type 0 where
  pub leaves : (w : HashWalker) → IsAligned w → Leaves IsAligned w (f w)

abbrev pub IsChunk : Bytes → Type 0
IsChunk b = length b ≡ 32

pub record IsClosed (f : HashWalker → Result Error HashWalker) : Type 0 where
  pub leaves : (w : HashWalker) → IsAligned w → Leaves IsChunk w (f w)

pub Aligned-append : (a b : Bytes) → IsAligned a → IsAligned b → IsAligned (a ++ b)
Aligned-append a b p q = rw length-append (omega arith)

pub Leaves-mono :
    (P Q : Bytes → Type 0) (w : HashWalker) (r : Result Error HashWalker)
    → ((t : Bytes) → P t → Q t)
    → Leaves P w r
    → Leaves Q w r
Leaves-mono P Q w (err e) f h = h
Leaves-mono P Q w (ok v) f h = (h.0, h.1, f h.0 h.2)

-- Bytes behind bytes.
Leaves-behind :
    (w t : Bytes) (r : Result Error HashWalker)
    → IsAligned t
    → Leaves IsAligned (w ++ t) r
    → Leaves IsAligned w r
Leaves-behind w t (err e) a h = h
Leaves-behind w t (ok v) a h = (t ++ h.0, h.1 ∙ append_assoc w t h.0, Aligned-append t h.0 a h.2)

pub Leaves-bind :
    (P Q : Bytes → Type 0) (w : HashWalker) (r : Result Error HashWalker)
    (k : HashWalker → Result Error HashWalker)
    → Leaves P w r
    → ((t : Bytes) → P t → Leaves Q w (k (w ++ t)))
    → Leaves Q w (r >>= k)
Leaves-bind P Q w (err e) k h f = h
Leaves-bind P Q w (ok v) k h f = subst (λ u. Leaves Q w (k u)) (sym h.1) (f h.0 h.2)

module _ {f g : HashWalker → Result Error HashWalker} where
  -- One field after another.
  infixr 5 ◌then_field◌
  pub ◌then_field◌ : IsField f → IsField g → IsField (λ w. f w >>= g)
  a then_field b = record {
    leaves = λ w h.
        Leaves-bind IsAligned IsAligned w (f w) g (a.leaves w h)
          (λ t p. Leaves-behind w t (g (w ++ t)) p (b.leaves (w ++ t) (Aligned-append w t h p)));
  }

module _ {f : HashWalker → Result Error HashWalker} where
  pub Closed-Field : IsClosed f → IsField f
  Closed-Field a = record {
    leaves = λ w h. Leaves-mono IsChunk IsAligned w (f w) (λ t p. rw p) (a.leaves w h);
  }

pub ok-IsField : IsField ok
ok-IsField = record { leaves = λ w h. ([], sym (append-nil w), refl) }

pub refused-IsField : (e : Error) → IsRefusal e → IsField (λ w. err e)
refused-IsField e h = record { leaves = λ w a. h }

-- The zeros that complete a chunk.
pad_to_chunk-parts : (b : Bytes) → (z : Bytes) × (pad_to_chunk b ≡ b ++ z) × IsAligned (b ++ z)
unfolding pad_to_chunk
pad_to_chunk-parts b = elim (Bool-cases (length b % 32 == 0)) [
  | inl t ↦ ([], rw t (sym (append-nil b)), rw append-nil (ground arith))
  | inr f ↦ (
    replicate (32 - length b % 32) 0,
    rw f,
    rw (length-append, length-replicate {A = ℕ} (32 - length b % 32) 0) (ground arith),
  )
]

pub pad_to_chunk-Aligned : (b : Bytes) → IsAligned (pad_to_chunk b)
pad_to_chunk-Aligned b = let p = pad_to_chunk-parts b in subst IsAligned (sym p.1) p.2

pub append_bytes32-pad : (w b : Bytes) → append_bytes32 w b ≡ w ++ pad_to_chunk b
unfolding append_bytes32 pad_to_chunk
append_bytes32-pad w b = elim (Bool-cases (length b % 32 == 0)) [
  | inl t ↦ rw t
  | inr f ↦ rw f (append_assoc w b (replicate (32 - length b % 32) 0))
]

pub append_bytes32-Leaves : (w b : Bytes) → Leaves IsAligned w (ok (append_bytes32 w b))
append_bytes32-Leaves w b = (pad_to_chunk b, append_bytes32-pad w b, pad_to_chunk-Aligned b)

-- What is padded behind whole chunks is padded on its own.
pub fill_up_to_32-behind :
    (w b : Bytes) → IsAligned w → fill_up_to_32 (w ++ b) ≡ w ++ pad_to_chunk b
unfolding fill_up_to_32 pad_to_chunk
fill_up_to_32-behind w b h =
    let same : length (w ++ b) % 32 ≡ length b % 32 = rw length-append (omega arith) in
    elim (Bool-cases (length b % 32 == 0)) [
      | inl t ↦ rw (same, t)
      | inr f ↦ rw (same, f) (append_assoc w b (replicate (32 - length b % 32) 0))
    ]
