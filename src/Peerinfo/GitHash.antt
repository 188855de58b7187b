-- ===== src/Peerinfo/GitHash.antt =====
-- peerinfo/helpers.py: which git hashes are accepted.
use distributed_validator_sp.Base.{
  ℕ, zero, suc, ◌≡◌, ◌↔◌, ◌⊎◌, inl, inr, refl, ap, true, &&_parts, [], ◌∷◌, ◌++◌, nat_eq, ==-eq,
  length, map, All, arith,
}
use distributed_validator_sp.Types.{Bytes}
use distributed_validator_sp.Peerinfo.{lower, is_hex_char, match_hash, validate_git_hash}

-- Hex digits of either case, as many as `n`.
abbrev pub HexChars : ℕ → Bytes → Type 0
HexChars n text = (length text ≡ n) × All (λ char. is_hex_char (lower char) ≡ true) text

lower_newline : (char : ℕ) → lower char ≡ 10 → char ≡ 10
unfolding lower
lower_newline char h = ground (arith, h)

match_hash_sound :
    (n : ℕ) (text : Bytes)
    → match_hash n (map lower text) ≡ true
    → HexChars n text ⊎ ((front : Bytes) × (text ≡ front ++ 10 ∷ []) × HexChars n front)
unfolding match_hash
match_hash_sound zero [] h = inl (refl, tt)
match_hash_sound zero (char ∷ []) h =
    inr ([], ap (λ c. c ∷ []) (lower_newline char (==-eq (lower char) 10 h)), (refl, tt))
match_hash_sound zero (char ∷ next ∷ text) h = cc
match_hash_sound (suc n) [] h = cc
match_hash_sound (suc n) (char ∷ text) h =
    let (p, q) = &&_parts (is_hex_char (lower char)) (match_hash n (map lower text)) h in
    elim (match_hash_sound n text q) [
      | inl (l, a) ↦ inl (ap suc l, (p, a))
      | inr (front, e, (l, a)) ↦ inr (char ∷ front, ap (λ t. char ∷ t) e, (ap suc l, (p, a)))
    ]

match_hash_exact : (n : ℕ) (text : Bytes) → HexChars n text → match_hash n (map lower text) ≡ true
unfolding match_hash
match_hash_exact n [] (l, a) = rw (← l) refl
match_hash_exact n (char ∷ text) (l, a) =
    rw (← l) (rw a.0 (match_hash_exact (length text) text (refl, a.1)))

match_hash_newline :
    (n : ℕ) (text : Bytes) → HexChars n text → match_hash n (map lower (text ++ 10 ∷ [])) ≡ true
unfolding match_hash lower
match_hash_newline n [] (l, a) = rw (← l) refl
match_hash_newline n (char ∷ text) (l, a) =
    rw (← l) (rw a.0 (match_hash_newline (length text) text (refl, a.1)))

-- validate_git_hash accepts exactly seven hex digits of either case, and seven hex digits followed by
-- a newline.
pub git_hash_iff :
    (git_hash : Bytes)
    → (validate_git_hash git_hash ≡ true)
      ↔ (HexChars 7 git_hash ⊎ ((front : Bytes) × (git_hash ≡ front ++ 10 ∷ []) × HexChars 7 front))
unfolding validate_git_hash
git_hash_iff git_hash = (
  match_hash_sound 7 git_hash,
  λ e. elim e [
    | inl h ↦ match_hash_exact 7 git_hash h
    | inr (front, p, h) ↦ rw p (match_hash_newline 7 front h)
  ],
)
