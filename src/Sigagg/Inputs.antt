-- ===== src/Sigagg/Inputs.antt =====
-- aggregation.py: the inputs of the aggregation, and that a triggered group always aggregates.
use distributed_validator_sp.Base.{
  ℕ, suc, ◌≤◌, ◌≡◌, ◌≢◌, refl, sym, ap, ◌∙◌, subst, Bool, false, some, List, [], ◌∷◌, ◌++◌, ◌==◌,
  nat_eq, ==-ne, ltb, length, filter, All, All-append, Distinct, Dict, put, keys, keys-put-Distinct,
  put-All, Memᴰ, Bool-cases, inl, inr, arith, ok, le→ltb, ltb→le,
}
use mathlib.Core.List.{append_assoc, append-nil}
use distributed_validator_sp.Types.{Bytes, DutyType, duty_type_eq}
use distributed_validator_sp.Sigagg.{
  PartialSignature, by_share_idx, select_aggregation_inputs, select_threshold_matching,
}
use distributed_validator_sp.Sigagg.Store.{share_indices}
use distributed_validator_sp.Sigagg.Trigger.{has_root, select-OneRoot}

-- Each signature under its share index, in order.
abbrev pub entries : List PartialSignature → Dict ℕ Bytes
entries [] = []
entries (s ∷ sigs) = (s.share_idx, s.signature) ∷ entries sigs

put-new :
    (k : ℕ) (v : Bytes) (d : Dict ℕ Bytes)
    → All (λ j. j ≢ k) (keys d)
    → put k v d ≡ d ++ (k, v) ∷ []
unfolding put
put-new k v [] h = refl
put-new k v ((j, w) ∷ d) h = rw (==-ne j k h.0) (ap (λ l. (j, w) ∷ l) (put-new k v d h.1))

keys-append : (d : Dict ℕ Bytes) (k : ℕ) (v : Bytes) → keys (d ++ (k, v) ∷ []) ≡ keys d ++ k ∷ []
keys-append [] k v = refl
keys-append ((j, w) ∷ d) k v = ap (λ l. j ∷ l) (keys-append d k v)

-- No index of the list is a key.
abbrev Fresh : Dict ℕ Bytes → List ℕ → Type 0
Fresh d is = All (λ i. All (λ j. j ≢ i) (keys d)) is

Fresh-append :
    (d : Dict ℕ Bytes) (k : ℕ) (v : Bytes) (is : List ℕ)
    → Fresh d is
    → All (λ i. k ≢ i) is
    → Fresh (d ++ (k, v) ∷ []) is
Fresh-append d k v [] f n = tt
Fresh-append d k v (i ∷ is) f n = (
  rw (keys-append d k v) (All-append (λ j. j ≢ i) (keys d) (k ∷ []) f.0 (n.0, tt)),
  Fresh-append d k v is f.1 n.1,
)

by_share_idx-entries :
    (sigs : List PartialSignature) (d : Dict ℕ Bytes)
    → Distinct (share_indices sigs)
    → Fresh d (share_indices sigs)
    → by_share_idx sigs d ≡ d ++ entries sigs
unfolding by_share_idx
by_share_idx-entries [] d h f = sym (append-nil d)
by_share_idx-entries (s ∷ sigs) d h f = rw (put-new s.share_idx s.signature d f.0) (
    by_share_idx-entries sigs (d ++ (s.share_idx, s.signature) ∷ []) h.1
      (Fresh-append d s.share_idx s.signature (share_indices sigs) f.1 h.0)
    ∙ append_assoc d ((s.share_idx, s.signature) ∷ []) (entries sigs))

Fresh-nil : (is : List ℕ) → Fresh [] is
Fresh-nil [] = tt
Fresh-nil (i ∷ is) = (tt, Fresh-nil is)

length-entries : (sigs : List PartialSignature) → length (entries sigs) ≡ length sigs
length-entries [] = refl
length-entries (s ∷ sigs) = ap suc (length-entries sigs)

-- A threshold of signatures with distinct share indices are taken as they are.
inputs-ok :
    (sigs : List PartialSignature) (threshold : ℕ)
    → Distinct (share_indices sigs)
    → threshold ≤ length sigs
    → select_aggregation_inputs sigs threshold ≡ ok (entries sigs)
unfolding select_aggregation_inputs
inputs-ok sigs threshold d h =
    let same : by_share_idx sigs [] ≡ entries sigs =
      by_share_idx-entries sigs [] d (Fresh-nil (share_indices sigs)) in
    rw (
      le→ltb (length sigs) threshold h,
      same,
      le→ltb (length (entries sigs)) threshold (rw (length-entries sigs) h),
    )

indices-filter-All :
    (p : PartialSignature → Bool) (i : ℕ) (sigs : List PartialSignature)
    → All (λ j. i ≢ j) (share_indices sigs)
    → All (λ j. i ≢ j) (share_indices (filter p sigs))
indices-filter-All p i [] h = tt
indices-filter-All p i (s ∷ sigs) h = elim (Bool-cases (p s)) [
  | inl t ↦ rw t (h.0, indices-filter-All p i sigs h.1)
  | inr f ↦ rw f (indices-filter-All p i sigs h.1)
]

Distinct-filter :
    (p : PartialSignature → Bool) (sigs : List PartialSignature)
    → Distinct (share_indices sigs)
    → Distinct (share_indices (filter p sigs))
Distinct-filter p [] h = tt
Distinct-filter p (s ∷ sigs) h = elim (Bool-cases (p s)) [
  | inl t ↦ rw t (indices-filter-All p s.share_idx sigs h.0, Distinct-filter p sigs h.1)
  | inr f ↦ rw f (Distinct-filter p sigs h.1)
]

-- Outside of the key generation's exchange, a group that the trigger selects among signatures with
-- distinct share indices passes both checks of select_aggregation_inputs, which returns the group's
-- signatures by their share indices, a threshold of them.
pub triggered-aggregates :
    (type : DutyType) (sigs group : List PartialSignature) (threshold : ℕ)
    → (type == DutyType.signature) ≡ false
    → Distinct (share_indices sigs)
    → select_threshold_matching type sigs threshold ≡ some group
    → (select_aggregation_inputs group threshold ≡ ok (entries group))
      × (length (entries group) ≡ threshold)
triggered-aggregates type sigs group threshold n d h =
    let (root, same, len) = select-OneRoot type sigs group threshold n h in
    let one : Distinct (share_indices group) = rw same (Distinct-filter (has_root root) sigs d) in
    (inputs-ok group threshold one (omega (arith, len)), length-entries group ∙ len)

-- Each entry is a signature of the list, under its own share index.
abbrev pub Signed : List PartialSignature → ℕ × Bytes → Type 0
Signed sigs (i, v) = (s : PartialSignature) × Memᴰ s sigs × (s.share_idx ≡ i) × (s.signature ≡ v)

by_share_idx-Signed :
    (all sigs : List PartialSignature) (d : Dict ℕ Bytes)
    → All (λ s. Memᴰ s all) sigs
    → All (Signed all) d
    → All (Signed all) (by_share_idx sigs d)
unfolding by_share_idx
by_share_idx-Signed all [] d m h = h
by_share_idx-Signed all (s ∷ sigs) d m h =
    by_share_idx-Signed all sigs (put s.share_idx s.signature d) m.1
      (put-All (Signed all) s.share_idx s.signature d (s, m.0, refl, refl) h)

by_share_idx-Distinct :
    (sigs : List PartialSignature) (d : Dict ℕ Bytes)
    → Distinct (keys d)
    → Distinct (keys (by_share_idx sigs d))
unfolding by_share_idx
by_share_idx-Distinct [] d h = h
by_share_idx-Distinct (s ∷ sigs) d h =
    by_share_idx-Distinct sigs (put s.share_idx s.signature d)
      (keys-put-Distinct s.share_idx s.signature d h)

All-Memᴰ :
    (all sigs : List PartialSignature)
    → ((s : PartialSignature) → Memᴰ s sigs → Memᴰ s all)
    → All (λ s. Memᴰ s all) sigs
All-Memᴰ all [] f = tt
All-Memᴰ all (s ∷ sigs) f = (f s (Memᴰ.head refl), All-Memᴰ all sigs (λ x m. f x (Memᴰ.tail m)))

accepted :
    (sigs : List PartialSignature) (threshold : ℕ) (d : Dict ℕ Bytes)
    → select_aggregation_inputs sigs threshold ≡ ok d
    → (by_share_idx sigs [] ≡ d) × (threshold ≤ length d)
unfolding select_aggregation_inputs
accepted sigs threshold d h = elim (Bool-cases (ltb (length sigs) threshold)) [
  | inl t ↦ absurd (ground arith)
  | inr f ↦ elim (Bool-cases (ltb (length (by_share_idx sigs [])) threshold)) [
    | inl t ↦ absurd (ground arith)
    | inr g ↦
        (let same : by_share_idx sigs [] ≡ d = ground arith in
          (
            same,
            subst (λ e. threshold ≤ length e) same
                (ltb→le (length (by_share_idx sigs [])) threshold g),
          ))
  ]
]

-- What select_aggregation_inputs returns are signatures of the list, each under the share index it
-- claims, from at least a threshold of distinct indices, whatever is repeated in the list.
pub inputs-Authorised :
    (sigs : List PartialSignature) (threshold : ℕ) (d : Dict ℕ Bytes)
    → select_aggregation_inputs sigs threshold ≡ ok d
    → (threshold ≤ length d) × Distinct (keys d) × All (Signed sigs) d
inputs-Authorised sigs threshold d h =
    let same : (by_share_idx sigs [] ≡ d) × (threshold ≤ length d) = accepted sigs threshold d h in
    (
      same.1,
      subst (λ e. Distinct (keys e)) same.0 (by_share_idx-Distinct sigs [] tt),
      subst (λ e. All (Signed sigs) e) same.0
          (by_share_idx-Signed sigs sigs [] (All-Memᴰ sigs sigs (λ s m. m)) tt),
    )
