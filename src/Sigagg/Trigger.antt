-- ===== src/Sigagg/Trigger.antt =====
-- threshold.py: `select_threshold_matching` against the plain filter of the signatures by their root.
use distributed_validator_sp.Base.{
  ℕ, ◌+◌, ◌*◌, ◌≤◌, ◌<◌, ◌≡◌, ◌≢◌, refl, sym, ap, ◌∙◌, subst, Bool, true, false, none, some, List,
  [], ◌∷◌, ◌++◌, ◌==◌, nat_eq, list_eq, ==-eq, ==-refl, if◌then◌else◌, ltb, length, filter, count,
  All, All-mono, Distinct, Dict, get, put, keys, values, entries-get, get-put_append, or_nil,
  keys-put-Distinct, Bool-cases, Option-cases, inl, inr, arith, count_disjoint, length-append,
  length-filter, ltb→le, le→ltb, filter-append,
}
use mathlib.Core.List.{append-nil, append_assoc}
use distributed_validator_sp.Types.{Bytes, DutyType, duty_type_eq}
use distributed_validator_sp.Sigagg.{
  PartialSignature, by_root, first_of_length, select_threshold_matching,
}

abbrev pub has_root : Bytes → PartialSignature → Bool
has_root root sig = sig.message_root == root

-- The group of a root, after the loop.
get-by_root :
    (root : Bytes) (sigs : List PartialSignature) (groups : Dict Bytes (List PartialSignature))
    → or_nil (get root (by_root sigs groups))
      ≡ or_nil (get root groups) ++ filter (has_root root) sigs
unfolding by_root
get-by_root root [] groups = sym (append-nil (or_nil (get root groups)))
get-by_root root (s ∷ sigs) groups =
    get-by_root root sigs (put s.message_root (or_nil (get s.message_root groups) ++ s ∷ []) groups)
    ∙ ap (λ l. l ++ filter (has_root root) sigs) (get-put_append root s.message_root s groups)
    ∙ append_assoc (or_nil (get root groups)) (filter (has_root root) (s ∷ []))
        (filter (has_root root) sigs)
    ∙ ap (λ l. or_nil (get root groups) ++ l) (sym (filter-append (has_root root) (s ∷ []) sigs))

keys-by_root :
    (sigs : List PartialSignature) (groups : Dict Bytes (List PartialSignature))
    → Distinct (keys groups)
    → Distinct (keys (by_root sigs groups))
unfolding by_root
keys-by_root [] groups h = h
keys-by_root (s ∷ sigs) groups h =
    keys-by_root sigs (put s.message_root (or_nil (get s.message_root groups) ++ s ∷ []) groups)
      (keys-put-Distinct s.message_root (or_nil (get s.message_root groups) ++ s ∷ []) groups h)

-- The first group with as many members: its root, and that there is one.
first-entry :
    (P : Bytes → List PartialSignature → Type 0) (n : ℕ) (d : Dict Bytes (List PartialSignature))
    (group : List PartialSignature)
    → All (λ (kv : Bytes × List PartialSignature). P kv.0 kv.1) d
    → first_of_length n (values d) ≡ some group
    → (root : Bytes) × (P root group) × (length group ≡ n)
unfolding first_of_length
first-entry P n [] group a h = absurd (cc)
first-entry P n ((k, v) ∷ d) group a h = elim (Bool-cases (length v == n)) [
  | inl t ↦
      (let same : v ≡ group = ground arith in
        (k, subst (λ l. P k l) same a.0, subst (λ l. length l ≡ n) same (==-eq (length v) n t)))
  | inr f ↦ first-entry P n d group a.1 (rw f at h)
]

first-some :
    (n : ℕ) (root : Bytes) (d : Dict Bytes (List PartialSignature)) (group : List PartialSignature)
    → get root d ≡ some group
    → length group ≡ n
    → first_of_length n (values d) ≢ none
unfolding first_of_length get
first-some n root [] group g l h = cc
first-some n root ((k, v) ∷ d) group g l h = elim (Bool-cases (k == root)) [
  | inl t ↦
      (let same : v ≡ group = ground arith in
        let e : (length v == n) ≡ true = rw same (rw l (==-refl n)) in ground arith)
  | inr f ↦ ground (arith, first-some n root d group)
]

entries-by_root :
    (sigs : List PartialSignature)
    → All
        (λ (kv : Bytes × List PartialSignature). kv.1 ≡ filter (has_root kv.0) sigs)
        (by_root sigs [])
unfolding get
entries-by_root sigs =
    All-mono (λ (kv : Bytes × List PartialSignature). get kv.0 (by_root sigs []) ≡ some kv.1)
      (λ (kv : Bytes × List PartialSignature). kv.1 ≡ filter (has_root kv.0) sigs) (by_root sigs [])
      (λ kv h. ap or_nil (sym h) ∙ get-by_root kv.0 sigs [])
      (entries-get (by_root sigs []) (keys-by_root sigs [] tt))

select-groups :
    (type : DutyType) (sigs : List PartialSignature) (threshold : ℕ)
    → (type == DutyType.signature) ≡ false
    → threshold ≤ length sigs
    → select_threshold_matching type sigs threshold
      ≡ first_of_length threshold (values (by_root sigs []))
unfolding select_threshold_matching
select-groups type sigs threshold n h = rw (le→ltb (length sigs) threshold h, n)

too_few :
    (type : DutyType) (sigs group : List PartialSignature) (threshold : ℕ)
    → ltb (length sigs) threshold ≡ true
    → select_threshold_matching type sigs threshold ≢ some group
unfolding select_threshold_matching
too_few type sigs group threshold t h = ground arith

-- Outside of the key generation's exchange, what select_threshold_matching returns are all the
-- signatures that are stored with one root, and they are exactly as many as the threshold.
pub select-OneRoot :
    (type : DutyType) (sigs group : List PartialSignature) (threshold : ℕ)
    → (type == DutyType.signature) ≡ false
    → select_threshold_matching type sigs threshold ≡ some group
    → (root : Bytes) × (group ≡ filter (has_root root) sigs) × (length group ≡ threshold)
select-OneRoot type sigs group threshold n h = elim (Bool-cases (ltb (length sigs) threshold)) [
  | inl t ↦ absurd (too_few type sigs group threshold t h)
  | inr f ↦
      first-entry (λ root g. g ≡ filter (has_root root) sigs) threshold (by_root sigs []) group
        (entries-by_root sigs)
        (sym (select-groups type sigs threshold n (ltb→le (length sigs) threshold f)) ∙ h)
]

-- Two roots cannot both have a threshold of signatures, when the threshold is more than half of them.
one_root :
    (sigs : List PartialSignature) (threshold : ℕ) (r q : Bytes)
    → length sigs < 2 * threshold
    → threshold ≤ count (has_root r) sigs
    → count (has_root q) sigs ≡ threshold
    → r ≡ q
one_root sigs threshold r q b h k = elim (Bool-cases (r == q)) [
  | inl t ↦ ==-eq r q t
  | inr f ↦ absurd (
      let both =
        count_disjoint (has_root r) (has_root q) sigs (λ x e. rw (==-eq x.message_root r e) f) in
      omega (arith, both))
]

group-selected :
    (sigs : List PartialSignature) (threshold : ℕ) (root : Bytes)
    → 1 ≤ threshold
    → count (has_root root) sigs ≡ threshold
    → first_of_length threshold (values (by_root sigs [])) ≢ none
unfolding get
group-selected sigs threshold root p h = elim (Option-cases (get root (by_root sigs []))) [
  | inl e ↦
      (let empty : [] ≡ filter (has_root root) sigs =
          ap or_nil (sym e) ∙ get-by_root root sigs [] in
        let zero : 0 ≡ threshold = ap length empty ∙ h in absurd (omega (arith, zero, p)))
  | inr (g, e) ↦
      (let same : g ≡ filter (has_root root) sigs = ap or_nil (sym e) ∙ get-by_root root sigs [] in
        first-some threshold root (by_root sigs []) g e (ap length same ∙ h))
]

-- Outside of the key generation's exchange, when the threshold is more than half of the stored
-- signatures and at least one, a root with exactly a threshold of them is what is selected.
pub select_complete :
    (type : DutyType) (sigs : List PartialSignature) (threshold : ℕ) (root : Bytes)
    → (type == DutyType.signature) ≡ false
    → 1 ≤ threshold
    → length sigs < 2 * threshold
    → count (has_root root) sigs ≡ threshold
    → select_threshold_matching type sigs threshold ≡ some (filter (has_root root) sigs)
select_complete type sigs threshold root n p b h =
    elim (Option-cases (select_threshold_matching type sigs threshold)) [
      | inl e ↦ absurd (
          group-selected sigs threshold root p h (
            sym (
              select-groups type sigs threshold n
                (let m = length-filter (has_root root) sigs in omega (arith, m, h)))
            ∙ e))
      | inr (group, e) ↦
          (let (r, same, len) = select-OneRoot type sigs group threshold n e in
            let q =
              one_root sigs threshold root r b (omega (arith, h)) (ap length (sym same) ∙ len) in
            e ∙ ap some (same ∙ ap (λ x. filter (has_root x) sigs) (sym q)))
    ]

-- Past the threshold a root is not selected, and under that bound no other root is.
stops :
    (type : DutyType) (sigs : List PartialSignature) (threshold : ℕ) (root : Bytes)
    → (type == DutyType.signature) ≡ false
    → length sigs < 2 * threshold
    → count (has_root root) sigs ≡ threshold + 1
    → select_threshold_matching type sigs threshold ≡ none
stops type sigs threshold root n b h =
    elim (Option-cases (select_threshold_matching type sigs threshold)) [
      | inl e ↦ e
      | inr (group, e) ↦
          (let (r, same, len) = select-OneRoot type sigs group threshold n e in
            let k : count (has_root r) sigs ≡ threshold = ap length (sym same) ∙ len in
            let q = one_root sigs threshold root r b (omega (arith, h)) k in
            let k' : count (has_root root) sigs ≡ threshold = rw q k in
            absurd (omega (arith, h, k')))
    ]

-- Outside of the key generation's exchange, when exactly a threshold of the stored signatures, at
-- least one, have one root, and the threshold is more than half of what is stored once another
-- signature has arrived: if that one is over the same root, nothing is selected any more, but if
-- it is over another root, the same group is returned once more.
pub later_signature :
    (type : DutyType) (sigs : List PartialSignature) (x : PartialSignature) (threshold : ℕ)
    (root : Bytes)
    → (type == DutyType.signature) ≡ false
    → 1 ≤ threshold
    → length sigs + 1 < 2 * threshold
    → count (has_root root) sigs ≡ threshold
    → select_threshold_matching type (sigs ++ x ∷ []) threshold
      ≡ (if has_root root x then none else some (filter (has_root root) sigs))
later_signature type sigs x threshold root n p b h =
    let len : length (sigs ++ x ∷ []) ≡ length sigs + 1 = length-append sigs (x ∷ []) in
    let split = filter-append (has_root root) sigs (x ∷ []) in
    elim (Bool-cases (has_root root x)) [
      | inl t ↦ rw t (
          stops type (sigs ++ x ∷ []) threshold root n (rw len b) (
            ap length (split ∙ rw t refl)
            ∙ length-append (filter (has_root root) sigs) (x ∷ [])
            ∙ ap (λ k. k + 1) h))
      | inr f ↦ rw f (
          let kept : filter (has_root root) (sigs ++ x ∷ []) ≡ filter (has_root root) sigs =
            split ∙ rw f (append-nil (filter (has_root root) sigs)) in
          select_complete type (sigs ++ x ∷ []) threshold root n p (rw len b) (ap length kept ∙ h)
          ∙ ap some kept)
    ]
