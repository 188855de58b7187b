-- ===== src/Qbft/Leader/Counts.antt =====
-- qbft/protocol.py: the PREPARE counts over a justified quorum of round changes.
use mathlib.Core.List.{append-nil}
use distributed_validator_sp.Base.{
  ℕ, ◌≤◌, ◌≡◌, refl, ap, ◌∙◌, ap₂, true, false, some, List, [], ◌∷◌, ◌++◌, ◌==◌, nat_eq, list_eq,
  option_eq, pair_eq, length, filter, any, Dict, get, keys, arith, Bool-cases, Option-cases, inl,
  inr, ==-eq, All, All-append, All-mono, ◌⊎◌, ◌≢◌, subst, filter-append, filter_all, filter_none,
  any_none, length-append, ok, keys-put-All,
}
use distributed_validator_sp.Types.{Bytes}
use distributed_validator_sp.Qbft.Message.{prepare, msg_type_eq, QbftMsg}
use distributed_validator_sp.Qbft.Justify.{
  count_prepare, prepare_counts, max_from, max_by_round, matches, is_round_change_for,
}
use distributed_validator_sp.Qbft.Prepares.{counted, has_value, counted-prepare_counts}
use distributed_validator_sp.Qbft.Leader.Choice.{Prepared}

-- A message that is counted under no key, or under `k`.
abbrev CountsFor : ℕ × Bytes → QbftMsg → Type 0
CountsFor k j = (has_value j ≡ false) ⊎ ((j.round ≡ k.0) × (j.value_hash ≡ some k.1))

count_prepare-keys :
    (k : ℕ × Bytes) (j : QbftMsg) (counts : Dict (ℕ × Bytes) ℕ)
    → CountsFor k j
    → All (λ i. k ≡ i) (keys counts)
    → All (λ i. k ≡ i) (keys (count_prepare j counts))
unfolding count_prepare
count_prepare-keys k j counts h a = elim (Bool-cases (j.type == prepare)) [
  | inr f ↦ rw f a
  | inl t ↦ elim (Option-cases j.value_hash) [
    | inl e ↦ rw (t, e, count_prepare) a
    | inr (v, e) ↦
        rw (t, e, count_prepare) (keys-put-All (λ i. k ≡ i) (j.round, v) _ counts (same v t e) a)
  ]
]
  where
    same : (v : Bytes) → (j.type == prepare) ≡ true → j.value_hash ≡ some v → k ≡ (j.round, v)
    same v t e = ground arith

prepare_counts-keys :
    (k : ℕ × Bytes) (js : List QbftMsg) (counts : Dict (ℕ × Bytes) ℕ)
    → All (CountsFor k) js
    → All (λ i. k ≡ i) (keys counts)
    → All (λ i. k ≡ i) (keys (prepare_counts js counts))
unfolding prepare_counts
prepare_counts-keys k [] counts h a = a
prepare_counts-keys k (j ∷ js) counts h a =
    prepare_counts-keys k js (count_prepare j counts) h.1 (count_prepare-keys k j counts h.0 a)

max_from_same : (k : ℕ × Bytes) (ks : List (ℕ × Bytes)) → All (λ i. k ≡ i) ks → max_from k ks ≡ k
unfolding max_from
max_from_same k [] h = refl
max_from_same k (i ∷ ks) h = rw (← h.0) (ground (arith, max_from_same k ks h.1))

max_by_round_same :
    (k : ℕ × Bytes) (ks : List (ℕ × Bytes)) → ks ≢ [] → All (λ i. k ≡ i) ks → max_by_round ks ≡ ok k
unfolding max_by_round
max_by_round_same k [] n h = absurd (n refl)
max_by_round_same k (i ∷ ks) n h = rw (← h.0) (ap ok (max_from_same k ks h.1))

-- A round change is not counted, a matching PREPARE is counted under its key.
round_change-CountsFor :
    (round : ℕ) (k : ℕ × Bytes) (j : QbftMsg) → is_round_change_for round j ≡ true → CountsFor k j
round_change-CountsFor round k j h = inl (ground arith)

prepare-CountsFor :
    (k : ℕ × Bytes) (j : QbftMsg) → matches prepare k.0 (some k.1) j ≡ true → CountsFor k j
prepare-CountsFor k j h =
    inr (==-eq j.round k.0 (ground arith), ==-eq j.value_hash (some k.1) (ground arith))

prepare-not_round_change :
    (round : ℕ) (k : ℕ × Bytes) (j : QbftMsg)
    → matches prepare k.0 (some k.1) j ≡ true
    → is_round_change_for round j ≡ false
prepare-not_round_change round k j h = ground arith

prepare-has_value :
    (k : ℕ × Bytes) (j : QbftMsg) → matches prepare k.0 (some k.1) j ≡ true → has_value j ≡ true
prepare-has_value k j h =
    let e = ==-eq j.value_hash (some k.1) (ground arith) in rw e (ground arith)

pub unprepared-no_value :
    (round : ℕ) (js : List QbftMsg)
    → All (λ j. is_round_change_for round j ≡ true) js
    → any has_value js ≡ false
unprepared-no_value round js h =
    any_none has_value js (All-mono _ (λ j. has_value j ≡ false) js (λ j x. ground arith) h)

keys_nil : (d : Dict (ℕ × Bytes) ℕ) → keys d ≡ [] → d ≡ []
keys_nil [] e = refl
keys_nil ((k, v) ∷ d) e = absurd (cc)

module _ (q round : ℕ) (k : ℕ × Bytes) (found ps : List QbftMsg)
    (p : Prepared q round k found ps) where
  pub prepared_round_changes : filter (is_round_change_for round) (found ++ ps) ≡ found
  prepared_round_changes =
      filter-append (is_round_change_for round) found ps
      ∙ ap₂ ◌++◌ (filter_all (is_round_change_for round) found p.round_changes) (
          filter_none (is_round_change_for round) ps (
            All-mono _ (λ j. is_round_change_for round j ≡ false) ps
              (prepare-not_round_change round k) p.prepares))
      ∙ append-nil found

  pub prepared_count : q ≤ counted k (prepare_counts (found ++ ps) [])
  unfolding get
  prepared_count =
      let e = counted-prepare_counts k (found ++ ps) [] in
      let a = filter-append (matches prepare k.0 (some k.1)) found ps in
      let b = filter_all (matches prepare k.0 (some k.1)) ps p.prepares in
      let n =
        length-append (filter (matches prepare k.0 (some k.1)) found)
          (filter (matches prepare k.0 (some k.1)) ps) in
      let m = p.enough_prepares in
      omega (arith, ap (length {A = QbftMsg}) a, ap (length {A = QbftMsg}) b)

  prepared_keys : All (λ i. k ≡ i) (keys (prepare_counts (found ++ ps) []))
  prepared_keys =
      prepare_counts-keys k (found ++ ps) []
        (All-append (CountsFor k) found ps
          (All-mono _ (CountsFor k) found (round_change-CountsFor round k) p.round_changes)
          (All-mono _ (CountsFor k) ps (prepare-CountsFor k) p.prepares))
        tt

  -- With a quorum of at least one there is a PREPARE, and the dictionary has the one key `k`.
  pub prepared_max : 1 ≤ q → max_by_round (keys (prepare_counts (found ++ ps) [])) ≡ ok k
  unfolding get
  prepared_max n =
      max_by_round_same k (keys (prepare_counts (found ++ ps) [])) nonempty prepared_keys
    where
      nonempty : keys (prepare_counts (found ++ ps) []) ≢ []
      nonempty e = absurd (
          let z : q ≤ 0 =
            subst (λ d. q ≤ counted k d) (keys_nil (prepare_counts (found ++ ps) []) e)
              prepared_count in
          omega arith)
