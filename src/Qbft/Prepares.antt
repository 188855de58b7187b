-- ===== src/Qbft/Prepares.antt =====
-- qbft/protocol.py: the dictionary of PREPARE counts, against the plain count of the messages that
-- match, and the choice of its highest round.
use distributed_validator_sp.Base.{
  ℕ, ◌+◌, ◌≡◌, refl, Bool, true, false, ◌&&◌, Option, none, some, List, [], ◌∷◌, ◌==◌, nat_eq,
  list_eq, option_eq, pair_eq, count, if◌then◌else◌, any, Dict, get, put, keys, get-put_self,
  get-put_ne, arith, ok, Bool-cases, Option-cases, inl, inr, ==-eq, ◌⊎◌, ◌≢◌, ||_parts,
}
use distributed_validator_sp.Types.{Bytes}
use distributed_validator_sp.Qbft.Message.{prepare, msg_type_eq, QbftMsg}
use distributed_validator_sp.Qbft.Justify.{
  or_zero, count_prepare, prepare_counts, max_from, max_by_round, matches,
}

abbrev pub is_some {ℓ} : {A : Type ℓ} → Option A → Bool
is_some none = false
is_some (some a) = true

-- The count that the dictionary holds for a round and value.
abbrev pub counted : ℕ × Bytes → Dict (ℕ × Bytes) ℕ → ℕ
counted k counts = or_zero (get k counts)

-- The PREPAREs for a round and value in a list.
abbrev pub prepares : ℕ × Bytes → List QbftMsg → ℕ
prepares (r, h) js = count (matches prepare r (some h)) js

abbrev one_if : Bool → ℕ
one_if b = if b then 1 else 0

counted-put :
    (k j : ℕ × Bytes) (counts : Dict (ℕ × Bytes) ℕ)
    → counted k (put j (counted j counts + 1) counts) ≡ counted k counts + one_if (j == k)
counted-put k j counts = elim (Bool-cases (j == k)) [
  | inl t ↦ rw (t, ==-eq j k t) (rw get-put_self)
  | inr f ↦ rw (f, get-put_ne j k (counted j counts + 1) counts f) (omega arith)
]

counted-count_prepare :
    (k : ℕ × Bytes) (j : QbftMsg) (counts : Dict (ℕ × Bytes) ℕ)
    → counted k (count_prepare j counts)
      ≡ counted k counts + one_if (matches prepare k.0 (some k.1) j)
unfolding count_prepare
counted-count_prepare k j counts = elim (Bool-cases (j.type == prepare)) [
  | inl t ↦ elim (Option-cases j.value_hash) [
    | inl e ↦ rw (t, e) (ground arith)
    | inr (h, e) ↦ rw (t, e) (counted-put k (j.round, h) counts)
  ]
  | inr f ↦ rw f (omega arith)
]

-- The loop over a justification adds, for each round and value, the number of PREPAREs that match
-- it to what the dictionary held for it.
pub counted-prepare_counts :
    (k : ℕ × Bytes) (js : List QbftMsg) (counts : Dict (ℕ × Bytes) ℕ)
    → counted k (prepare_counts js counts) ≡ counted k counts + prepares k js
unfolding prepare_counts
counted-prepare_counts k [] counts = omega arith
counted-prepare_counts k (j ∷ js) counts =
    let rest = counted-prepare_counts k js (count_prepare j counts) in
    let one = counted-count_prepare k j counts in
    elim (Bool-cases (matches prepare k.0 (some k.1) j)) [
      | inl t ↦ rw t (let e = rw t at one in omega arith)
      | inr f ↦ rw f (let e = rw f at one in omega arith)
    ]

-- Without a PREPARE that carries a value the loop leaves the dictionary as it is.
abbrev pub has_value : QbftMsg → Bool
has_value j = j.type == prepare && is_some j.value_hash

count_prepare-skip :
    (j : QbftMsg) (counts : Dict (ℕ × Bytes) ℕ)
    → has_value j ≡ false
    → count_prepare j counts ≡ counts
unfolding count_prepare
count_prepare-skip j counts h = ground arith

pub prepare_counts-skip :
    (js : List QbftMsg) (counts : Dict (ℕ × Bytes) ℕ)
    → any has_value js ≡ false
    → prepare_counts js counts ≡ counts
unfolding prepare_counts
prepare_counts-skip [] counts h = refl
prepare_counts-skip (j ∷ js) counts h =
    let parts = ||_parts (has_value j) (any has_value js) h in
    rw (count_prepare-skip j counts parts.0) (prepare_counts-skip js counts parts.1)

put-ne-nil {ℓ} : {V : Type ℓ} (k : ℕ × Bytes) (v : V) (d : Dict (ℕ × Bytes) V) → put k v d ≢ []
unfolding put
put-ne-nil k v [] e = cc
put-ne-nil k v ((j, w) ∷ d) e = ground arith

count_prepare-ne-nil :
    (j : QbftMsg) (counts : Dict (ℕ × Bytes) ℕ)
    → (has_value j ≡ true) ⊎ (counts ≢ [])
    → count_prepare j counts ≢ []
unfolding count_prepare
count_prepare-ne-nil j counts h e = elim (Option-cases j.value_hash) [
  | inl n ↦ ground arith
  | inr (v, n) ↦
      ground (arith, put-ne-nil (j.round, v) (or_zero (get (j.round, v) counts) + 1) counts)
]

-- With one, the dictionary has a key.
pub prepare_counts-ne-nil :
    (js : List QbftMsg) (counts : Dict (ℕ × Bytes) ℕ)
    → (any has_value js ≡ true) ⊎ (counts ≢ [])
    → prepare_counts js counts ≢ []
unfolding prepare_counts
prepare_counts-ne-nil [] counts h = elim h [ inl e ↦ cc | inr n ↦ n ]
prepare_counts-ne-nil (j ∷ js) counts h = elim (Bool-cases (any has_value js)) [
  | inl t ↦ prepare_counts-ne-nil js (count_prepare j counts) (inl t)
  | inr f ↦
      prepare_counts-ne-nil js (count_prepare j counts)
        (inr (count_prepare-ne-nil j counts (ground arith)))
]

-- `max` fails exactly at a dictionary with no key.
pub max_by_round-keys :
    (counts : Dict (ℕ × Bytes) ℕ)
    → counts ≢ []
    → (k : ℕ × Bytes) × (max_by_round (keys counts) ≡ ok k)
unfolding max_by_round
max_by_round-keys [] h = absurd (h refl)
max_by_round-keys ((k, v) ∷ counts) h = (max_from k (keys counts), refl)
