-- ===== src/Base/Assoc.antt =====
-- Python's `dict`: an association list in insertion order. A write to a present key keeps its place.
use Prim.Native.Nat.{◌+◌, ◌≤◌}
use mathlib.Core.Path.{◌≡◌, refl, sym, subst}
use mathlib.Core.Bool.{Bool, true, false, ◌||◌}
use mathlib.Core.Option.{Option, none, some}
use mathlib.Core.Logic.{◌≢◌, inl, inr}
use mathlib.Core.List.{List, [], ◌∷◌}
use native.Mathlib.Omega.{arith}
use distributed_validator_sp.Base.Tests.{if◌then◌else◌, Bool-cases}
use distributed_validator_sp.Base.Equality.{Eq, ◌==◌, ==-refl, ==-eq, ==-ne, ==-sound}
use distributed_validator_sp.Base.Lists.{length, All}

abbrev pub Dict {ℓ κ} : Type ℓ → Type κ → Type (ℓ ⊔ κ)
Dict K V = List (K × V)

module _ {ℓ κ} {K : Type ℓ} {V : Type κ} ⦃e : Eq K⦄ where
  -- d.get(k)
  unfoldable pub get : K → Dict K V → Option V
  get k [] = none
  get k ((j, v) ∷ d) = if j == k then some v else get k d

  -- d[k] = v
  unfoldable pub put : K → V → Dict K V → Dict K V
  put k v [] = (k, v) ∷ []
  put k v ((j, w) ∷ d) = if j == k then (j, v) ∷ d else (j, w) ∷ put k v d

  -- k in d
  unfoldable pub has : K → Dict K V → Bool
  has k [] = false
  has k ((j, v) ∷ d) = j == k || has k d

  -- del d[k], and no change where there is no such key
  unfoldable pub remove : K → Dict K V → Dict K V
  remove k [] = []
  remove k ((j, v) ∷ d) = let rest = remove k d in if j == k then rest else (j, v) ∷ rest

  pub get-remove_self : (k : K) (d : Dict K V) → get k (remove k d) ≡ none
  unfolding get remove
  get-remove_self k [] = refl
  get-remove_self k ((j, v) ∷ d) = elim (Bool-cases (j == k)) [
    | inl t ↦ rw t (get-remove_self k d)
    | inr f ↦ rw (f, f) (get-remove_self k d)
  ]

  pub get-remove_ne : (k i : K) (d : Dict K V) → (k == i) ≡ false → get i (remove k d) ≡ get i d
  unfolding get remove
  get-remove_ne k i [] h = refl
  get-remove_ne k i ((j, v) ∷ d) h = elim (Bool-cases (j == k)) [
    | inl t ↦ rw t (let p : (j == i) ≡ false = rw (==-eq j k t) h in rw p (get-remove_ne k i d h))
    | inr f ↦ rw f (ground (arith, get-remove_ne k i d h))
  ]

  pub get-put_self : (k : K) (v : V) (d : Dict K V) → get k (put k v d) ≡ some v
  unfolding get put
  get-put_self k v [] = rw (==-refl k)
  get-put_self k v ((j, w) ∷ d) = elim (Bool-cases (j == k)) [
    | inl t ↦ rw (t, t)
    | inr f ↦ rw (f, f) (get-put_self k v d)
  ]

  pub get-put_ne : (k i : K) (v : V) (d : Dict K V) → (k == i) ≡ false → get i (put k v d) ≡ get i d
  unfolding get put
  get-put_ne k i v [] h = rw h
  get-put_ne k i v ((j, w) ∷ d) h = elim (Bool-cases (j == k)) [
    | inl t ↦ rw t (let p : (j == i) ≡ false = rw (==-eq j k t) h in rw p)
    | inr f ↦ rw f (ground (arith, get-put_ne k i v d h))
  ]

  pub has-get : (k : K) (d : Dict K V) → has k d ≡ false → get k d ≡ none
  unfolding has get
  has-get k [] h = refl
  has-get k ((j, v) ∷ d) h = ground (arith, has-get k d)

  pub has-put : (k : K) (v : V) (d : Dict K V) → has k (put k v d) ≡ true
  unfolding has put
  has-put k v [] = rw (==-refl k)
  has-put k v ((j, w) ∷ d) = elim (Bool-cases (j == k)) [
    | inl t ↦ rw (t, t)
    | inr f ↦ rw (f, f) (has-put k v d)
  ]

module _ {ℓ κ} {K : Type ℓ} {V : Type κ} where
  abbrev pub keys : Dict K V → List K
  keys [] = []
  keys ((k, v) ∷ d) = k ∷ keys d

  abbrev pub values : Dict K V → List V
  values [] = []
  values ((k, v) ∷ d) = v ∷ values d

-- No two elements are equal.
abbrev pub Distinct {ℓ} : {K : Type ℓ} → List K → Type ℓ
Distinct [] = Unit
Distinct (k ∷ ks) = All (λ j. k ≢ j) ks × Distinct ks

module _ {ℓ κ ι} {K : Type ℓ} {V : Type κ} ⦃e : Eq K⦄ where
  pub keys-put-All :
      (P : K → Type ι) (k : K) (v : V) (d : Dict K V)
      → P k
      → All P (keys d)
      → All P (keys (put k v d))
  unfolding put
  keys-put-All P k v [] h a = (h, tt)
  keys-put-All P k v ((j, w) ∷ d) h a = elim (Bool-cases (j == k)) [
    | inl t ↦ rw t a
    | inr f ↦ rw f (a.0, keys-put-All P k v d h a.1)
  ]

  -- A property of entries that the new one has, at the key that is equal to its own.
  pub put-All :
      (P : K × V → Type ι) (k : K) (v : V) (d : Dict K V) → P (k, v) → All P d → All P (put k v d)
  unfolding put
  put-All P k v [] h a = (h, tt)
  put-All P k v ((j, w) ∷ d) h a = elim (Bool-cases (j == k)) [
    | inl t ↦ rw t (subst (λ i. P (i, v)) (sym (==-eq j k t)) h, a.1)
    | inr f ↦ rw f (a.0, put-All P k v d h a.1)
  ]

module _ {ℓ κ} {K : Type ℓ} {V : Type κ} ⦃e : Eq K⦄ where
  pub keys-put-Distinct :
      (k : K) (v : V) (d : Dict K V) → Distinct (keys d) → Distinct (keys (put k v d))
  unfolding put
  keys-put-Distinct k v [] h = (tt, tt)
  keys-put-Distinct k v ((j, w) ∷ d) h = elim (Bool-cases (j == k)) [
    | inl t ↦ rw t h
    | inr f ↦
        rw f (keys-put-All (λ i. j ≢ i) k v d (==-sound j k f) h.0, keys-put-Distinct k v d h.1)
  ]

  pub length-put :
      (k : K) (v : V) (d : Dict K V)
      → (length d ≤ length (put k v d)) × (length (put k v d) ≤ length d + 1)
  unfolding put
  length-put k v [] = omega arith
  length-put k v ((j, w) ∷ d) = ground (arith, length-put k v d)

module _ {ℓ κ} {K : Type ℓ} {V : Type κ} ⦃e : Eq K⦄ where
  -- In a dictionary with distinct keys each entry is what its key is mapped to.
  entries-skip :
      (k : K) (v : V) (rest d : Dict K V)
      → All (λ i. k ≢ i) (keys rest)
      → All (λ (kv : K × V). get kv.0 d ≡ some kv.1) rest
      → All (λ (kv : K × V). get kv.0 ((k, v) ∷ d) ≡ some kv.1) rest
  unfolding get
  entries-skip k v [] d n h = tt
  entries-skip k v ((j, w) ∷ rest) d n h = (rw (==-ne k j n.0) h.0, entries-skip k v rest d n.1 h.1)

  pub entries-get :
      (d : Dict K V) → Distinct (keys d) → All (λ (kv : K × V). get kv.0 d ≡ some kv.1) d
  unfolding get
  entries-get [] h = tt
  entries-get ((k, v) ∷ d) h = (rw (==-refl k), entries-skip k v d d h.0 (entries-get d h.1))
