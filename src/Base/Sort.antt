-- ===== src/Base/Sort.antt =====
-- Python's `sorted`: a stable sort by a strict order, as an insertion sort; and the order of strings.
use Prim.Native.Nat.{ℕ}
use mathlib.Core.Path.{◌≡◌, refl, ap, ap₂, sym, subst, ◌∙◌}
use mathlib.Core.Bool.{Bool, true, false, ◌||◌, ◌&&◌}
use mathlib.Core.Logic.{◌≢◌, inl, inr}
use mathlib.Core.List.{List, [], ◌∷◌, Permᴰ}
use native.Mathlib.Omega.{arith}
use distributed_validator_sp.Base.Tests.{if◌then◌else◌, Bool-cases, ltb, nat_beq}
use distributed_validator_sp.Base.Equality.{==_cases, nat_eq}
use distributed_validator_sp.Base.Lists.{All}

-- a < b on strings and byte strings
abbrev pub list_ltb : List ℕ → List ℕ → Bool
list_ltb a [] = false
list_ltb [] (y ∷ b) = true
list_ltb (x ∷ a) (y ∷ b) = ltb x y || (nat_beq x y && list_ltb a b)

module _ {ℓ} {A : Type ℓ} (before : A → A → Bool) where
  abbrev pub insert_sorted : A → List A → List A
  insert_sorted x [] = x ∷ []
  insert_sorted x (y ∷ l) =
      let rest = insert_sorted x l in if before y x then y ∷ rest else x ∷ y ∷ l

  abbrev pub sorted : List A → List A
  sorted [] = []
  sorted (x ∷ l) = insert_sorted x (sorted l)

-- The laws of a strict order on keys.
pub record IsOrder {ℓ} {K : Type ℓ} (before : K → K → Bool) : Type ℓ where
  pub asymmetric : (x y : K) → before x y ≡ true → before y x ≡ false
  pub total : (x y : K) → x ≢ y → before x y ≡ false → before y x ≡ true
  pub skip : (x y z : K) → before z x ≡ false → before z y ≡ true → before x y ≡ true

list_asymmetric : (x y : List ℕ) → list_ltb x y ≡ true → list_ltb y x ≡ false
list_asymmetric x [] h = cc
list_asymmetric [] (y ∷ b) h = refl
list_asymmetric (x ∷ a) (y ∷ b) h = ground (arith, list_asymmetric a b)

list_total : (x y : List ℕ) → x ≢ y → list_ltb x y ≡ false → list_ltb y x ≡ true
list_total [] [] n h = absurd (n refl)
list_total (x ∷ a) [] n h = refl
list_total [] (y ∷ b) n h = cc
list_total (x ∷ a) (y ∷ b) n h = elim (==_cases x y) [
  | inl p ↦ ground (arith, list_total a b (λ q. n (ap₂ ◌∷◌ p q)))
  | inr f ↦ ground arith
]

list_skip : (x y z : List ℕ) → list_ltb z x ≡ false → list_ltb z y ≡ true → list_ltb x y ≡ true
list_skip x [] z h k = cc
list_skip [] (y ∷ b) z h k = refl
list_skip (x ∷ a) (y ∷ b) [] h k = cc
list_skip (x ∷ a) (y ∷ b) (z ∷ c) h k = ground (arith, list_skip a b c)

pub list_ltb-IsOrder : IsOrder list_ltb
list_ltb-IsOrder = record { asymmetric = list_asymmetric; total = list_total; skip = list_skip }

pub All-Permᴰ {ℓ κ} : {A : Type ℓ} (P : A → Type κ) {l m : List A} → Permᴰ l m → All P l → All P m
All-Permᴰ P Permᴰ.nil h = tt
All-Permᴰ P (Permᴰ.cons e d) h = (subst P e h.0, All-Permᴰ P d h.1)
All-Permᴰ P (Permᴰ.swap e f) h = (subst P f h.1.0, (subst P e h.0, h.1.1))
All-Permᴰ P (Permᴰ.trans d e) h = All-Permᴰ P e (All-Permᴰ P d h)

module _ {ℓ κ} {A : Type ℓ} {K : Type κ} (key : A → K) where
  abbrev pub DistinctKeys : List A → Type (ℓ ⊔ κ)
  DistinctKeys [] = Unit
  DistinctKeys (x ∷ l) = All (λ y. key x ≢ key y) l × DistinctKeys l

-- Elements with distinct keys are sorted by their keys the same way whatever order they come in.
module _ {ℓ κ} {A : Type ℓ} {K : Type κ} (key : A → K) (lt : K → K → Bool) (o : IsOrder lt) where
  abbrev pub by_key : A → A → Bool
  by_key x y = lt (key x) (key y)

  insert_comm :
      (x y : A) (l : List A)
      → key x ≢ key y
      → insert_sorted by_key x (insert_sorted by_key y l)
        ≡ insert_sorted by_key y (insert_sorted by_key x l)
  insert_comm x y [] n = elim (Bool-cases (by_key y x)) [
    | inl t ↦ rw (t, o.asymmetric (key y) (key x) t)
    | inr f ↦ rw (f, o.total (key y) (key x) (λ p. n (sym p)) f)
  ]
  insert_comm x y (z ∷ l) n = elim (Bool-cases (by_key z x)) [
    | inl zx ↦ elim (Bool-cases (by_key z y)) [
      | inl zy ↦ rw (zx, zy, zx) (ap (λ m. z ∷ m) (insert_comm x y l n))
      | inr zy ↦ rw (zx, zy, o.skip (key y) (key x) (key z) zy zx, zx)
    ]
    | inr zx ↦ elim (Bool-cases (by_key z y)) [
      | inl zy ↦ rw (zy, zx, o.skip (key x) (key y) (key z) zx zy, zy)
      | inr zy ↦ elim (Bool-cases (by_key y x)) [
        | inl t ↦ rw (zx, zy, t, zx, o.asymmetric (key y) (key x) t)
        | inr f ↦ rw (zx, zy, f, o.total (key y) (key x) (λ p. n (sym p)) f)
      ]
    ]
  ]

  pub Distinct-Permᴰ : {l m : List A} → Permᴰ l m → DistinctKeys key l → DistinctKeys key m
  Distinct-Permᴰ Permᴰ.nil h = tt
  Distinct-Permᴰ (Permᴰ.cons {a} {b} {l₁} {l₂} e d) h = (
    subst (λ x. All (λ y. key x ≢ key y) l₂) e (All-Permᴰ (λ y. key a ≢ key y) d h.0),
    Distinct-Permᴰ d h.1,
  )
  Distinct-Permᴰ (Permᴰ.swap {a} {b} {a'} {b'} {l} e f) h = (
    (
      subst (λ x. key a' ≢ key x) e (subst (λ x. key x ≢ key a) f (λ p. h.0.0 (sym p))),
      subst (λ x. All (λ y. key x ≢ key y) l) f h.1.0,
    ),
    (subst (λ x. All (λ y. key x ≢ key y) l) e h.0.1, h.1.1),
  )
  Distinct-Permᴰ (Permᴰ.trans d e) h = Distinct-Permᴰ e (Distinct-Permᴰ d h)

  pub sorted-Permᴰ :
      {l m : List A} → Permᴰ l m → DistinctKeys key l → sorted by_key l ≡ sorted by_key m
  sorted-Permᴰ Permᴰ.nil h = refl
  sorted-Permᴰ (Permᴰ.cons {a} {b} {l₁} {l₂} e d) h =
      ap₂ (insert_sorted by_key) e (sorted-Permᴰ d h.1)
  sorted-Permᴰ (Permᴰ.swap {a} {b} {a'} {b'} {l} e f) h =
      insert_comm a b (sorted by_key l) h.0.0
      ∙ ap₂ (λ x y. insert_sorted by_key x (insert_sorted by_key y (sorted by_key l))) f e
  sorted-Permᴰ (Permᴰ.trans d e) h = sorted-Permᴰ d h ∙ sorted-Permᴰ e (Distinct-Permᴰ d h)
