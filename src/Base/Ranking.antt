-- ===== src/Base/Ranking.antt =====
-- Lists in the order of a relation, and that sorting makes them so.
use mathlib.Core.Path.{◌≡◌}
use mathlib.Core.Bool.{Bool, true, false}
use mathlib.Core.Logic.{inl, inr}
use mathlib.Core.List.{List, [], ◌∷◌, map}
use distributed_validator_sp.Base.Tests.{Bool-cases}
use distributed_validator_sp.Base.Lists.{All, All-mono, filter}
use distributed_validator_sp.Base.Sort.{insert_sorted, sorted}

module _ {ℓ κ} {A : Type ℓ} where
  -- Each element is in relation to all that follow it.
  abbrev pub Ordered : (A → A → Type κ) → List A → Type κ
  Ordered R [] = Unit
  Ordered R (x ∷ l) = All (R x) l × Ordered R l

module _ {ℓ κ} {A : Type ℓ} (P : A → Type κ) where
  insert-All :
      (before : A → A → Bool) (x : A) (l : List A)
      → P x
      → All P l
      → All P (insert_sorted before x l)
  insert-All before x [] p h = (p, tt)
  insert-All before x (y ∷ l) p h = elim (Bool-cases (before y x)) [
    | inl t ↦ rw t (h.0, insert-All before x l p h.1)
    | inr f ↦ rw f (p, h)
  ]

  pub sorted-All : (before : A → A → Bool) (l : List A) → All P l → All P (sorted before l)
  sorted-All before [] h = tt
  sorted-All before (x ∷ l) h = insert-All before x (sorted before l) h.0 (sorted-All before l h.1)

  pub filter-All : (q : A → Bool) (l : List A) → All P l → All P (filter q l)
  filter-All q [] h = tt
  filter-All q (x ∷ l) h = elim (Bool-cases (q x)) [
    | inl t ↦ rw t (h.0, filter-All q l h.1)
    | inr f ↦ rw f (filter-All q l h.1)
  ]

-- What the elements that a filter keeps have, from what they had and the test.
pub filter-Kept {ℓ κ ι} :
    {A : Type ℓ} (P : A → Type κ) (Q : A → Type ι) (q : A → Bool) (l : List A)
    → All P l
    → ((x : A) → P x → q x ≡ true → Q x)
    → All Q (filter q l)
filter-Kept P Q q [] h f = tt
filter-Kept P Q q (x ∷ l) h f = elim (Bool-cases (q x)) [
  | inl t ↦ rw t (f x h.0 t, filter-Kept P Q q l h.1 f)
  | inr e ↦ rw e (filter-Kept P Q q l h.1 f)
]

module _ {ℓ κ} {A : Type ℓ} (R : A → A → Type κ) where
  pub Ordered-filter : (q : A → Bool) (l : List A) → Ordered R l → Ordered R (filter q l)
  Ordered-filter q [] h = tt
  Ordered-filter q (x ∷ l) h = elim (Bool-cases (q x)) [
    | inl t ↦ rw t (filter-All (R x) q l h.0, Ordered-filter q l h.1)
    | inr f ↦ rw f (Ordered-filter q l h.1)
  ]

  module _ (before : A → A → Bool) (trans : (x y z : A) → R x y → R y z → R x z)
      (yes : (x y : A) → before x y ≡ true → R x y)
      (no : (x y : A) → before x y ≡ false → R y x) where
    Ordered-insert : (x : A) (l : List A) → Ordered R l → Ordered R (insert_sorted before x l)
    Ordered-insert x [] h = (tt, tt)
    Ordered-insert x (y ∷ l) h = elim (Bool-cases (before y x)) [
      | inl t ↦ rw t (insert-All (R y) before x l (yes y x t) h.0, Ordered-insert x l h.1)
      | inr f ↦ rw f ((no y x f, All-mono (R y) (R x) l (λ z r. trans x y z (no y x f) r) h.0), h)
    ]

    pub sorted-Ordered : (l : List A) → Ordered R (sorted before l)
    sorted-Ordered [] = tt
    sorted-Ordered (x ∷ l) = Ordered-insert x (sorted before l) (sorted-Ordered l)

module _ {ℓ κ ι} {A : Type ℓ} {B : Type κ} (f : A → B) where
  pub All-map : (P : B → Type ι) (l : List A) → All (λ x. P (f x)) l → All P (map f l)
  All-map P [] h = tt
  All-map P (x ∷ l) h = (h.0, All-map P l h.1)

  pub Ordered-map :
      (R : B → B → Type ι) (l : List A) → Ordered (λ x y. R (f x) (f y)) l → Ordered R (map f l)
  Ordered-map R [] h = tt
  Ordered-map R (x ∷ l) h = (All-map (R (f x)) l h.0, Ordered-map R l h.1)
