-- ===== src/Dkg/CastOrder.antt =====
-- dkg/frost.py: which validators the casts of the second round name, and in which order.
use distributed_validator_sp.Base.{
  ℕ, ◌≡◌, refl, sym, ◌∙◌, Bool, false, List, [], ◌∷◌, ◌==◌, nat_eq, ==-eq, ltb, Dict, put, keys,
  sorted, ◌<◌, ◌≢◌, ◌||◌, ap, any, All, All-mono, Ordered, Distinct, insert_sorted,
  keys-put-Distinct, arith, Bool-cases, inl, inr,
}
use distributed_validator_sp.Types.{Bytes}
use distributed_validator_sp.Dkg.Frost.{FrostRound2Cast, add_share, collect_shares}

strictly_below : (x y : ℕ) → ltb y x ≡ false → x ≢ y → x < y
strictly_below x y f n = ground (arith, f, n)

either_order : (a b c : Bool) → (a || (b || c)) ≡ (b || (a || c))
either_order a b c = ground arith

either_twice : (a b : Bool) → (a || b) ≡ ((a || b) || a)
either_twice a b = ground arith

||_assoc : (a b c : Bool) → (a || (b || c)) ≡ ((a || b) || c)
||_assoc a b c = ground arith

or_false : (a : Bool) → a ≡ (a || false)
or_false a = ground arith

-- Each element is less than all that follow it.
abbrev pub Ascending : List ℕ → Type 0
Ascending = Ordered (λ a b. a < b)

abbrev pub has_cast : ℕ → List FrostRound2Cast → Bool
has_cast validator casts = any (λ cast. cast.key.val_idx == validator) casts

abbrev pub listed : ℕ → List ℕ → Bool
listed validator validators = any (λ v. v == validator) validators

-- A number that is in none of the places stays out of them.
insert-Absent :
    (a x : ℕ) (l : List ℕ) → a ≢ x → All (λ y. a ≢ y) l → All (λ y. a ≢ y) (insert_sorted ltb x l)
insert-Absent a x [] n h = (n, tt)
insert-Absent a x (y ∷ l) n h = elim (Bool-cases (ltb y x)) [
  | inl t ↦ rw t (h.0, insert-Absent a x l n h.1)
  | inr f ↦ rw f (n, h)
]

sorted-Absent : (a : ℕ) (l : List ℕ) → All (λ y. a ≢ y) l → All (λ y. a ≢ y) (sorted ltb l)
sorted-Absent a [] h = tt
sorted-Absent a (x ∷ l) h = insert-Absent a x (sorted ltb l) h.0 (sorted-Absent a l h.1)

insert-Above :
    (a x : ℕ) (l : List ℕ) → a < x → All (λ y. a < y) l → All (λ y. a < y) (insert_sorted ltb x l)
insert-Above a x [] n h = (n, tt)
insert-Above a x (y ∷ l) n h = elim (Bool-cases (ltb y x)) [
  | inl t ↦ rw t (h.0, insert-Above a x l n h.1)
  | inr f ↦ rw f (n, h)
]

insert-Ascending :
    (x : ℕ) (l : List ℕ) → All (λ y. x ≢ y) l → Ascending l → Ascending (insert_sorted ltb x l)
insert-Ascending x [] n h = (tt, tt)
insert-Ascending x (y ∷ l) n h = elim (Bool-cases (ltb y x)) [
  | inl t ↦ rw t (insert-Above y x l (ground (arith, t)) h.0, insert-Ascending x l n.1 h.1)
  | inr f ↦
      let less : x < y = strictly_below x y f n.0 in
      rw f ((less, All-mono (λ z. y < z) (λ z. x < z) l (λ z r. omega (arith, less, r)) h.0), h)
]

pub sorted-Ascending : (l : List ℕ) → Distinct l → Ascending (sorted ltb l)
sorted-Ascending [] h = tt
sorted-Ascending (x ∷ l) h =
    insert-Ascending x (sorted ltb l) (sorted-Absent x l h.0) (sorted-Ascending l h.1)

listed-insert : (v x : ℕ) (l : List ℕ) → listed v (insert_sorted ltb x l) ≡ (x == v || listed v l)
listed-insert v x [] = refl
listed-insert v x (y ∷ l) = elim (Bool-cases (ltb y x)) [
  | inl t ↦ rw (t, listed-insert v x l) (either_order (y == v) (x == v) (listed v l))
  | inr f ↦ rw f refl
]

pub listed-sorted : (v : ℕ) (l : List ℕ) → listed v (sorted ltb l) ≡ listed v l
listed-sorted v [] = refl
listed-sorted v (x ∷ l) =
    listed-insert v x (sorted ltb l) ∙ ap (λ b. x == v || b) (listed-sorted v l)

module _ {V : Type 0} where
  listed-put :
      (v k : ℕ) (value : V) (d : Dict ℕ V)
      → listed v (keys (put k value d)) ≡ (listed v (keys d) || k == v)
  unfolding put
  listed-put v k value [] = ground arith
  listed-put v k value ((j, w) ∷ d) = elim (Bool-cases (j == k)) [
    | inl t ↦ rw (t, ==-eq j k t) (either_twice (k == v) (listed v (keys d)))
    | inr f ↦ rw (f, listed-put v k value d) (||_assoc (j == v) (listed v (keys d)) (k == v))
  ]

pub listed-collect :
    (v : ℕ) (casts : List FrostRound2Cast) (d : Dict ℕ (Dict ℕ Bytes))
    → listed v (keys (collect_shares casts d)) ≡ (listed v (keys d) || has_cast v casts)
unfolding collect_shares add_share
listed-collect v [] d = or_false (listed v (keys d))
listed-collect v (cast ∷ casts) d =
    listed-collect v casts (add_share cast d)
    ∙ (ap (λ b. b || has_cast v casts) (listed-put v cast.key.val_idx _ d)
        ∙ sym (||_assoc (listed v (keys d)) (cast.key.val_idx == v) (has_cast v casts)))

pub collect-Distinct :
    (casts : List FrostRound2Cast) (d : Dict ℕ (Dict ℕ Bytes))
    → Distinct (keys d)
    → Distinct (keys (collect_shares casts d))
unfolding collect_shares add_share
collect-Distinct [] d h = h
collect-Distinct (cast ∷ casts) d h =
    collect-Distinct casts (add_share cast d) (keys-put-Distinct cast.key.val_idx _ d h)
