-- ===== src/Base/Equality.antt =====
-- Python's `==` as an interface: a Boolean test that decides equality.
use Prim.Native.Nat.{ℕ}
use mathlib.Core.Path.{◌≡◌, refl, ap, ap₂}
use mathlib.Core.Logic.{◌↔◌, ◌≢◌, ◌⊎◌, inl, inr}
use mathlib.Core.Bool.{Bool, true, false, ◌&&◌}
use mathlib.Core.Option.{Option, none, some}
use mathlib.Core.List.{List, [], ◌∷◌}
use distributed_validator_sp.Base.Tests.{nat_beq, nat_beq_iff, Bool-cases, &&_parts}

-- Instances compute in tests.
pub record Eq {ℓ} (Key : Type ℓ) : Type ℓ where
  pub equal : Key → Key → Bool
  pub equal_iff : (x y : Key) → (equal x y ≡ true) ↔ (x ≡ y)

infix 50 ◌==◌
-- The test of the instance that the type has.
abbrev pub ◌==◌ {κ} : {Key : Type κ} ⦃it : Eq Key⦄ → Key → Key → Bool
◌==◌ ⦃it⦄ = it.equal

-- An `int`.
instance abbrev pub nat_eq : Eq ℕ
nat_eq = record { equal = nat_beq; equal_iff = nat_beq_iff }

module _ {ℓ} {A : Type ℓ} ⦃e : Eq A⦄ where
  pub ==-refl : (a : A) → (a == a) ≡ true
  ==-refl a = (e.equal_iff a a).1 refl

  pub ==-eq : (a b : A) → (a == b) ≡ true → a ≡ b
  ==-eq a b h = (e.equal_iff a b).0 h

  pub ==-ne : (a b : A) → a ≢ b → (a == b) ≡ false
  ==-ne a b h = elim (Bool-cases (a == b)) [ inl t ↦ absurd (h (==-eq a b t)) | inr f ↦ f ]

  pub ==-sound : (a b : A) → (a == b) ≡ false → a ≢ b
  ==-sound a b h p = cc ((e.equal_iff a b).1 p)

  pub ==_cases : (a b : A) → (a ≡ b) ⊎ ((a == b) ≡ false)
  ==_cases a b = elim (Bool-cases (a == b)) [ inl t ↦ inl (==-eq a b t) | inr f ↦ inr f ]

  abbrev option_beq : Option A → Option A → Bool
  option_beq none none = true
  option_beq (some a) (some b) = a == b
  option_beq _ _ = false

  pub option_beq_iff : (x y : Option A) → (option_beq x y ≡ true) ↔ (x ≡ y)
  option_beq_iff none none = (λ _. refl, λ _. refl)
  option_beq_iff none (some b) = (λ h. cc, λ h. cc)
  option_beq_iff (some a) none = (λ h. cc, λ h. cc)
  option_beq_iff (some a) (some b) = (λ h. ap some (==-eq a b h), λ h. (e.equal_iff a b).1 (cc))

  abbrev list_beq : List A → List A → Bool
  list_beq [] [] = true
  list_beq (a ∷ l) (b ∷ m) = a == b && list_beq l m
  list_beq _ _ = false

  list_beq_sound : (l m : List A) → list_beq l m ≡ true → l ≡ m
  list_beq_sound [] [] h = refl
  list_beq_sound [] (b ∷ m) h = cc
  list_beq_sound (a ∷ l) [] h = cc
  list_beq_sound (a ∷ l) (b ∷ m) h =
      let p = &&_parts (a == b) (list_beq l m) h in ap₂ ◌∷◌ (==-eq a b p.0) (list_beq_sound l m p.1)

  list_beq_refl : (l : List A) → list_beq l l ≡ true
  list_beq_refl [] = refl
  list_beq_refl (a ∷ l) = rw (==-refl a) (list_beq_refl l)

  pub list_beq_iff : (l m : List A) → (list_beq l m ≡ true) ↔ (l ≡ m)
  list_beq_iff l m = (list_beq_sound l m, λ p. rw p (list_beq_refl m))

instance abbrev pub option_eq {ℓ} : {A : Type ℓ} ⦃e : Eq A⦄ → Eq (Option A)
option_eq = record { equal = option_beq; equal_iff = option_beq_iff }

instance abbrev pub list_eq {ℓ} : {A : Type ℓ} ⦃e : Eq A⦄ → Eq (List A)
list_eq = record { equal = list_beq; equal_iff = list_beq_iff }

module _ {ℓ κ} {A : Type ℓ} {B : Type κ} ⦃e : Eq A⦄ ⦃f : Eq B⦄ where
  abbrev pair_beq : A × B → A × B → Bool
  pair_beq (a, b) (c, d) = a == c && b == d

  pub pair_beq_iff : (p q : A × B) → (pair_beq p q ≡ true) ↔ (p ≡ q)
  pair_beq_iff (a, b) (c, d) = (
    λ h. (let t = &&_parts (a == c) (b == d) h in λ i. (==-eq a c t.0 i, ==-eq b d t.1 i)),
    λ h.
        (rw ((e.equal_iff a c).1 (ap (λ (p : A × B). p.0) h))
          ((f.equal_iff b d).1 (ap (λ (p : A × B). p.1) h))),
  )

instance abbrev pub pair_eq {ℓ κ} : {A : Type ℓ} {B : Type κ} ⦃e : Eq A⦄ ⦃f : Eq B⦄ → Eq (A × B)
pair_eq = record { equal = pair_beq; equal_iff = pair_beq_iff }

-- An enumeration is compared by its numbers, as an `IntEnum` is.
abbrev pub eq_by_code {ℓ} :
    {A : Type ℓ} (code : A → ℕ) → ((a b : A) → code a ≡ code b → a ≡ b) → Eq A
eq_by_code code injective = record {
  equal = λ a b. nat_beq (code a) (code b);
  equal_iff = λ a b. (
    λ h. injective a b ((nat_beq_iff (code a) (code b)).0 h),
    λ h. (nat_beq_iff (code a) (code b)).1 (ap code h),
  );
}
