-- ===== src/Base/Raise.antt =====
-- A computation that may raise: `err raised` stands for an exception of the kind `raised`.
use mathlib.Core.Path.{◌≡◌, refl}
use mathlib.Core.Logic.{◌⊎◌, ◌↔◌, inl, inr}
use mathlib.Core.Bool.{Bool, true, false, not}

pub data Result {ℓ κ} (Raised : Type ℓ) (Value : Type κ) : Type (ℓ ⊔ κ) where
  err : Raised → Result Raised Value
  ok : Value → Result Raised Value

module _ {ℓ} {Raised : Type ℓ} where
  -- if not test: raise e
  abbrev pub guard : Bool → Raised → Result Raised (Unit {0})
  guard test e = elim test [ false ↦ err e | true ↦ ok tt ]

pub Result-cases {ℓ κ} :
    {Raised : Type ℓ} {Value : Type κ} (r : Result Raised Value)
    → ((e : Raised) × (r ≡ err e)) ⊎ ((v : Value) × (r ≡ ok v))
Result-cases (err e) = inl (e, refl)
Result-cases (ok v) = inr (v, refl)

module _ {ℓ κ ι} {Raised : Type ℓ} {Value : Type κ} {Next : Type ι} where
  infixl 5 ◌>>=◌
  abbrev pub ◌>>=◌ : Result Raised Value → (Value → Result Raised Next) → Result Raised Next
  err e >>= rest = err e
  ok value >>= rest = rest value

  -- A chain that returns has a first part that returns.
  pub >>=-eq-ok :
      (first : Result Raised Value) (rest : Value → Result Raised Next) {last : Next}
      → (first >>= rest) ≡ ok last
      → (value : Value) × (first ≡ ok value) × (rest value ≡ ok last)
  >>=-eq-ok (err e) rest returns = cc
  >>=-eq-ok (ok value) rest returns = (value, refl, returns)

  pub >>=-ext :
      (first : Result Raised Value) {f g : Value → Result Raised Next}
      → ((value : Value) → f value ≡ g value)
      → (first >>= f) ≡ (first >>= g)
  >>=-ext (err e) h = refl
  >>=-ext (ok value) h = h value

module _ {ℓ κ} {Raised : Type ℓ} {Next : Type κ} where
  infixl 5 ◌>>◌
  abbrev pub ◌>>◌ : Result Raised (Unit {0}) → Result Raised Next → Result Raised Next
  checked >> rest = checked >>= λ _. rest

module _ {ℓ} {Raised : Type ℓ} where
  pub guard-eq-ok : (test : Bool) (e : Raised) → guard test e ≡ ok tt → test ≡ true
  guard-eq-ok true e h = refl
  guard-eq-ok false e h = cc

  pub guard-not-eq-ok : (test : Bool) (e : Raised) → guard (not test) e ≡ ok tt → test ≡ false
  guard-not-eq-ok true e h = cc
  guard-not-eq-ok false e h = refl

  -- A check, and another one after it.
  pub checks_iff :
      (first second : Result Raised (Unit {0}))
      → ((first >> second) ≡ ok tt) ↔ (first ≡ ok tt) × (second ≡ ok tt)
  checks_iff (err e) second = (λ h. cc, λ h. cc)
  checks_iff (ok t) second = (λ h. (refl, h), λ h. h.1)
