-- ===== src/Cluster/Shares.antt =====
-- src/dv_spec/cluster/verification.py: the structure of the public shares of a lock.
use distributed_validator_sp.Base.{
  ℕ, ◌≡◌, ◌≢◌, ◌↔◌, refl, sym, false, not, ||_parts, List, [], ◌∷◌, ◌==◌, nat_eq, list_eq, ==-ne,
  ==-eq, ==-refl, ==-sound, map, length, All, Distinct, ok, guard, guard-eq-ok, guard-not-eq-ok,
  checks_iff,
}
use distributed_validator_sp.Types.{Bytes}
use distributed_validator_sp.Crypto.{share_count_mismatch, repeated_pubkey, repeated_share}
use distributed_validator_sp.Cluster.Definition.{num_operators}
use distributed_validator_sp.Cluster.Lock.{DistValidator, Lock}
use distributed_validator_sp.Cluster.Verification.{
  contains, repeats, check_validators, verify_pubshare_counts,
}

-- `value` is none of the values.
abbrev pub Absent : Bytes → List Bytes → Type 0
Absent value = All (λ other. value ≢ other)

contains_iff :
    (value : Bytes) (values : List Bytes) → (contains value values ≡ false) ↔ Absent value values
unfolding contains
contains_iff value [] = (λ h. tt, λ h. refl)
contains_iff value (other ∷ values) = (
  λ h.
      (let (p, q) = ||_parts (other == value) (contains value values) h in
        (λ e. ==-sound other value p (sym e), (contains_iff value values).0 q)),
  λ (p, q). rw (==-ne other value (λ e. p (sym e))) ((contains_iff value values).1 q),
)

repeats_iff : (shares : List Bytes) → (repeats shares ≡ false) ↔ Distinct shares
unfolding repeats
repeats_iff [] = (λ h. tt, λ h. refl)
repeats_iff (share ∷ shares) = (
  λ h.
      (let (p, q) = ||_parts (contains share shares) (repeats shares) h in
        ((contains_iff share shares).0 p, (repeats_iff shares).0 q)),
  λ (p, q). rw ((contains_iff share shares).1 p) ((repeats_iff shares).1 q),
)

abbrev pub pubkey_of : DistValidator → Bytes
pubkey_of validator = validator.pubkey

-- One public share for each of `expected` operators, none of them twice.
abbrev pub HasShares : ℕ → DistValidator → Type 0
HasShares expected validator =
    (length validator.pubshares ≡ expected) × Distinct validator.pubshares

-- None of the keys is among those seen.
abbrev AllAbsent : List Bytes → List Bytes → Type 0
AllAbsent seen = All (λ key. Absent key seen)

absent_later :
    (key : Bytes) (seen keys : List Bytes)
    → AllAbsent (key ∷ seen) keys
    → All (λ other. key ≢ other) keys × AllAbsent seen keys
absent_later key seen [] h = (tt, tt)
absent_later key seen (k ∷ keys) h =
    let (p, q) = absent_later key seen keys h.1 in ((λ e. h.0.0 (sym e), p), (h.0.1, q))

absent_earlier :
    (key : Bytes) (seen keys : List Bytes)
    → All (λ other. key ≢ other) keys
    → AllAbsent seen keys
    → AllAbsent (key ∷ seen) keys
absent_earlier key seen [] h a = tt
absent_earlier key seen (k ∷ keys) h a =
    ((λ e. h.0 (sym e), a.0), absent_earlier key seen keys h.1 a.1)

check_validators_sound :
    (expected : ℕ) (seen : List Bytes) (validators : List DistValidator)
    → check_validators expected seen validators ≡ ok tt
    → All (HasShares expected) validators
      × AllAbsent seen (map pubkey_of validators)
      × Distinct (map pubkey_of validators)
unfolding check_validators
check_validators_sound expected seen [] h = (tt, tt, tt)
check_validators_sound expected seen (v ∷ validators) h =
    let (count, h₁) =
      (checks_iff (guard (length v.pubshares == expected) share_count_mismatch) _).0 h in
    let (new, h₂) = (checks_iff (guard (not (contains v.pubkey seen)) repeated_pubkey) _).0 h₁ in
    let (distinct, h₃) = (checks_iff (guard (not (repeats v.pubshares)) repeated_share) _).0 h₂ in
    let (all, absent, keys) = check_validators_sound expected (v.pubkey ∷ seen) validators h₃ in
    let (others, earlier) = absent_later v.pubkey seen (map pubkey_of validators) absent in
    (
      (
        (
          ==-eq (length v.pubshares) expected (guard-eq-ok _ _ count),
          (repeats_iff v.pubshares).0 (guard-not-eq-ok _ _ distinct),
        ),
        all,
      ),
      ((contains_iff v.pubkey seen).0 (guard-not-eq-ok _ _ new), earlier),
      (others, keys),
    )

check_validators_complete :
    (expected : ℕ) (seen : List Bytes) (validators : List DistValidator)
    → All (HasShares expected) validators
    → AllAbsent seen (map pubkey_of validators)
    → Distinct (map pubkey_of validators)
    → check_validators expected seen validators ≡ ok tt
unfolding check_validators
check_validators_complete expected seen [] h a d = refl
check_validators_complete expected seen (v ∷ validators) h a d =
    rw
      (
        h.0.0,
        ==-refl expected,
        (contains_iff v.pubkey seen).1 a.0,
        (repeats_iff v.pubshares).1 h.0.1,
      )
      (check_validators_complete expected (v.pubkey ∷ seen) validators h.1
        (absent_earlier v.pubkey seen (map pubkey_of validators) d.0 a.1) d.1)

absent_nothing : (keys : List Bytes) → AllAbsent [] keys
absent_nothing [] = tt
absent_nothing (k ∷ keys) = (tt, absent_nothing keys)

-- verify_pubshare_counts accepts exactly the locks in which every validator has one public share for
-- each operator and none twice, and no two validators have the same group public key.
pub pubshare_counts_iff :
    (lock : Lock)
    → (verify_pubshare_counts lock ≡ ok tt)
      ↔ All (HasShares (num_operators lock.definition)) lock.validators
        × Distinct (map pubkey_of lock.validators)
unfolding verify_pubshare_counts
pubshare_counts_iff lock =
    let expected = num_operators lock.definition in
    (
      λ h. (let (p, q, r) = check_validators_sound expected [] lock.validators h in (p, r)),
      λ (p, r).
          check_validators_complete expected [] lock.validators p
            (absent_nothing (map pubkey_of lock.validators)) r,
    )
