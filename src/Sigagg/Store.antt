-- ===== src/Sigagg/Store.antt =====
-- threshold.py: the branches of `store_partial_signature`, and one slot for each share index.
use distributed_validator_sp.Base.{
  ℕ, ◌≡◌, ◌≢◌, refl, Bool, true, false, Option, none, some, List, [], ◌∷◌, ◌++◌, ◌==◌, nat_eq,
  ==-eq, ==-sound, Result, ok, err, All, Distinct, Memᴰ, Bool-cases, if◌then◌else◌, inl, inr, arith,
  sym, ap, subst, All-append,
}
use distributed_validator_sp.Sigagg.{
  SigaggError, mismatching_data, PartialSignature, signature_eq, check_stored,
  store_partial_signature,
}

-- What the call does, with the reason for it.
pub data StoreCase (stored : List PartialSignature) (x : PartialSignature)
    : Result SigaggError (Option (List PartialSignature)) → Type 0 where
  added :
      All (λ e. e.share_idx ≢ x.share_idx) stored
      → StoreCase stored x (ok (some (stored ++ x ∷ [])))
  duplicate : Memᴰ x stored → StoreCase stored x (ok none)
  mismatch :
      (e : PartialSignature)
      → Memᴰ e stored
      → e.share_idx ≡ x.share_idx
      → e ≢ x
      → StoreCase stored x (err mismatching_data)

data CheckCase (stored : List PartialSignature) (x : PartialSignature)
    : Result SigaggError Bool → Type 0 where
  fresh : All (λ e. e.share_idx ≢ x.share_idx) stored → CheckCase stored x (ok true)
  repeated : Memᴰ x stored → CheckCase stored x (ok false)
  clash :
      (e : PartialSignature)
      → Memᴰ e stored
      → e.share_idx ≡ x.share_idx
      → e ≢ x
      → CheckCase stored x (err mismatching_data)

later_case :
    (e x : PartialSignature) (stored : List PartialSignature) (r : Result SigaggError Bool)
    → e.share_idx ≢ x.share_idx
    → CheckCase stored x r
    → CheckCase (e ∷ stored) x r
later_case e x stored r n (fresh a) = fresh (n, a)
later_case e x stored r n (repeated m) = repeated (Memᴰ.tail m)
later_case e x stored r n (clash c m s d) = clash c (Memᴰ.tail m) s d

check_case :
    (stored : List PartialSignature) (x : PartialSignature)
    → CheckCase stored x (check_stored stored x)
unfolding check_stored
check_case [] x = fresh tt
check_case (e ∷ stored) x = elim (Bool-cases (e.share_idx == x.share_idx)) [
  | inr f ↦ rw f (
      later_case e x stored (check_stored stored x) (==-sound e.share_idx x.share_idx f)
        (check_case stored x))
  | inl t ↦ (elim (Bool-cases (e == x)) [
    | inl s ↦ rw (s, t) (repeated (Memᴰ.head (sym (==-eq e x s))))
    | inr s ↦
        rw (s, t) (clash e (Memᴰ.head refl) (==-eq e.share_idx x.share_idx t) (==-sound e x s))
  ])
]

-- Each result of store_partial_signature has its reason: the signature is appended when its share
-- index is new, ignored when it is stored already, and refused when another one has its index.
pub store_case :
    (stored : List PartialSignature) (x : PartialSignature)
    → StoreCase stored x (store_partial_signature stored x)
unfolding store_partial_signature
store_case stored x = go (check_stored stored x) (check_case stored x)
  where
    go :
        (r : Result SigaggError Bool)
        → CheckCase stored x r
        → StoreCase stored x
            (elim r [ err e ↦ err e | ok b ↦ ok (if b then some (stored ++ x ∷ []) else none) ])
    go r (fresh a) = added a
    go r (repeated m) = duplicate m
    go r (clash e m s n) = mismatch e m s n

abbrev pub share_indices : List PartialSignature → List ℕ
share_indices [] = []
share_indices (x ∷ xs) = x.share_idx ∷ share_indices xs

indices-append :
    (xs : List PartialSignature) (x : PartialSignature)
    → share_indices (xs ++ x ∷ []) ≡ share_indices xs ++ x.share_idx ∷ []
indices-append [] x = refl
indices-append (y ∷ ys) x = ap (λ l. y.share_idx ∷ l) (indices-append ys x)

indices-All :
    (i : ℕ) (xs : List PartialSignature)
    → All (λ e. e.share_idx ≢ i) xs
    → All (λ j. j ≢ i) (share_indices xs)
indices-All i [] h = tt
indices-All i (x ∷ xs) h = (h.0, indices-All i xs h.1)

Distinct-append :
    (is : List ℕ) (i : ℕ) → Distinct is → All (λ j. j ≢ i) is → Distinct (is ++ i ∷ [])
Distinct-append [] i h n = (tt, tt)
Distinct-append (j ∷ is) i h n =
    (All-append (λ k. j ≢ k) is (i ∷ []) h.0 (n.0, tt), Distinct-append is i h.1 n.1)

-- Where the stored signatures have distinct share indices, so has the list that
-- store_partial_signature returns.
pub store-Distinct :
    (stored : List PartialSignature) (x : PartialSignature) (next : List PartialSignature)
    → Distinct (share_indices stored)
    → store_partial_signature stored x ≡ ok (some next)
    → Distinct (share_indices next)
store-Distinct stored x next d h = go (store_partial_signature stored x) (store_case stored x) h
  where
    go :
        (r : Result SigaggError (Option (List PartialSignature)))
        → StoreCase stored x r
        → r ≡ ok (some next)
        → Distinct (share_indices next)
    go r (added a) e =
        let same : stored ++ x ∷ [] ≡ next = ground arith in
        subst (λ l. Distinct (share_indices l)) same
          (rw (indices-append stored x) (
            Distinct-append (share_indices stored) x.share_idx d
              (indices-All x.share_idx stored a)))
    go r (duplicate m) e = absurd (ground arith)
    go r (mismatch c m s n) e = absurd (cc)
