-- ===== src/Dkg/Removal.antt =====
-- dkg/protocols.py: the share indices when operators are removed.
use distributed_validator_sp.Base.{
  ℕ, ◌+◌, ◌≤◌, ◌<◌, ◌≡◌, ◌↔◌, refl, Bool, true, false, not, List, [], ◌∷◌, ◌==◌, nat_eq, list_eq,
  ==-eq, ==-ne, ltb, all, length, filter, ok, guard, guard-eq-ok, >>=-eq-ok, Bool-cases, inl, inr,
  arith,
}
use distributed_validator_sp.Types.{Bytes}
use distributed_validator_sp.Dkg.Protocols.{
  removing_not_found, not_an_operator, among, remove_operators_participants, index_of,
  ceremony_share_index, new_lock_share_index,
}

among-filter :
    (p : Bytes → Bool) (enr : Bytes) (enrs : List Bytes)
    → p enr ≡ true
    → among enr enrs ≡ true
    → among enr (filter p enrs) ≡ true
unfolding among
among-filter p enr [] k h = cc
among-filter p enr (other ∷ enrs) k h = elim (Bool-cases (other == enr)) [
  | inl t ↦ let q : p other ≡ true = rw (==-eq other enr t) k in rw q (rw t refl)
  | inr f ↦
      let ih = among-filter p enr enrs k (rw f at h) in
      elim (Bool-cases (p other)) [ inl t ↦ rw t (rw (f, ih) refl) | inr g ↦ rw g ih ]
]

-- Removing does not move an element back, nor change the order of two elements.
index_of-filter :
    (p : Bytes → Bool) (enr : Bytes) (enrs : List Bytes)
    → p enr ≡ true
    → index_of enr (filter p enrs) ≤ index_of enr enrs
unfolding index_of
index_of-filter p enr [] k = omega arith
index_of-filter p enr (other ∷ enrs) k = elim (Bool-cases (other == enr)) [
  | inl t ↦ let q : p other ≡ true = rw (==-eq other enr t) k in rw (q, t) (omega arith)
  | inr f ↦
      let ih = index_of-filter p enr enrs k in
      elim (Bool-cases (p other)) [
        | inl t ↦ rw (t, f) (omega (arith, ih))
        | inr g ↦ rw (g, f) (omega (arith, ih))
      ]
]

index_of-order :
    (p : Bytes → Bool) (a b : Bytes) (enrs : List Bytes)
    → p a ≡ true
    → p b ≡ true
    → ltb (index_of a (filter p enrs)) (index_of b (filter p enrs))
      ≡ ltb (index_of a enrs) (index_of b enrs)
unfolding index_of
index_of-order p a b [] h k = refl
index_of-order p a b (other ∷ enrs) h k =
    let ih = index_of-order p a b enrs h k in
    elim (Bool-cases (p other)) [
      | inl t ↦ rw t (ground (arith, ih))
      | inr g ↦
          let m : (other == a) ≡ false = ==-ne other a (λ e. (cc (rw e at g))) in
          let n : (other == b) ≡ false = ==-ne other b (λ e. (cc (rw e at g))) in
          rw (g, m, n) (ground (arith, ih))
    ]

index_of-length :
    (enr : Bytes) (enrs : List Bytes) → among enr enrs ≡ true → index_of enr enrs < length enrs
unfolding index_of among
index_of-length enr [] h = cc
index_of-length enr (other ∷ enrs) h = elim (Bool-cases (other == enr)) [
  | inl t ↦ rw t (omega arith)
  | inr f ↦ rw f (omega (arith, index_of-length enr enrs (rw f at h)))
]

ceremony_share_index-parts :
    (enrs : List Bytes) (enr : Bytes) (i : ℕ)
    → ceremony_share_index enrs enr ≡ ok i
    → (among enr enrs ≡ true) × (index_of enr enrs + 1 ≡ i)
unfolding ceremony_share_index
ceremony_share_index-parts enrs enr i h =
    let (u, p, q) = >>=-eq-ok (guard (among enr enrs) not_an_operator) _ h in
    (guard-eq-ok (among enr enrs) not_an_operator p, cc)

order_iff :
    (x y m n i j : ℕ) → ltb x y ≡ ltb m n → m + 1 ≡ i → n + 1 ≡ j → (x + 1 < y + 1) ↔ (i < j)
order_iff x y m n i j h p q = ground (arith, h, p, q)

-- When operators are removed and the others run the ceremony, every operator that remains has an
-- index in the new lock that lies between one and the number of remaining operators, is not above its
-- index in the old lock, and has the same order to the index of any other one.
pub removed_indices :
    (operators removing remaining : List Bytes) (a b : Bytes) (i j : ℕ)
    → remove_operators_participants operators removing [] ≡ ok remaining
    → among a removing ≡ false
    → among b removing ≡ false
    → ceremony_share_index operators a ≡ ok i
    → ceremony_share_index operators b ≡ ok j
    → (i' : ℕ) × (j' : ℕ) × (new_lock_share_index remaining a ≡ ok i')
      × (new_lock_share_index remaining b ≡ ok j')
      × (1 ≤ i')
      × (i' ≤ i)
      × (i' ≤ length remaining)
      × ((i' < j') ↔ (i < j))
unfolding remove_operators_participants new_lock_share_index
removed_indices operators removing remaining a b i j e na nb ha hb =
    let keep : Bytes → Bool = λ enr. not (among enr removing) in
    let (u, p, q) =
      >>=-eq-ok (guard (all (λ enr. among enr operators) removing) removing_not_found) _ e in
    let same : filter keep operators ≡ remaining = cc in
    let ka : keep a ≡ true = rw na refl in
    let kb : keep b ≡ true = rw nb refl in
    let (ia, ea) = ceremony_share_index-parts operators a i ha in
    let (ib, eb) = ceremony_share_index-parts operators b j hb in
    let ra = among-filter keep a operators ka ia in
    let rb = among-filter keep b operators kb ib in
    (
      index_of a (filter keep operators) + 1,
      index_of b (filter keep operators) + 1,
      rw (← same) (rw ra refl),
      rw (← same) (rw rb refl),
      omega arith,
      omega (arith, ea, index_of-filter keep a operators ka),
      rw (← same) (omega (arith, index_of-length a (filter keep operators) ra)),
      order_iff _ _ _ _ i j (index_of-order keep a b operators ka kb) ea eb,
    )
