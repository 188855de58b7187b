-- ===== src/Dkg/ShareIndices.antt =====
-- dkg/protocols.py: the share indices when operators are added or one is replaced.
use distributed_validator_sp.Base.{
  suc, ◌+◌, ◌≡◌, ◌≢◌, refl, sym, ap, ◌∙◌, true, false, ||_parts, List, [], ◌∷◌, ◌++◌, ◌==◌, nat_eq,
  list_eq, ==-eq, ==-ne, ==-refl, length, ok, guard, guard-eq-ok, >>=-eq-ok, Bool-cases, inl, inr,
  arith,
}
use distributed_validator_sp.Types.{Bytes}
use distributed_validator_sp.Dkg.Protocols.{
  among, add_operators_participants, index_of, set_at, replace_operator_participants,
  ceremony_share_index, old_not_found,
}

among-append :
    (enr : Bytes) (enrs new : List Bytes) → among enr enrs ≡ true → among enr (enrs ++ new) ≡ true
unfolding among
among-append enr [] new h = cc
among-append enr (other ∷ enrs) new h = ground (arith, among-append enr enrs new)

among-append_new :
    (enr : Bytes) (enrs new : List Bytes)
    → among enr enrs ≡ false
    → among enr (enrs ++ new) ≡ among enr new
unfolding among
among-append_new enr [] new h = refl
among-append_new enr (other ∷ enrs) new h = ground (arith, among-append_new enr enrs new)

index_of-append :
    (enr : Bytes) (enrs new : List Bytes)
    → among enr enrs ≡ true
    → index_of enr (enrs ++ new) ≡ index_of enr enrs
unfolding among index_of
index_of-append enr [] new h = cc
index_of-append enr (other ∷ enrs) new h = ground (arith, index_of-append enr enrs new)

index_of-append_new :
    (enr : Bytes) (enrs new : List Bytes)
    → among enr enrs ≡ false
    → index_of enr (enrs ++ new) ≡ length enrs + index_of enr new
unfolding among index_of
index_of-append_new enr [] new h = omega arith
index_of-append_new enr (other ∷ enrs) new h = ground (arith, index_of-append_new enr enrs new)

-- Adding operators keeps the share index of every operator, and the new ones have the indices that
-- follow, in their order.
pub added_indices :
    (operators new : List Bytes) (enr : Bytes)
    → (among enr operators ≡ true
        → ceremony_share_index (add_operators_participants operators new) enr
          ≡ ceremony_share_index operators enr)
      × (among enr operators ≡ false
          → among enr new ≡ true
          → ceremony_share_index (add_operators_participants operators new) enr
            ≡ ok (length operators + (index_of enr new + 1)))
unfolding ceremony_share_index add_operators_participants
added_indices operators new enr = (
  λ h. rw (among-append enr operators new h, h, index_of-append enr operators new h) refl,
  λ h k.
      rw (among-append_new enr operators new h, k, index_of-append_new enr operators new h)
        (ap ok (omega arith)),
)

-- The replacement stands where the replaced operator stood.
set_at-new :
    (old new : Bytes) (enrs : List Bytes)
    → among old enrs ≡ true
    → among new enrs ≡ false
    → (among new (set_at (index_of old enrs) new enrs) ≡ true)
      × (index_of new (set_at (index_of old enrs) new enrs) ≡ index_of old enrs)
unfolding among index_of set_at
set_at-new old new [] h k = cc
set_at-new old new (other ∷ enrs) h k =
    let (p, q) = ||_parts (other == new) (among new enrs) k in
    elim (Bool-cases (other == old)) [
      | inl t ↦ rw (t, ==-refl new) (refl, refl)
      | inr f ↦
          let (a, i) = set_at-new old new enrs (rw f at h) q in rw f (rw (p, a) (refl, ap suc i))
    ]

-- Every other operator stands where it stood.
set_at-other :
    (old new enr : Bytes) (enrs : List Bytes)
    → old ≢ enr
    → new ≢ enr
    → (among enr (set_at (index_of old enrs) new enrs) ≡ among enr enrs)
      × (index_of enr (set_at (index_of old enrs) new enrs) ≡ index_of enr enrs)
unfolding among index_of set_at
set_at-other old new enr [] n m = (refl, refl)
set_at-other old new enr (other ∷ enrs) n m = elim (Bool-cases (other == old)) [
  | inl t ↦
      let e : (other == enr) ≡ false = ==-ne other enr (λ p. n (sym (==-eq other old t) ∙ p)) in
      rw t (rw (==-ne new enr m, e) (refl, refl))
  | inr f ↦ let (a, i) = set_at-other old new enr enrs n m in rw f (rw (a, i) (refl, refl))
]

-- Replacing an operator by one that is not in the cluster gives the new one the share index of the
-- old one, and every operator that stays keeps its own.
pub replaced_indices :
    (operators : List Bytes) (old new : Bytes) (participants : List Bytes)
    → among new operators ≡ false
    → replace_operator_participants operators old new ≡ ok participants
    → (ceremony_share_index participants new ≡ ceremony_share_index operators old)
      × ((enr : Bytes)
          → old ≢ enr
          → new ≢ enr
          → ceremony_share_index participants enr ≡ ceremony_share_index operators enr)
unfolding ceremony_share_index replace_operator_participants
replaced_indices operators old new participants h e =
    let (u, p, q) = >>=-eq-ok (guard (among old operators) old_not_found) _ e in
    let found = guard-eq-ok (among old operators) old_not_found p in
    let same : set_at (index_of old operators) new operators ≡ participants = cc in
    let (a, i) = set_at-new old new operators found h in
    (
      rw (← same) (rw (a, i, found) refl),
      λ enr n m.
          (let (b, j) = set_at-other old new enr operators n m in rw (← same) (rw (b, j) refl)),
    )
