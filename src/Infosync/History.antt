-- ===== src/Infosync/History.antt =====
-- infosync.py: the history of agreed results, and the result that governs a slot.
use distributed_validator_sp.Base.{
  ℕ, ◌≤◌, ◌<◌, ◌≡◌, refl, none, some, List, [], ◌∷◌, ◌++◌, ◌==◌, nat_eq, list_eq, length,
  length-append, ltb, leb, All, All-append, All-mono, Bool-cases, ltb→lt, ltb→le, inl, inr, ◌⊎◌,
  Memᴰ, arith,
}
use distributed_validator_sp.Infosync.{
  InfoSyncResult, is_last, drop_first, add_result, latest_from, latest_result, max_results,
}

abbrev pub UpTo : ℕ → List InfoSyncResult → Type 0
UpTo slot = All (λ r. r.slot ≤ slot)

-- The slots do not fall.
abbrev pub InOrder : List InfoSyncResult → Type 0
InOrder [] = Unit
InOrder (r ∷ results) = All (λ s. r.slot ≤ s.slot) results × InOrder results

abbrev pub IsHistory : List InfoSyncResult → Type 0
IsHistory results = (length results < max_results) × InOrder results

InOrder-append :
    (results : List InfoSyncResult) (result : InfoSyncResult)
    → InOrder results
    → UpTo result.slot results
    → InOrder (results ++ result ∷ [])
InOrder-append [] result h u = (tt, tt)
InOrder-append (r ∷ results) result h u = (
  All-append (λ s. r.slot ≤ s.slot) results (result ∷ []) h.0 (u.0, tt),
  InOrder-append results result h.1 u.1,
)

drop_first-InOrder : (l : List InfoSyncResult) → InOrder l → InOrder (drop_first l)
unfolding drop_first
drop_first-InOrder [] h = tt
drop_first-InOrder (r ∷ l) h = h.1

drop_first-All : (slot : ℕ) (l : List InfoSyncResult) → UpTo slot l → UpTo slot (drop_first l)
unfolding drop_first
drop_first-All slot [] h = tt
drop_first-All slot (r ∷ l) h = h.1

length-drop_first :
    (results : List InfoSyncResult) (result : InfoSyncResult)
    → length (drop_first (results ++ result ∷ [])) ≡ length results
unfolding drop_first
length-drop_first [] result = refl
length-drop_first (r ∷ results) result = rw length-append (omega arith)

-- Adding a result that is not older than the history keeps the history below its bound and in
-- order, and no entry is newer than the result.
pub add_result-IsHistory :
    (results : List InfoSyncResult) (result : InfoSyncResult)
    → IsHistory results
    → UpTo result.slot results
    → IsHistory (add_result results result) × UpTo result.slot (add_result results result)
unfolding add_result
add_result-IsHistory results result (bound, order) u =
    elim (Bool-cases (length result.versions == 0)) [
      | inl t ↦ rw t ((bound, order), u)
      | inr f ↦ elim (Bool-cases (is_last results result)) [
        | inl t ↦ rw (f, t) ((bound, order), u)
        | inr g ↦ elim (Bool-cases (leb 100 (length (results ++ result ∷ [])))) [
          | inl t ↦
              rw (f, g, t)
                (
                  (trimmed, drop_first-InOrder (results ++ result ∷ []) ordered),
                  drop_first-All result.slot (results ++ result ∷ []) upto,
                )
          | inr h ↦ rw (f, g, h) ((ground arith, ordered), upto)
        ]
      ]
    ]
  where
    ordered : InOrder (results ++ result ∷ [])
    ordered = InOrder-append results result order u

    upto : UpTo result.slot (results ++ result ∷ [])
    upto = All-append (λ r. r.slot ≤ result.slot) results (result ∷ []) u (omega arith, tt)

    trimmed : length (drop_first (results ++ result ∷ [])) < 100
    trimmed = omega (arith, bound, length-drop_first results result)

-- `r` is the newest entry of the list that is not after the slot.
abbrev pub Governs : InfoSyncResult → List InfoSyncResult → ℕ → Type 0
Governs r results slot =
    Memᴰ r results × (r.slot ≤ slot) × All (λ s. s.slot ≤ slot → s.slot ≤ r.slot) results

latest_from-some :
    (found : InfoSyncResult) (results : List InfoSyncResult) (slot : ℕ)
    → InOrder (found ∷ results)
    → found.slot ≤ slot
    → (r : InfoSyncResult) × (latest_from (some found) results slot ≡ some r)
      × Governs r (found ∷ results) slot
unfolding latest_from
latest_from-some found [] slot h k = (found, refl, (Memᴰ.head refl, k, ((λ _. omega arith), tt)))
latest_from-some found (x ∷ results) slot h k = elim (Bool-cases (ltb slot x.slot)) [
  | inl t ↦ (
    found,
    rw t refl,
    (
      Memᴰ.head refl,
      k,
      (
        (λ _. omega arith),
        (
          (λ e. absurd (omega (arith, e, ltb→lt slot x.slot t))),
          All-mono (λ s. x.slot ≤ s.slot) _ results
              (λ s g e. absurd (omega (arith, g, e, ltb→lt slot x.slot t))) h.1.0,
        ),
      ),
    ),
  )
  | inr f ↦
      let (r, e, (m, l, a)) = latest_from-some x results slot h.1 (ltb→le slot x.slot f) in
      (r, rw f e, (Memᴰ.tail m, l, ((λ _. omega (arith, h.0.0, a.0 (ltb→le slot x.slot f))), a)))
]

-- In a history in order the result for a slot is the newest one that is not after it, and there is
-- none exactly if all are after it.
pub latest_newest :
    (results : List InfoSyncResult) (slot : ℕ)
    → InOrder results
    → ((r : InfoSyncResult) × (latest_result results slot ≡ some r) × Governs r results slot)
      ⊎ ((latest_result results slot ≡ none) × All (λ s. slot < s.slot) results)
unfolding latest_result latest_from
latest_newest [] slot h = inr (refl, tt)
latest_newest (x ∷ results) slot h = elim (Bool-cases (ltb slot x.slot)) [
  | inl t ↦ inr (
    rw t refl,
    (
      ltb→lt slot x.slot t,
      All-mono (λ s. x.slot ≤ s.slot) _ results (λ s g. omega (arith, g, ltb→lt slot x.slot t)) h.0,
    ),
  )
  | inr f ↦
      let (r, e, g) = latest_from-some x results slot h (ltb→le slot x.slot f) in inl (r, rw f e, g)
]
