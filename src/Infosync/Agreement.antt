-- ===== src/Infosync/Agreement.antt =====
-- infosync.py: the result that is added last is the one in force, on every node.
use distributed_validator_sp.Base.{
  ℕ, ◌≤◌, ◌≡◌, ◌≢◌, refl, sym, ap, ◌∙◌, subst, true, false, &&_parts, Option, none, some, List, [],
  ◌∷◌, ◌++◌, ◌==◌, nat_eq, list_eq, ==-eq, length, leb, All-mono, Bool-cases, le→ltb, leb→le, inl,
  inr, arith,
}
use distributed_validator_sp.Types.{Bytes}
use distributed_validator_sp.Infosync.{
  InfoSyncResult, result_beq, is_last, drop_first, add_result, latest_from, latest_result,
  selected_protocols, most_preferred_consensus_protocol,
}
use distributed_validator_sp.Infosync.History.{UpTo}

result_beq_sound : (a b : InfoSyncResult) → result_beq a b ≡ true → a ≡ b
result_beq_sound a b h =
    let (p, h₁) = &&_parts (a.slot == b.slot) _ h in
    let (q, h₂) = &&_parts (a.versions == b.versions) _ h₁ in
    let (r, s) = &&_parts (a.protocols == b.protocols) _ h₂ in
    λ i. record {
      slot = ==-eq a.slot b.slot p i;
      versions = ==-eq a.versions b.versions q i;
      protocols = ==-eq a.protocols b.protocols r i;
      proposals = ==-eq a.proposals b.proposals s i;
    }

latest_from-last :
    (found : Option InfoSyncResult) (results : List InfoSyncResult) (result : InfoSyncResult)
    (slot : ℕ)
    → UpTo slot results
    → result.slot ≤ slot
    → latest_from found (results ++ result ∷ []) slot ≡ some result
unfolding latest_from
latest_from-last found [] result slot u h = rw (le→ltb slot result.slot h) refl
latest_from-last found (r ∷ results) result slot u h =
    rw (le→ltb slot r.slot u.0) (latest_from-last (some r) results result slot u.1 h)

is_last-front :
    (results : List InfoSyncResult) (result : InfoSyncResult)
    → is_last results result ≡ true
    → (front : List InfoSyncResult) × (results ≡ front ++ result ∷ [])
unfolding is_last
is_last-front [] result h = cc
is_last-front (r ∷ []) result h = ([], ap (λ x. x ∷ []) (result_beq_sound r result h))
is_last-front (r ∷ s ∷ results) result h =
    let (front, e) = is_last-front (s ∷ results) result h in (r ∷ front, ap (λ l. r ∷ l) e)

drop_first-append :
    (results : List InfoSyncResult) (result : InfoSyncResult)
    → 100 ≤ length (results ++ result ∷ [])
    → (rest : List InfoSyncResult) × (drop_first (results ++ result ∷ []) ≡ rest ++ result ∷ [])
      × ((slot : ℕ) → UpTo slot results → UpTo slot rest)
unfolding drop_first
drop_first-append [] result h = absurd (omega arith)
drop_first-append (r ∷ results) result h = (results, refl, λ slot u. u.1)

UpTo-front :
    (front : List InfoSyncResult) (result : InfoSyncResult) (slot : ℕ)
    → UpTo slot (front ++ result ∷ [])
    → UpTo slot front
UpTo-front [] result slot u = tt
UpTo-front (r ∷ front) result slot u = (u.0, UpTo-front front result slot u.1)

length-nonempty : (versions : List Bytes) → versions ≢ [] → (length versions == 0) ≡ false
length-nonempty [] v = absurd (v refl)
length-nonempty (x ∷ versions) v = ground arith

-- The result stands last in the history that it is added to.
add_result-last :
    (results : List InfoSyncResult) (result : InfoSyncResult)
    → UpTo result.slot results
    → result.versions ≢ []
    → (front : List InfoSyncResult) × (add_result results result ≡ front ++ result ∷ [])
      × UpTo result.slot front
unfolding add_result
add_result-last results result u v =
    let f = length-nonempty result.versions v in
    elim (Bool-cases (is_last results result)) [
      | inl t ↦
          let (front, e) = is_last-front results result t in
          (front, rw (f, t) e, UpTo-front front result result.slot (subst (UpTo result.slot) e u))
      | inr g ↦ elim (Bool-cases (leb 100 (length (results ++ result ∷ [])))) [
        | inl t ↦
            let (rest, e, keeps) =
              drop_first-append results result (leb→le 100 (length (results ++ result ∷ [])) t) in
            (rest, rw (f, g, t) e, keeps result.slot u)
        | inr h ↦ (results, rw (f, g, h) refl, u)
      ]
    ]

-- A result with versions, added to a history with nothing newer, is the one for every slot from its
-- own on.
pub latest-add_result :
    (results : List InfoSyncResult) (result : InfoSyncResult) (slot : ℕ)
    → UpTo result.slot results
    → result.versions ≢ []
    → result.slot ≤ slot
    → latest_result (add_result results result) slot ≡ some result
unfolding latest_result
latest-add_result results result slot u v h =
    let (front, e, upto) = add_result-last results result u v in
    rw e (
      latest_from-last none front result slot
        (All-mono (λ r. r.slot ≤ result.slot) (λ r. r.slot ≤ slot) front
          (λ r k. omega (arith, h, k)) upto)
        h)

selected_agreed :
    (results : List InfoSyncResult) (result : InfoSyncResult) (slot : ℕ) (own : List Bytes)
    → UpTo result.slot results
    → result.versions ≢ []
    → result.slot ≤ slot
    → selected_protocols (add_result results result) slot own ≡ result.protocols
unfolding selected_protocols
selected_agreed results result slot own u v h =
    rw (latest-add_result results result slot u v h, selected_protocols) refl

-- Two nodes with whatever histories of nothing newer, and whatever protocols of their own, select
-- the same protocols for every slot from that of a result on, once both have added it, and so the
-- same consensus protocol.
pub same_selection :
    (one other : List InfoSyncResult) (result : InfoSyncResult) (slot : ℕ) (own others : List Bytes)
    → UpTo result.slot one
    → UpTo result.slot other
    → result.versions ≢ []
    → result.slot ≤ slot
    → (selected_protocols (add_result one result) slot own
        ≡ selected_protocols (add_result other result) slot others)
      × (most_preferred_consensus_protocol (selected_protocols (add_result one result) slot own)
          ≡ most_preferred_consensus_protocol
              (selected_protocols (add_result other result) slot others))
same_selection one other result slot own others u w v h =
    let p =
      selected_agreed one result slot own u v h
      ∙ sym (selected_agreed other result slot others w v h) in
    (p, ap most_preferred_consensus_protocol p)
