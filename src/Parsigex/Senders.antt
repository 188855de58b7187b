-- ===== src/Parsigex/Senders.antt =====
-- parsigex/helpers.py: whose partial signatures the exchange admits.
use distributed_validator_sp.Base.{
  ℕ, ◌<◌, ◌≡◌, ◌↔◌, ◌⊎◌, refl, sym, ap, ◌∙◌, true, not, ◌||◌, some, List, [], ◌∷◌, ◌==◌, ==-eq,
  ==-sound, ==_cases, nat_eq, list_eq, leb, length, any, Dict, get, Memᴰ, ok, guard, Bool-cases,
  Option-cases, inl, inr, arith, ℤ,
}
use distributed_validator_sp.Types.{Bytes, Duty, duty_eq, duty_type_eq, exit, builder_registration}
use distributed_validator_sp.Parsigex.{
  ParSignedData, is_duty_always_accepted, gater, verify_peer_share_idx, has_share_idx, check_peers,
  validate_exchange_peers, in_range, share_index_mismatch,
}

assigned :
    (i claimed : ℕ)
    → (guard (not (leb claimed 0 || not (claimed == i))) share_index_mismatch ≡ ok tt)
      ↔ ((some i ≡ some claimed) × (0 < claimed))
assigned i claimed = elim (Bool-cases (not (leb claimed 0 || not (claimed == i)))) [
  | inl t ↦ rw t ((λ h. ground arith), (λ h. refl))
  | inr f ↦ rw f ((λ h. absurd (cc)), (λ h. absurd (ground arith)))
]

-- A partial signature passes exactly under the positive share index that is assigned to its sender.
pub sender_iff :
    (share_idx_by_peer : Dict Bytes ℕ) (sender : Bytes) (signed : ParSignedData)
    → (verify_peer_share_idx share_idx_by_peer sender signed ≡ ok tt)
      ↔ ((get sender share_idx_by_peer ≡ some signed.share_idx) × (0 < signed.share_idx))
unfolding verify_peer_share_idx
sender_iff share_idx_by_peer sender signed = elim (Option-cases (get sender share_idx_by_peer)) [
  | inl e ↦ rw (verify_peer_share_idx, e) ((λ h. absurd (cc)), (λ h. absurd (cc (h.0))))
  | inr (i, e) ↦ rw (verify_peer_share_idx, e) (assigned i signed.share_idx)
]

has_parts :
    (share_idx_by_peer : Dict Bytes ℕ) (peer : Bytes)
    → has_share_idx share_idx_by_peer peer ≡ true
    → (i : ℕ) × (get peer share_idx_by_peer ≡ some i) × (0 < i)
unfolding has_share_idx
has_parts share_idx_by_peer peer h = elim (Option-cases (get peer share_idx_by_peer)) [
  | inl e ↦ absurd (cc (rw (has_share_idx, e) at h))
  | inr (i, e) ↦ (i, e, (let k = rw (has_share_idx, e) at h in ground arith))
]

check_peers-has :
    (share_idx_by_peer : Dict Bytes ℕ) (peers : List Bytes) (peer : Bytes)
    → Memᴰ peer peers
    → check_peers share_idx_by_peer peers ≡ ok tt
    → has_share_idx share_idx_by_peer peer ≡ true
unfolding check_peers
check_peers-has m [] peer d h = elim d [ ]
check_peers-has m (p ∷ ps) peer (Memᴰ.head e) h = elim (Bool-cases (has_share_idx m p)) [
  | inl t ↦ rw e t
  | inr f ↦ absurd (cc (rw f at h))
]
check_peers-has m (p ∷ ps) peer (Memᴰ.tail d) h = elim (Bool-cases (has_share_idx m p)) [
  | inl t ↦ check_peers-has m ps peer d (rw t at h)
  | inr f ↦ absurd (cc (rw f at h))
]

-- With a configuration that validate_exchange_peers accepts, each participating peer has one share
-- index under which its partial signatures pass, and they pass under no other.
pub configured_peer :
    (peers : List Bytes) (share_idx_by_peer : Dict Bytes ℕ) (peer_idx : ℤ) (peer : Bytes)
    → validate_exchange_peers peers share_idx_by_peer peer_idx ≡ ok tt
    → Memᴰ peer peers
    → (i : ℕ) × ((signed : ParSignedData)
        → (verify_peer_share_idx share_idx_by_peer peer signed ≡ ok tt) ↔ (signed.share_idx ≡ i))
unfolding validate_exchange_peers
configured_peer peers share_idx_by_peer peer_idx peer h m =
    let checked : check_peers share_idx_by_peer peers ≡ ok tt =
      elim (Bool-cases (in_range peer_idx (length peers))) [
        | inl t ↦ rw t at h
        | inr f ↦ absurd (cc (rw f at h))
      ] in
    let (i, e, p) =
      has_parts share_idx_by_peer peer (check_peers-has share_idx_by_peer peers peer m checked) in
    (
      i,
      λ signed.
          (let s = sender_iff share_idx_by_peer peer signed in
            (
              (λ v. let same : some signed.share_idx ≡ some i = sym (s.0 v).0 ∙ e in ground arith),
              (λ q. s.1 (e ∙ ap some (sym q), rw q p)),
            )),
    )

any-Memᴰ : (duty : Duty) (l : List Duty) → (any (λ d. d == duty) l ≡ true) ↔ Memᴰ duty l
any-Memᴰ duty [] = ((λ h. absurd (cc)), (λ h. absurd (elim h [ ])))
any-Memᴰ duty (d ∷ l) = elim (Bool-cases (d == duty)) [
  | inl t ↦ rw t ((λ h. Memᴰ.head (sym (==-eq d duty t))), (λ h. refl))
  | inr f ↦ rw f (
    (λ h. Memᴰ.tail ((any-Memᴰ duty l).0 h)),
    (λ h. elim h [
      | Memᴰ.head e ↦ absurd (==-sound d duty f (sym e))
      | Memᴰ.tail m ↦ (any-Memᴰ duty l).1 m
    ]),
  )
]

-- The gater accepts exactly the expected duties, and those of voluntary exits and builder
-- registrations.
pub gater_iff :
    (expected : List Duty) (duty : Duty)
    → (gater expected duty ≡ true)
      ↔ (((duty.type ≡ exit) ⊎ (duty.type ≡ builder_registration)) ⊎ Memᴰ duty expected)
unfolding gater is_duty_always_accepted
gater_iff expected duty = elim (==_cases duty.type exit) [
  | inl e ↦ rw e ((λ h. inl (inl refl)), (λ h. refl))
  | inr f ↦ elim (==_cases duty.type builder_registration) [
    | inl e ↦ rw e ((λ h. inl (inr refl)), (λ h. refl))
    | inr g ↦
        rw (f, g)
          (
            (λ h. inr ((any-Memᴰ duty expected).0 h)),
            (λ h. elim h [
              | inl (inl e) ↦ absurd (==-sound duty.type exit f e)
              | inl (inr e) ↦ absurd (==-sound duty.type builder_registration g e)
              | inr m ↦ (any-Memᴰ duty expected).1 m
            ]),
          )
  ]
]
