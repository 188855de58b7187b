-- ===== src/Dkg/FrostChecks.antt =====
-- dkg/frost.py: what the checks of the receiver accept.
use distributed_validator_sp.Base.{
  ℕ, ◌<◌, ◌≡◌, ◌↔◌, refl, false, List, [], ◌∷◌, ◌==◌, nat_eq, ==-eq, ==-refl, leb, length, All,
  Result, ok, ◌>>◌, guard, guard-eq-ok, guard-not-eq-ok, checks_iff, arith,
}
use distributed_validator_sp.Dkg.Frost.{
  FrostError, FrostMsgKey, FrostRound1Cast, FrostRound1Casts, FrostRound1ShamirShare,
  FrostRound1P2P, FrostRound2Cast, FrostRound2Casts, verify_val_idx, verify_cast_key, for_each,
  verify_round1_cast, verify_round1_casts, verify_round2_casts, verify_p2p_share, verify_round1_p2p,
  invalid_source, invalid_target, invalid_validator_index, invalid_commitments, broadcast_target_id,
}

-- A key of the sender for a validator of the ceremony, addressed to `target`.
abbrev pub IsFrom : ℕ → ℕ → ℕ → FrostMsgKey → Type 0
IsFrom sender target num_validators key =
    (key.source_id ≡ sender) × (key.target_id ≡ target) × (key.val_idx < num_validators)

equal_iff : (a b : ℕ) (e : FrostError) → (guard (a == b) e ≡ ok tt) ↔ (a ≡ b)
equal_iff a b e = (λ h. ==-eq a b (guard-eq-ok (a == b) e h), λ h. rw (h, ==-refl b) refl)

val_idx_iff : (i n : ℕ) → (verify_val_idx i n ≡ ok tt) ↔ (i < n)
unfolding verify_val_idx
val_idx_iff i n = (
  λ h. (let f = guard-not-eq-ok (leb n i) invalid_validator_index h in ground (arith, f)),
  λ h. (let f : leb n i ≡ false = ground (arith, h) in rw f refl),
)

-- The three checks of a key, one after the other.
key_iff :
    (key : FrostMsgKey) (sender target num_validators : ℕ)
    → ((guard (key.source_id == sender) invalid_source
          >> (guard (key.target_id == target) invalid_target
              >> verify_val_idx key.val_idx num_validators))
        ≡ ok tt)
      ↔ IsFrom sender target num_validators key
key_iff key sender target num_validators =
    let first = equal_iff key.source_id sender invalid_source in
    let second = equal_iff key.target_id target invalid_target in
    let third = val_idx_iff key.val_idx num_validators in
    let outer = checks_iff (guard (key.source_id == sender) invalid_source) _ in
    let inner =
      checks_iff (guard (key.target_id == target) invalid_target)
        (verify_val_idx key.val_idx num_validators) in
    (
      λ h.
          (let (p, h') = outer.0 h in
            let (q, r) = inner.0 h' in (first.0 p, second.0 q, third.0 r)),
      λ (p, q, r). outer.1 (first.1 p, inner.1 (second.1 q, third.1 r)),
    )

-- A check that accepts exactly the items of `P` accepts exactly the lists of them.
for_each_iff {ℓ κ} :
    {Item : Type ℓ} (check : Item → Result FrostError (Unit {0})) (P : Item → Type κ)
    → ((item : Item) → (check item ≡ ok tt) ↔ P item)
    → (items : List Item) → (for_each check items ≡ ok tt) ↔ All P items
unfolding for_each
for_each_iff check P h [] = (λ e. tt, λ a. refl)
for_each_iff check P h (item ∷ items) =
    let both = checks_iff (check item) (for_each check items) in
    let rest = for_each_iff check P h items in
    (
      λ e. (let (p, q) = both.0 e in ((h item).0 p, rest.0 q)),
      λ a. both.1 ((h item).1 a.0, rest.1 a.1),
    )

cast_key_iff :
    (key : FrostMsgKey) (sender num_validators : ℕ)
    → (verify_cast_key key sender num_validators ≡ ok tt)
      ↔ IsFrom sender broadcast_target_id num_validators key
unfolding verify_cast_key
cast_key_iff key sender num_validators = key_iff key sender 0 num_validators

round1_cast_iff :
    (sender num_validators threshold : ℕ) (cast : FrostRound1Cast)
    → (verify_round1_cast sender num_validators threshold cast ≡ ok tt)
      ↔ IsFrom sender broadcast_target_id num_validators cast.key
        × (length cast.commitments ≡ threshold)
unfolding verify_round1_cast
round1_cast_iff sender num_validators threshold cast =
    let both =
      checks_iff (verify_cast_key cast.key sender num_validators)
        (guard (length cast.commitments == threshold) invalid_commitments) in
    let key = cast_key_iff cast.key sender num_validators in
    let count = equal_iff (length cast.commitments) threshold invalid_commitments in
    (λ h. (let (p, q) = both.0 h in (key.0 p, count.0 q)), λ (p, q). both.1 (key.1 p, count.1 q))

-- The receiver of a FROST round accepts exactly the bundles in which every item comes from the sender,
-- is for a validator of the ceremony, and is addressed to all in a cast and to the receiver in a
-- direct bundle; a cast of the first round has as many commitments as the threshold.
pub bundles_iff :
    (sender receiver num_validators threshold : ℕ) (one : FrostRound1Casts)
    (direct : FrostRound1P2P) (two : FrostRound2Casts)
    → ((verify_round1_casts one sender num_validators threshold ≡ ok tt)
        ↔ All
            (λ (cast : FrostRound1Cast).
              IsFrom sender broadcast_target_id num_validators cast.key
              × (length cast.commitments ≡ threshold))
            one.casts)
      × ((verify_round1_p2p direct sender receiver num_validators ≡ ok tt)
          ↔ All
              (λ (share : FrostRound1ShamirShare). IsFrom sender receiver num_validators share.key)
              direct.shares)
      × ((verify_round2_casts two sender num_validators ≡ ok tt)
          ↔ All
              (λ (cast : FrostRound2Cast).
                IsFrom sender broadcast_target_id num_validators cast.key)
              two.casts)
unfolding verify_round1_casts verify_round1_p2p verify_round2_casts verify_p2p_share
bundles_iff sender receiver num_validators threshold one direct two = (
  for_each_iff _ _ (round1_cast_iff sender num_validators threshold) one.casts,
  for_each_iff _ _ (λ share. key_iff share.key sender receiver num_validators) direct.shares,
  for_each_iff _ _ (λ cast. cast_key_iff cast.key sender num_validators) two.casts,
)
