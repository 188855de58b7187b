-- ===== src/Tests/Ceremony.antt =====
-- Edits of a cluster of three operators, and the second round of a FROST ceremony.
use distributed_validator_sp.Base.{
  ℕ, ◌*◌, ◌≤◌, ◌<◌, ◌≡◌, ◌≢◌, ◌↔◌, refl, false, Option, some, List, [], ◌∷◌, replicate, length,
  Dict, All, ok, err, arith,
}
use distributed_validator_sp.Types.{Bytes}
use distributed_validator_sp.Dkg.Protocols.{
  resolve_new_threshold, invalid_threshold, among, remove_operators_participants,
  replace_operator_participants, ceremony_share_index, new_lock_share_index,
}
use distributed_validator_sp.Dkg.Thresholds.{resolved_bounds}
use distributed_validator_sp.Dkg.ShareIndices.{replaced_indices}
use distributed_validator_sp.Dkg.Removal.{removed_indices}
use distributed_validator_sp.Dkg.Frost.{
  FrostMsgKey, FrostRound1Cast, FrostRound1Casts, FrostRound1ShamirShare, FrostRound1P2P,
  FrostRound2Cast, FrostRound2Casts, broadcast_target_id, ValidatorShare, assemble_validator_shares,
  verify_round1_casts, verify_round1_p2p, verify_round2_casts, round1_complete, too_many_p2p,
}
use distributed_validator_sp.Dkg.FrostChecks.{IsFrom, bundles_iff}
use distributed_validator_sp.Dkg.Assembly.{AllResults, assembled}
use distributed_validator_sp.Dkg.CastOrder.{Ascending, listed, has_cast}

abbrev one : Bytes
one = 1 ∷ []

abbrev two : Bytes
two = 2 ∷ []

abbrev three : Bytes
three = 3 ∷ []

abbrev four : Bytes
four = 4 ∷ []

abbrev operators : List Bytes
operators = one ∷ two ∷ three ∷ []

lower_override : resolve_new_threshold 4 (some 2) ≡ err invalid_threshold
unfolding resolve_new_threshold
lower_override = refl

resolved : resolve_new_threshold 7 (some 6) ≡ ok 6
unfolding resolve_new_threshold
resolved = refl

resolved_bounds_example :
    (2 * 7 ≤ 3 * 6)
    × (6 ≤ 7)
    × (7 < 2 * 6)
    × ((t : ℕ) → ◌≡◌ {A = Option ℕ} (some 6) (some t) → (6 ≡ t) × (t < 7))
resolved_bounds_example = resolved_bounds 7 (some 6) 6 (omega arith) resolved

absent : among four operators ≡ false
unfolding among
absent = refl

replaced : replace_operator_participants operators two four ≡ ok (one ∷ four ∷ three ∷ [])
unfolding replace_operator_participants
replaced = refl

replaced_indices_example :
    (ceremony_share_index (one ∷ four ∷ three ∷ []) four ≡ ceremony_share_index operators two)
    × ((enr : Bytes)
        → two ≢ enr
        → four ≢ enr
        → ceremony_share_index (one ∷ four ∷ three ∷ []) enr ≡ ceremony_share_index operators enr)
replaced_indices_example =
    replaced_indices operators two four (one ∷ four ∷ three ∷ []) absent replaced

removed : remove_operators_participants operators (one ∷ []) [] ≡ ok (two ∷ three ∷ [])
unfolding remove_operators_participants
removed = refl

two_stays : among two (one ∷ []) ≡ false
unfolding among
two_stays = refl

three_stays : among three (one ∷ []) ≡ false
unfolding among
three_stays = refl

second : ceremony_share_index operators two ≡ ok 2
unfolding ceremony_share_index
second = refl

third : ceremony_share_index operators three ≡ ok 3
unfolding ceremony_share_index
third = refl

removed_indices_example :
    (i' : ℕ) × (j' : ℕ) × (new_lock_share_index (two ∷ three ∷ []) two ≡ ok i')
    × (new_lock_share_index (two ∷ three ∷ []) three ≡ ok j')
    × (1 ≤ i')
    × (i' ≤ 2)
    × (i' ≤ length (two ∷ three ∷ []))
    × ((i' < j') ↔ (2 < 3))
removed_indices_example =
    removed_indices operators (one ∷ []) (two ∷ three ∷ []) two three 2 3 removed two_stays
      three_stays second third

abbrev key : ℕ → ℕ → ℕ → FrostMsgKey
key v source target = record { val_idx = v; source_id = source; target_id = target }

abbrev cast : ℕ → ℕ → FrostRound2Cast
cast v source = record {
  key = key v source 0;
  verification_key = [];
  vk_share = replicate 48 source;
}

abbrev casts : List FrostRound2Cast
casts = cast 1 1 ∷ cast 0 1 ∷ cast 0 2 ∷ cast 1 2 ∷ []

abbrev pubkeys : Dict ℕ Bytes
pubkeys = (0, replicate 48 7) ∷ (1, replicate 48 8) ∷ []

abbrev secrets : Dict ℕ Bytes
secrets = (0, replicate 32 5) ∷ (1, replicate 32 6) ∷ []

abbrev result : ℕ → ℕ → ValidatorShare
result pubkey secret = record {
  validator_pubkey = replicate 48 pubkey;
  secret_share = replicate 32 secret;
  public_shares = record { shares = (1, replicate 48 1) ∷ (2, replicate 48 2) ∷ [] };
}

assembly : assemble_validator_shares casts pubkeys secrets ≡ ok (result 7 5 ∷ result 8 6 ∷ [])
unfolding assemble_validator_shares
assembly = refl

assembled_example :
    (validators : List ℕ) × Ascending validators
    × ((v : ℕ) → listed v validators ≡ has_cast v casts)
    × AllResults casts pubkeys secrets validators (result 7 5 ∷ result 8 6 ∷ [])
assembled_example = assembled casts pubkeys secrets (result 7 5 ∷ result 8 6 ∷ []) assembly

extra_share : round1_complete 2 3 3 ≡ err too_many_p2p
unfolding round1_complete
extra_share = refl

abbrev round1 : FrostRound1Casts
round1 = record {
  casts = record { key = key 0 2 0; wi = []; ci = []; commitments = one ∷ two ∷ [] } ∷ [];
}

abbrev direct : FrostRound1P2P
direct = record { shares = record { key = key 0 2 1; id = 1; value = replicate 32 5 } ∷ [] }

abbrev round2 : FrostRound2Casts
round2 = record { casts = cast 0 2 ∷ [] }

bundles_iff_example :
    ((verify_round1_casts round1 2 1 2 ≡ ok tt)
      ↔ All
          (λ (cast : FrostRound1Cast).
            IsFrom 2 broadcast_target_id 1 cast.key × (length cast.commitments ≡ 2))
          round1.casts)
    × ((verify_round1_p2p direct 2 1 1 ≡ ok tt)
        ↔ All (λ (share : FrostRound1ShamirShare). IsFrom 2 1 1 share.key) direct.shares)
    × ((verify_round2_casts round2 2 1 ≡ ok tt)
        ↔ All (λ (cast : FrostRound2Cast). IsFrom 2 broadcast_target_id 1 cast.key) round2.casts)
bundles_iff_example = bundles_iff 2 1 1 2 round1 direct round2
