-- ===== src/Tests/Priority.antt =====
-- scoring.py on three peers that rank two protocols.
use distributed_validator_sp.Base.{
  some, ℕ, ◌+◌, ◌*◌, ◌%◌, ◌<◌, ◌≡◌, ◌≢◌, ◌↔◌, refl, true, List, [], ◌∷◌, replicate, ok, err, All,
  Permᴰ, list_ltb, sorted, arith,
}
use distributed_validator_sp.Types.{Bytes, Duty, info_sync}
use distributed_validator_sp.Crypto.{Crypto}
use distributed_validator_sp.Priority.{
  PriorityTopicProposal, PriorityMsg, PriorityResult, priority_hash, count_weight, no_tally,
  score_proposals, is_included, validate_msgs, calculate_result, duplicate_peer,
}
use distributed_validator_sp.Priority.Validation.{ValidMsgs, validate_iff}
use distributed_validator_sp.Priority.Scores.{supporters, penalty, WellFormed, included_iff}
use distributed_validator_sp.Priority.Outcome.{
  TopicSound, calculate_result-Permᴰ, calculate_result-Sound,
}

abbrev checksum : Bytes → ℕ
checksum [] = 1
checksum (b ∷ bs) = (b + 257 * checksum bs) % 1000003

-- A stand-in for the hash that tells short strings apart.
abbrev mixing : Crypto
mixing = record {
  sha256 = λ b. checksum b ∷ replicate 31 0;
  accepts_secret = λ secret. true;
  sign_msg_hash = λ secret digest. replicate 65 1;
  public_key = λ secret. 2 ∷ secret;
  ecdsa_recover = λ digest signature. some (2 ∷ replicate 32 9);
}

abbrev sync_duty : Duty
sync_duty = record { slot = 32; type = info_sync }

abbrev topic : List Bytes → PriorityTopicProposal
topic ps = record { topic = 116 ∷ []; priorities = ps }

abbrev from_peer : ℕ → List Bytes → PriorityMsg
from_peer i ps = record {
  duty = sync_duty;
  topics = topic ps ∷ [];
  peer_id = i ∷ [];
  signature = [];
}

abbrev v1 : Bytes
v1 = 49 ∷ []

abbrev v2 : Bytes
v2 = 50 ∷ []

abbrev msgs : List PriorityMsg
msgs = from_peer 1 (v1 ∷ v2 ∷ []) ∷ from_peer 2 (v2 ∷ v1 ∷ []) ∷ from_peer 3 (v2 ∷ []) ∷ []

abbrev swapped : List PriorityMsg
swapped = from_peer 2 (v2 ∷ v1 ∷ []) ∷ from_peer 1 (v1 ∷ v2 ∷ []) ∷ from_peer 3 (v2 ∷ []) ∷ []

abbrev outcome : List PriorityMsg → PriorityResult
outcome received = record {
  msgs = received;
  topics =
      record {
        topic = 116 ∷ [];
        priorities =
            record { priority = v2; score = 2999 } ∷ record { priority = v1; score = 1999 } ∷ [];
      }
      ∷ [];
}

calculated : calculate_result mixing msgs 2 ≡ ok (outcome msgs)
unfolding calculate_result priority_hash
calculated = refl

repeated_peer :
    validate_msgs mixing (from_peer 1 (v1 ∷ []) ∷ from_peer 1 (v2 ∷ []) ∷ []) ≡ err duplicate_peer
unfolding validate_msgs
repeated_peer = refl

calculate_result-Permᴰ_example : calculate_result mixing swapped 2 ≡ ok (outcome swapped)
calculate_result-Permᴰ_example =
    calculate_result-Permᴰ mixing 2 (outcome msgs) (Permᴰ.swap refl refl) calculated

calculate_result-Sound_example :
    All
      (TopicSound mixing 2 (sorted (λ (a b : PriorityMsg). list_ltb a.peer_id b.peer_id) msgs))
      (outcome msgs).topics
calculate_result-Sound_example = calculate_result-Sound mixing msgs 2 (outcome msgs) calculated

validate_iff_example :
    (validate_msgs mixing msgs ≡ ok tt)
    ↔ ((msgs ≢ []) × ((duty : Duty) × ValidMsgs mixing duty msgs))
validate_iff_example = validate_iff mixing msgs

abbrev proposals : List (Bytes × List Bytes)
proposals = (116 ∷ [], v1 ∷ []) ∷ (116 ∷ [], v2 ∷ []) ∷ []

proposals-WellFormed : All (WellFormed mixing) proposals
proposals-WellFormed = ((omega arith, (tt, tt)), ((omega arith, (tt, tt)), tt))

included_iff_example :
    (is_included 1 (score_proposals mixing proposals no_tally) (priority_hash mixing v1) ≡ true) ↔ (
      1 * count_weight + penalty mixing (priority_hash mixing v1) proposals
      < (supporters mixing (priority_hash mixing v1) proposals + 1) * count_weight)
included_iff_example =
    included_iff mixing (priority_hash mixing v1) 1 proposals proposals-WellFormed
