-- ===== src/Qbft/Justify.antt =====
-- qbft/protocol.py: when a message is justified (`is_justified` and the methods that it calls).
use distributed_validator_sp.Base.{
  ℕ, ◌+◌, Bool, true, false, ◌&&◌, not, Option, none, some, List, [], ◌∷◌, ◌==◌, nat_eq, pair_eq,
  list_eq, option_eq, ltb, if◌then◌else◌, length, filter, any, all, keys, Dict, get, put, Result,
  ok, err,
}
use distributed_validator_sp.Types.{Bytes, Duty}
use distributed_validator_sp.Crypto.{Error, empty_max}
use distributed_validator_sp.Encoding.Ssz.{zero_chunk}
use distributed_validator_sp.Qbft.Definition.{Definition, quorum, is_leader}
use distributed_validator_sp.Qbft.Message.{
  MsgType, pre_prepare, prepare, commit, round_change, decided, msg_type_eq, QbftMsg,
  QbftConsensusMsg,
}

abbrev pub or_zero : Option ℕ → ℕ
or_zero none = 0
or_zero (some n) = n

-- One round of the loop that counts the PREPAREs for each round and value.
unfoldable pub count_prepare : QbftMsg → Dict (ℕ × Bytes) ℕ → Dict (ℕ × Bytes) ℕ
unfolding get put
count_prepare rc counts =
    if rc.type == prepare
    then elim rc.value_hash [
      | none ↦ counts
      | some hash ↦
          (let key : ℕ × Bytes = (rc.round, hash) in put key (or_zero (get key counts) + 1) counts)
    ]
    else counts

unfoldable pub prepare_counts : List QbftMsg → Dict (ℕ × Bytes) ℕ → Dict (ℕ × Bytes) ℕ
unfolding count_prepare
prepare_counts [] counts = counts
prepare_counts (rc ∷ rest) counts = prepare_counts rest (count_prepare rc counts)

-- max(keys, key=lambda x: x[0]): the first of those with the highest round.
unfoldable pub max_from : ℕ × Bytes → List (ℕ × Bytes) → ℕ × Bytes
max_from best [] = best
max_from best (k ∷ ks) = max_from (if ltb best.0 k.0 then k else best) ks

unfoldable pub max_by_round : List (ℕ × Bytes) → Result Error (ℕ × Bytes)
unfolding max_from
max_by_round [] = err empty_max
max_by_round (k ∷ ks) = ok (max_from k ks)

abbrev pub is_none_prepared : QbftMsg → Bool
is_none_prepared rc = rc.prepared_round == 0 && rc.prepared_value_hash == zero_chunk

-- j.type == type and j.round == round and j.value_hash == value_hash
abbrev pub matches : MsgType → ℕ → Option Bytes → QbftMsg → Bool
matches type round value_hash j = j.type == type && (j.round == round && j.value_hash == value_hash)

abbrev pub is_round_change_for : ℕ → QbftMsg → Bool
is_round_change_for round j = j.type == round_change && j.round == round

-- Case (2) of `is_justified_pre_prepare`, from the highest prepared round and value on.
unfoldable pub justifies_value :
    Definition → QbftMsg → List QbftMsg → Dict (ℕ × Bytes) ℕ → ℕ × Bytes → Bool
unfolding quorum get
justifies_value d m qrc counts (highest_pr, highest_hash) =
    if ltb (or_zero (get (highest_pr, highest_hash) counts)) (quorum d)
    then false
    else if any (λ rc. ltb 0 rc.prepared_round && ltb highest_pr rc.prepared_round) qrc
    then false
    else if not
        (any (λ rc. rc.prepared_round == highest_pr && rc.prepared_value_hash == highest_hash) qrc)
    then false
    else some highest_hash == m.value_hash

-- Case (2), in which `max` raises if the justification holds no PREPARE with a value.
unfoldable pub justified_by_prepares :
    Definition → QbftMsg → List QbftMsg → List QbftMsg → Result Error Bool
unfolding prepare_counts max_by_round justifies_value
justified_by_prepares d m qrc justification =
    let counts = prepare_counts justification [] in
    elim (max_by_round (keys counts)) [
      | err e ↦ err e
      | ok highest ↦ ok (justifies_value d m qrc counts highest)
    ]

-- The rounds after the first.
unfoldable pub justified_later : Definition → QbftMsg → List QbftMsg → Result Error Bool
unfolding justified_by_prepares quorum
justified_later d m justification =
    let qrc = filter (is_round_change_for m.round) justification in
    if ltb (length qrc) (quorum d)
    then ok false
    else if all is_none_prepared qrc
    then ok true
    else justified_by_prepares d m qrc justification

unfoldable pub is_justified_pre_prepare : Definition → Duty → QbftConsensusMsg → Result Error Bool
unfolding justified_later is_leader
is_justified_pre_prepare d duty cm =
    let m = cm.msg in
    if not (m.type == pre_prepare)
    then ok false
    else if not (is_leader d duty m.round m.peer_idx)
    then ok false
    else if m.round == 1
    then ok true
    else justified_later d m cm.justification

unfoldable pub is_justified_round_change : Definition → QbftConsensusMsg → Bool
unfolding quorum
is_justified_round_change d cm =
    let m = cm.msg in
    if not (m.type == round_change)
    then false
    else if length cm.justification == 0 && is_none_prepared m
    then true
    else not (
        ltb
          (length (
            filter (matches prepare m.prepared_round (some m.prepared_value_hash))
              cm.justification))
          (quorum d))

unfoldable pub is_justified_decided : Definition → QbftConsensusMsg → Bool
unfolding quorum
is_justified_decided d cm =
    let m = cm.msg in
    if not (m.type == decided)
    then false
    else not
        (ltb (length (filter (matches commit m.round m.value_hash) cm.justification)) (quorum d))

unfoldable pub justified_as : MsgType → Definition → Duty → QbftConsensusMsg → Result Error Bool
unfolding is_justified_pre_prepare is_justified_round_change is_justified_decided
justified_as pre_prepare d duty cm = is_justified_pre_prepare d duty cm
justified_as prepare d duty cm = ok true
justified_as commit d duty cm = ok true
justified_as round_change d duty cm = ok (is_justified_round_change d cm)
justified_as decided d duty cm = ok (is_justified_decided d cm)

unfoldable pub is_justified : Definition → Duty → QbftConsensusMsg → Result Error Bool
unfolding justified_as
is_justified d duty cm = justified_as cm.msg.type d duty cm
