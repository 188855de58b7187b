-- ===== src/Priority.antt =====
-- src/dv_spec/subspecs/priority/scoring.py and message.py: the validation of the peers' preference
-- lists and their reduction to one result. A priority and a topic are strings, as in the annotations
-- of scoring.py; strings compare by code points, so by the bytes of their UTF-8 encoding.
pub mod Validation
pub mod Scores
pub mod Topics
pub mod Outcome
use distributed_validator_sp.Base.{
  ℕ, suc, ◌+◌, ◌*◌, ◌-◌, Bool, true, false, not, Option, none, some, List, [], ◌∷◌, ◌++◌, ◌==◌,
  nat_eq, list_eq, if◌then◌else◌, ltb, leb, length, any, filter, map, Dict, get, put, or_nil, has,
  Result, ok, err, guard, ◌>>◌, ◌>>=◌, sorted, list_ltb,
}
use distributed_validator_sp.Types.{Bytes, Duty, duty_eq}
use distributed_validator_sp.Crypto.{Crypto}
use distributed_validator_sp.Encoding.Proto.{encode_any_string}
use distributed_validator_sp.Encoding.Ssz.{hash_proto}

pub record PriorityTopicProposal : Type 0 where
  pub topic : Bytes
  pub priorities : List Bytes

pub record PriorityMsg : Type 0 where
  pub duty : Duty
  pub topics : List PriorityTopicProposal
  pub peer_id : Bytes
  pub signature : Bytes

pub record PriorityScoredResult : Type 0 where
  pub priority : Bytes
  pub score : ℕ

pub record PriorityTopicResult : Type 0 where
  pub topic : Bytes
  pub priorities : List PriorityScoredResult

pub record PriorityResult : Type 0 where
  pub msgs : List PriorityMsg
  pub topics : List PriorityTopicResult

pub data PriorityError : Type 0 where
  messages_empty mismatching_duties duplicate_peer duplicate_topic max_priority_reached :
      PriorityError
  duplicate_priority : PriorityError

abbrev pub max_priorities : ℕ
max_priorities = 1000

abbrev pub count_weight : ℕ
count_weight = max_priorities

-- x in seen
abbrev pub seen_before : Bytes → List Bytes → Bool
seen_before x seen = any (λ y. y == x) seen

module _ (c : Crypto) where
  unfoldable pub priority_hash : Bytes → Bytes
  unfolding hash_proto encode_any_string
  priority_hash value = hash_proto c (encode_any_string value)

  -- The three loops of `validate_msgs`, each with the set it has seen.
  unfoldable pub check_priorities : List Bytes → List Bytes → Result PriorityError (Unit {0})
  check_priorities seen [] = ok tt
  check_priorities seen (priority ∷ rest) = do
    guard (not (seen_before (priority_hash priority) seen)) duplicate_priority
    check_priorities (priority_hash priority ∷ seen) rest

  unfoldable pub check_topics :
      List Bytes → List PriorityTopicProposal → Result PriorityError (Unit {0})
  unfolding check_priorities
  check_topics seen [] = ok tt
  check_topics seen (topic ∷ rest) = do
    guard (not (seen_before (priority_hash topic.topic) seen)) duplicate_topic
    guard (ltb (length topic.priorities) max_priorities) max_priority_reached
    check_priorities [] topic.priorities
    check_topics (priority_hash topic.topic ∷ seen) rest

  unfoldable pub check_msgs : Duty → List Bytes → List PriorityMsg → Result PriorityError (Unit {0})
  unfolding check_topics
  check_msgs duty seen_peers [] = ok tt
  check_msgs duty seen_peers (msg ∷ rest) = do
    guard (msg.duty == duty) mismatching_duties
    guard (not (seen_before msg.peer_id seen_peers)) duplicate_peer
    check_topics [] msg.topics
    check_msgs duty (msg.peer_id ∷ seen_peers) rest

  unfoldable pub validate_msgs : List PriorityMsg → Result PriorityError (Unit {0})
  unfolding check_msgs
  validate_msgs [] = err messages_empty
  validate_msgs (msg ∷ msgs) = check_msgs msg.duty [] (msg ∷ msgs)

  -- proposals_by_topic, over the topics of one message and over all messages
  unfoldable pub add_topics :
      List PriorityTopicProposal
      → Dict Bytes (List (Bytes × List Bytes))
      → Dict Bytes (List (Bytes × List Bytes))
  unfolding get put
  add_topics [] groups = groups
  add_topics (topic ∷ topics) groups =
      let key = priority_hash topic.topic in
      add_topics topics
        (put key (or_nil (get key groups) ++ (topic.topic, topic.priorities) ∷ []) groups)

  unfoldable pub proposals_by_topic :
      List PriorityMsg
      → Dict Bytes (List (Bytes × List Bytes))
      → Dict Bytes (List (Bytes × List Bytes))
  unfolding add_topics
  proposals_by_topic [] groups = groups
  proposals_by_topic (msg ∷ msgs) groups = proposals_by_topic msgs (add_topics msg.topics groups)

-- The dictionaries of the scoring loop of one topic.
pub record Tally : Type 0 where
  pub scores : Dict Bytes ℕ
  pub seen_order : List Bytes
  pub values : Dict Bytes Bytes

abbrev pub no_tally : Tally
no_tally = record { scores = []; seen_order = []; values = [] }

-- scores[key], which is zero where it is first set
unfoldable pub score_of : Bytes → Tally → ℕ
unfolding get
score_of key tally = elim (get key tally.scores) [ none ↦ 0 | some n ↦ n ]

-- values[key], which is set together with the score
unfoldable pub value_of : Bytes → Tally → Bytes
unfolding get
value_of key tally = elim (get key tally.values) [ none ↦ [] | some v ↦ v ]

module _ (c : Crypto) where
  -- A position is less than `COUNT_WEIGHT` in a message set that is valid.
  unfoldable pub score_priority : ℕ → Bytes → Tally → Tally
  unfolding score_of has put
  score_priority position priority tally =
      let key = priority_hash c priority in
      record {
        scores = put key (score_of key tally + (count_weight - position)) tally.scores;
        seen_order =
            if has key tally.scores then tally.seen_order else tally.seen_order ++ key ∷ [];
        values = put key priority tally.values;
      }

  -- for position, priority in enumerate(priorities), from a position on
  unfoldable pub score_priorities : ℕ → List Bytes → Tally → Tally
  unfolding score_priority
  score_priorities position [] tally = tally
  score_priorities position (priority ∷ rest) tally =
      score_priorities (suc position) rest (score_priority position priority tally)

  unfoldable pub score_proposals : List (Bytes × List Bytes) → Tally → Tally
  unfolding score_priorities
  score_proposals [] tally = tally
  score_proposals ((topic, priorities) ∷ proposals) tally =
      score_proposals proposals (score_priorities 0 priorities tally)

-- scores[key] > (min_required - 1) * COUNT_WEIGHT, with the weight added on both sides
unfoldable pub is_included : ℕ → Tally → Bytes → Bool
unfolding score_of
is_included min_required tally key =
    ltb (min_required * count_weight) (score_of key tally + count_weight)

unfoldable pub scored_result : Tally → Bytes → PriorityScoredResult
unfolding score_of value_of
scored_result tally key = record { priority = value_of key tally; score = score_of key tally }

-- sorted(seen_order, key=lambda key: -scores[key]), and the priorities that are included
unfoldable pub ranked_results : ℕ → Tally → List PriorityScoredResult
unfolding is_included scored_result score_of
ranked_results min_required tally = map (scored_result tally) (
    filter (is_included min_required tally)
      (sorted (λ a b. ltb (score_of b tally) (score_of a tally)) tally.seen_order))

-- proposals[0][0]
abbrev pub first_topic : List (Bytes × List Bytes) → Bytes
first_topic [] = []
first_topic ((topic, priorities) ∷ proposals) = topic

module _ (c : Crypto) where
  unfoldable pub topic_results :
      ℕ → Dict Bytes (List (Bytes × List Bytes)) → List (Bytes × PriorityTopicResult)
  unfolding ranked_results score_proposals
  topic_results min_required [] = []
  topic_results min_required ((topic_hash, proposals) ∷ groups) =
      (
        topic_hash,
        record {
          topic = first_topic proposals;
          priorities = ranked_results min_required (score_proposals c proposals no_tally);
        },
      )
      ∷ topic_results min_required groups

  -- The result's topics, from the messages in the order of their peers.
  unfoldable pub calculate_topics : ℕ → List PriorityMsg → List PriorityTopicResult
  unfolding topic_results proposals_by_topic
  calculate_topics min_required ordered_msgs =
      map (λ (item : Bytes × PriorityTopicResult). item.1)
        (sorted (λ (a b : Bytes × PriorityTopicResult). list_ltb a.0 b.0)
          (topic_results min_required (proposals_by_topic c ordered_msgs [])))

  unfoldable pub calculate_result : List PriorityMsg → ℕ → Result PriorityError PriorityResult
  unfolding validate_msgs calculate_topics
  calculate_result msgs min_required = do
    validate_msgs c msgs
    ok (record {
      msgs = msgs;
      topics =
          calculate_topics min_required
            (sorted (λ (a b : PriorityMsg). list_ltb a.peer_id b.peer_id) msgs);
    })
