-- ===== src/Priority/Outcome.antt =====
-- scoring.py: the topics do not depend on the order of the messages, their priorities are in the order
-- of their scores, and each has the supporters that are required.
use distributed_validator_sp.Base.{
  ℕ, ◌+◌, ◌*◌, ◌≤◌, ◌≡◌, sym, ap, ◌∙◌, subst, List, [], ◌∷◌, ltb, ltb→lt, ltb→le, list_ltb,
  list_ltb-IsOrder, sorted, sorted-Permᴰ, sorted-Ordered, sorted-All, Dict, Ordered, Ordered-map,
  Ordered-filter, All-map, filter-Kept, All, filter, Permᴰ, ok, >>=-eq-ok, arith,
}
use distributed_validator_sp.Types.{Bytes}
use distributed_validator_sp.Crypto.{Crypto}
use distributed_validator_sp.Priority.{
  PriorityMsg, PriorityResult, PriorityScoredResult, priority_hash, count_weight, Tally, no_tally,
  score_of, score_proposals, is_included, scored_result, ranked_results, PriorityTopicResult,
  first_topic, topic_results, proposals_by_topic, validate_msgs, calculate_topics, calculate_result,
}
use distributed_validator_sp.Priority.Validation.{
  ValidTopics, peer_key, validate_iff, validate-Permᴰ,
}
use distributed_validator_sp.Priority.Topics.{
  proposals_of, groups_are_proposals, proposals_of-WellFormed,
}
use distributed_validator_sp.Priority.Scores.{
  supporters, penalty, Recorded, proposals-Recorded, WellFormed, score_penalty, included_iff,
}

module _ (c : Crypto) where
  abbrev topics_of : List PriorityMsg → ℕ → PriorityResult
  topics_of msgs min_required = record {
    msgs = msgs;
    topics =
        calculate_topics c min_required
          (sorted (λ (a b : PriorityMsg). list_ltb a.peer_id b.peer_id) msgs);
  }

  result_parts :
      (msgs : List PriorityMsg) (min_required : ℕ) (result : PriorityResult)
      → calculate_result c msgs min_required ≡ ok result
      → (validate_msgs c msgs ≡ ok tt) × (topics_of msgs min_required ≡ result)
  unfolding calculate_result
  result_parts msgs min_required result h =
      let (u, v, e) = >>=-eq-ok (validate_msgs c msgs) (λ _. ok (topics_of msgs min_required)) h in
      (v, ground arith)

  result-ok :
      (msgs : List PriorityMsg) (min_required : ℕ)
      → validate_msgs c msgs ≡ ok tt
      → calculate_result c msgs min_required ≡ ok (topics_of msgs min_required)
  unfolding calculate_result
  result-ok msgs min_required v = rw v

  -- If calculate_result returns on a message set, it returns the same topics on the messages in any
  -- other order, so that nodes that have the same messages agree on the topics; the messages that it
  -- returns beside them stand in the order in which they came.
  pub calculate_result-Permᴰ :
      {msgs others : List PriorityMsg} (min_required : ℕ) (result : PriorityResult)
      → Permᴰ msgs others
      → calculate_result c msgs min_required ≡ ok result
      → calculate_result c others min_required
        ≡ ok (record { msgs = others; topics = result.topics })
  calculate_result-Permᴰ {msgs} {others} min_required result p h =
      let (v, e) = result_parts msgs min_required result h in
      let (n, (duty, w)) = (validate_iff c msgs).0 v in
      let same = sorted-Permᴰ (peer_key c) list_ltb list_ltb-IsOrder p w.0.1 in
      result-ok others min_required (validate-Permᴰ c p v)
      ∙ ap (λ t. ok (record { msgs = others; topics = t }))
          (ap (calculate_topics c min_required) (sym same)
            ∙ ap (λ (r : PriorityResult). r.topics) e)

-- Of two results the first has no smaller score.
abbrev pub NotBelow : PriorityScoredResult → PriorityScoredResult → Type 0
NotBelow a b = b.score ≤ a.score

ranked-Ordered :
    (min_required : ℕ) (tally : Tally) → Ordered NotBelow (ranked_results min_required tally)
unfolding ranked_results scored_result
ranked-Ordered min_required tally =
    let R = λ (a b : Bytes). score_of b tally ≤ score_of a tally in
    Ordered-map (scored_result tally) NotBelow
      (filter (is_included min_required tally)
        (sorted (λ a b. ltb (score_of b tally) (score_of a tally)) tally.seen_order))
      (Ordered-filter R (is_included min_required tally)
        (sorted (λ a b. ltb (score_of b tally) (score_of a tally)) tally.seen_order)
        (sorted-Ordered R (λ a b. ltb (score_of b tally) (score_of a tally))
          (λ x y z h k. omega (arith, h, k))
          (λ x y h. let l = ltb→lt (score_of y tally) (score_of x tally) h in omega (arith, l))
          (λ x y h. ltb→le (score_of y tally) (score_of x tally) h) tally.seen_order))

-- An entry of a topic's result: its score and its supporters among the proposals.
abbrev pub Agreed : Crypto → ℕ → List (Bytes × List Bytes) → PriorityScoredResult → Type 0
Agreed c min_required proposals r =
    let key = priority_hash c r.priority in
    (r.score + penalty c key proposals ≡ count_weight * supporters c key proposals)
    × (min_required ≤ supporters c key proposals)

ranked-Agreed :
    (c : Crypto) (min_required : ℕ) (proposals : List (Bytes × List Bytes))
    → All (WellFormed c) proposals
    → All
        (Agreed c min_required proposals)
        (ranked_results min_required (score_proposals c proposals no_tally))
unfolding ranked_results scored_result
ranked-Agreed c min_required proposals w =
    let tally = score_proposals c proposals no_tally in
    let order = sorted (λ a b. ltb (score_of b tally) (score_of a tally)) tally.seen_order in
    All-map (scored_result tally) (Agreed c min_required proposals)
      (filter (is_included min_required tally) order)
      (filter-Kept (Recorded c tally) (λ k. Agreed c min_required proposals (scored_result tally k))
        (is_included min_required tally) order
        (sorted-All (Recorded c tally) (λ a b. ltb (score_of b tally) (score_of a tally))
          tally.seen_order (proposals-Recorded c proposals no_tally tt))
        (λ k h t.
          let l = (included_iff c k min_required proposals w).0 t in
          subst
            (λ i.
              (score_of k tally + penalty c i proposals ≡ count_weight * supporters c i proposals)
              × (min_required ≤ supporters c i proposals))
            (sym h) (score_penalty c k proposals w, omega (arith, l))))

-- A topic's result, from the proposals of the messages for the topic of some hash.
abbrev pub TopicSound : Crypto → ℕ → List PriorityMsg → PriorityTopicResult → Type 0
TopicSound c min_required msgs r =
    (hash : Bytes) × (r.topic ≡ first_topic (proposals_of c hash msgs))
    × Ordered NotBelow r.priorities
    × All (Agreed c min_required (proposals_of c hash msgs)) r.priorities

topic_results-Sound :
    (c : Crypto) (min_required : ℕ) (msgs : List PriorityMsg)
    (groups : Dict Bytes (List (Bytes × List Bytes)))
    → All (λ m. ValidTopics c m.topics) msgs
    → All (λ (kv : Bytes × List (Bytes × List Bytes)). kv.1 ≡ proposals_of c kv.0 msgs) groups
    → All
        (λ (kv : Bytes × PriorityTopicResult). TopicSound c min_required msgs kv.1)
        (topic_results c min_required groups)
unfolding topic_results
topic_results-Sound c min_required msgs [] w h = tt
topic_results-Sound c min_required msgs ((hash, proposals) ∷ groups) w h = (
  (
    hash,
    ap first_topic h.0,
    ranked-Ordered min_required (score_proposals c proposals no_tally),
    subst
        (λ ps.
          All (Agreed c min_required ps)
            (ranked_results min_required (score_proposals c proposals no_tally)))
        h.0
        (ranked-Agreed c min_required proposals
          (subst (λ ps. All (WellFormed c) ps) (sym h.0) (proposals_of-WellFormed c hash msgs w))),
  ),
  topic_results-Sound c min_required msgs groups w h.1,
)

-- If calculate_result returns, then in each topic's result the scores do not increase down the list, and
-- each entry's score is COUNT_WEIGHT for each message of the set that supports its priority, less its
-- positions there, and at least min_required messages do.
pub calculate_result-Sound :
    (c : Crypto) (msgs : List PriorityMsg) (min_required : ℕ) (result : PriorityResult)
    → calculate_result c msgs min_required ≡ ok result
    → All
        (TopicSound c min_required
          (sorted (λ (a b : PriorityMsg). list_ltb a.peer_id b.peer_id) msgs))
        result.topics
unfolding calculate_topics
calculate_result-Sound c msgs min_required result h =
    let (v, e) = result_parts c msgs min_required result h in
    let (n, (duty, w)) = (validate_iff c msgs).0 v in
    let by_peer = λ (a b : PriorityMsg). list_ltb a.peer_id b.peer_id in
    let ordered = sorted by_peer msgs in
    let by_hash = λ (a b : Bytes × PriorityTopicResult). list_ltb a.0 b.0 in
    let results = topic_results c min_required (proposals_by_topic c ordered []) in
    subst (λ (r : PriorityResult). All (TopicSound c min_required ordered) r.topics) e
      (All-map (λ (item : Bytes × PriorityTopicResult). item.1) (TopicSound c min_required ordered)
        (sorted by_hash results)
        (sorted-All (λ (kv : Bytes × PriorityTopicResult). TopicSound c min_required ordered kv.1)
          by_hash results
          (topic_results-Sound c min_required ordered (proposals_by_topic c ordered [])
            (sorted-All (λ m. ValidTopics c m.topics) by_peer msgs w.1)
            (groups_are_proposals c ordered))))
