-- ===== src/Priority/Topics.antt =====
-- scoring.py: the grouping of the proposals by topic against the proposals that the messages hold.
use distributed_validator_sp.Base.{
  ◌≡◌, sym, ap, ◌∙◌, some, List, [], ◌∷◌, ◌++◌, ◌==◌, nat_eq, list_eq, filter, map, All, All-mono,
  All-map, All-append, filter-All, Dict, get, put, keys, or_nil, get-put_append, entries-get,
  Distinct, keys-put-Distinct, Bool-cases, inl, inr,
}
use mathlib.Core.List.{append-nil, append_assoc}
use distributed_validator_sp.Types.{Bytes}
use distributed_validator_sp.Crypto.{Crypto}
use distributed_validator_sp.Priority.{
  PriorityTopicProposal, PriorityMsg, add_topics, proposals_by_topic,
}
use distributed_validator_sp.Priority.Validation.{topic_key, ValidTopic, ValidTopics}
use distributed_validator_sp.Priority.Scores.{WellFormed}

abbrev Groups : Type 0
Groups = Dict Bytes (List (Bytes × List Bytes))

abbrev proposal : PriorityTopicProposal → Bytes × List Bytes
proposal t = (t.topic, t.priorities)

module _ (c : Crypto) where
  -- The proposals for the topic of a hash, in one message and in all.
  abbrev pub topic_proposals : Bytes → List PriorityTopicProposal → List (Bytes × List Bytes)
  topic_proposals key topics = map proposal (filter (λ t. topic_key c t == key) topics)

  abbrev pub proposals_of : Bytes → List PriorityMsg → List (Bytes × List Bytes)
  proposals_of key [] = []
  proposals_of key (m ∷ ms) = topic_proposals key m.topics ++ proposals_of key ms

  get-add_topics :
      (key : Bytes) (topics : List PriorityTopicProposal) (groups : Groups)
      → or_nil (get key (add_topics c topics groups))
        ≡ or_nil (get key groups) ++ topic_proposals key topics
  unfolding add_topics
  get-add_topics key [] groups = sym (append-nil (or_nil (get key groups)))
  get-add_topics key (t ∷ ts) groups =
      let h = topic_key c t in
      let before = or_nil (get key groups) in
      get-add_topics key ts (put h (or_nil (get h groups) ++ proposal t ∷ []) groups)
      ∙ ap (λ l. l ++ topic_proposals key ts) (get-put_append key h (proposal t) groups)
      ∙ elim (Bool-cases (h == key)) [
        | inl e ↦ rw e (append_assoc before (proposal t ∷ []) (topic_proposals key ts))
        | inr e ↦ rw e (append_assoc before [] (topic_proposals key ts))
      ]

  get-proposals_by_topic :
      (key : Bytes) (msgs : List PriorityMsg) (groups : Groups)
      → or_nil (get key (proposals_by_topic c msgs groups))
        ≡ or_nil (get key groups) ++ proposals_of key msgs
  unfolding proposals_by_topic
  get-proposals_by_topic key [] groups = sym (append-nil (or_nil (get key groups)))
  get-proposals_by_topic key (m ∷ ms) groups =
      get-proposals_by_topic key ms (add_topics c m.topics groups)
      ∙ ap (λ l. l ++ proposals_of key ms) (get-add_topics key m.topics groups)
      ∙ append_assoc (or_nil (get key groups)) (topic_proposals key m.topics) (proposals_of key ms)

  keys-add_topics :
      (topics : List PriorityTopicProposal) (groups : Groups)
      → Distinct (keys groups)
      → Distinct (keys (add_topics c topics groups))
  unfolding add_topics
  keys-add_topics [] groups d = d
  keys-add_topics (t ∷ ts) groups d =
      let v = or_nil (get (topic_key c t) groups) ++ proposal t ∷ [] in
      keys-add_topics ts (put (topic_key c t) v groups)
        (keys-put-Distinct (topic_key c t) v groups d)

  keys-proposals_by_topic :
      (msgs : List PriorityMsg) (groups : Groups)
      → Distinct (keys groups)
      → Distinct (keys (proposals_by_topic c msgs groups))
  unfolding proposals_by_topic
  keys-proposals_by_topic [] groups d = d
  keys-proposals_by_topic (m ∷ ms) groups d =
      keys-proposals_by_topic ms (add_topics c m.topics groups) (keys-add_topics m.topics groups d)

  -- Each group holds the proposals of the messages for its topic, in their order.
  pub groups_are_proposals :
      (msgs : List PriorityMsg)
      → All
          (λ (kv : Bytes × List (Bytes × List Bytes)). kv.1 ≡ proposals_of kv.0 msgs)
          (proposals_by_topic c msgs [])
  unfolding get
  groups_are_proposals msgs =
      let groups = proposals_by_topic c msgs [] in
      All-mono (λ (kv : Bytes × List (Bytes × List Bytes)). get kv.0 groups ≡ some kv.1)
        (λ (kv : Bytes × List (Bytes × List Bytes)). kv.1 ≡ proposals_of kv.0 msgs) groups
        (λ kv h. ap or_nil (sym h) ∙ get-proposals_by_topic kv.0 msgs [])
        (entries-get groups (keys-proposals_by_topic msgs [] tt))

  pub proposals_of-WellFormed :
      (key : Bytes) (msgs : List PriorityMsg)
      → All (λ m. ValidTopics c m.topics) msgs
      → All (WellFormed c) (proposals_of key msgs)
  proposals_of-WellFormed key [] h = tt
  proposals_of-WellFormed key (m ∷ ms) h =
      All-append (WellFormed c) (topic_proposals key m.topics) (proposals_of key ms)
        (All-map proposal (WellFormed c) (filter (λ t. topic_key c t == key) m.topics)
          (filter-All (ValidTopic c) (λ t. topic_key c t == key) m.topics h.0.1))
        (proposals_of-WellFormed key ms h.1)
