-- ===== src/Priority/Validation.antt =====
-- scoring.py: `validate_msgs` against the plain conditions on a message set.
use distributed_validator_sp.Base.{
  ◌<◌, ◌≡◌, ◌≢◌, ◌↔◌, refl, sym, subst, list_ltb, list_ltb-IsOrder, Bool, true, false, not, List,
  [], ◌∷◌, ◌==◌, ==-eq, ==-sound, nat_eq, list_eq, ltb, ltb→lt, lt→ltb, length, All, All-mono,
  DistinctKeys, Result, ok, err, guard, ◌>>◌, Bool-cases, inl, inr, Permᴰ, All-Permᴰ,
  Distinct-Permᴰ,
}
use distributed_validator_sp.Types.{Bytes, Duty, duty_eq}
use distributed_validator_sp.Crypto.{Crypto}
use distributed_validator_sp.Priority.{
  PriorityTopicProposal, PriorityMsg, PriorityError, max_priorities, seen_before, priority_hash,
  check_priorities, check_topics, check_msgs, validate_msgs, mismatching_duties, duplicate_peer,
  duplicate_topic, max_priority_reached, duplicate_priority,
}

-- A chain of checks passes exactly when each does.
passes_both :
    (m rest : Result PriorityError (Unit {0}))
    → ((m >> rest) ≡ ok tt) ↔ ((m ≡ ok tt) × (rest ≡ ok tt))
passes_both (err e) rest = ((λ h. absurd (cc)), (λ h. absurd (cc)))
passes_both (ok u) rest = ((λ h. (refl, h)), (λ h. h.1))

passes_guard : (b : Bool) (e : PriorityError) → (guard b e ≡ ok tt) ↔ (b ≡ true)
passes_guard true e = ((λ h. refl), (λ h. refl))
passes_guard false e = ((λ h. absurd (cc)), (λ h. absurd (cc)))

unseen : (x : Bytes) (seen : List Bytes) → (not (seen_before x seen) ≡ true) ↔ All (λ y. y ≢ x) seen
unseen x [] = ((λ h. tt), (λ h. refl))
unseen x (y ∷ seen) = elim (Bool-cases (y == x)) [
  | inl t ↦ rw t ((λ h. absurd (cc)), (λ h. absurd (h.0 (==-eq y x t))))
  | inr f ↦ rw f ((λ h. (==-sound y x f, (unseen x seen).0 h)), (λ h. (unseen x seen).1 h.1))
]

-- The keys of a list are distinct and none has been seen.
module _ {ℓ} {A : Type ℓ} (key : A → Bytes) where
  abbrev Fresh : List Bytes → List A → Type ℓ
  Fresh seen xs = DistinctKeys key xs × All (λ x. All (λ s. s ≢ key x) seen) xs

  Fresh-step :
      (seen : List Bytes) (x : A) (xs : List A)
      → Fresh seen (x ∷ xs) ↔ (All (λ s. s ≢ key x) seen × Fresh (key x ∷ seen) xs)
  Fresh-step seen x xs = (
    (λ h. (h.1.0, (h.0.1, both xs h.0.0 h.1.1))),
    (λ h. (
      (
        All-mono (λ y. All (λ s. s ≢ key y) (key x ∷ seen)) (λ y. key x ≢ key y) xs (λ y a. a.0)
            h.1.1,
        h.1.0,
      ),
      (
        h.0,
        All-mono (λ y. All (λ s. s ≢ key y) (key x ∷ seen)) (λ y. All (λ s. s ≢ key y) seen) xs
            (λ y a. a.1) h.1.1,
      ),
    )),
  )
    where
      both :
          (ys : List A)
          → All (λ y. key x ≢ key y) ys
          → All (λ y. All (λ s. s ≢ key y) seen) ys
          → All (λ y. All (λ s. s ≢ key y) (key x ∷ seen)) ys
      both [] a b = tt
      both (y ∷ ys) a b = ((a.0, b.0), both ys a.1 b.1)

  none_seen : (xs : List A) → All (λ x. All (λ s. s ≢ key x) []) xs
  none_seen [] = tt
  none_seen (x ∷ xs) = (tt, none_seen xs)

Permᴰ-nil : {l m : List PriorityMsg} → m ≡ [] → Permᴰ l m → l ≡ []
Permᴰ-nil e Permᴰ.nil = refl
Permᴰ-nil e (Permᴰ.cons p d) = cc
Permᴰ-nil e (Permᴰ.swap p q) = cc
Permᴰ-nil e (Permᴰ.trans d f) = Permᴰ-nil (Permᴰ-nil e f) d

module _ (c : Crypto) where
  abbrev pub topic_key : PriorityTopicProposal → Bytes
  topic_key topic = priority_hash c topic.topic

  abbrev pub peer_key : PriorityMsg → Bytes
  peer_key msg = msg.peer_id

  abbrev pub ValidTopic : PriorityTopicProposal → Type 0
  ValidTopic topic =
      (length topic.priorities < max_priorities) × DistinctKeys (priority_hash c) topic.priorities

  abbrev pub ValidTopics : List PriorityTopicProposal → Type 0
  ValidTopics topics = DistinctKeys topic_key topics × All ValidTopic topics

  -- What a message set is required to be, for some duty of all its messages.
  abbrev pub ValidMsgs : Duty → List PriorityMsg → Type 0
  ValidMsgs duty msgs =
      (All (λ msg. msg.duty ≡ duty) msgs × DistinctKeys peer_key msgs)
      × All (λ msg. ValidTopics msg.topics) msgs

  priorities_iff :
      (seen priorities : List Bytes)
      → (check_priorities c seen priorities ≡ ok tt) ↔ Fresh (priority_hash c) seen priorities
  unfolding check_priorities
  priorities_iff seen [] = ((λ h. (tt, tt)), (λ h. refl))
  priorities_iff seen (p ∷ ps) =
      let h = priority_hash c p in
      let both =
        passes_both (guard (not (seen_before h seen)) duplicate_priority)
          (check_priorities c (h ∷ seen) ps) in
      let first = passes_guard (not (seen_before h seen)) duplicate_priority in
      let step = Fresh-step (priority_hash c) seen p ps in
      (
        (λ e.
            let t = both.0 e in
            step.1 ((unseen h seen).0 (first.0 t.0), (priorities_iff (h ∷ seen) ps).0 t.1)),
        (λ f.
            let t = step.0 f in
            both.1 (first.1 ((unseen h seen).1 t.0), (priorities_iff (h ∷ seen) ps).1 t.1)),
      )

  topics_iff :
      (seen : List Bytes) (topics : List PriorityTopicProposal)
      → (check_topics c seen topics ≡ ok tt) ↔ (Fresh topic_key seen topics × All ValidTopic topics)
  unfolding check_topics
  topics_iff seen [] = ((λ h. ((tt, tt), tt)), (λ h. refl))
  topics_iff seen (t ∷ ts) =
      let h = topic_key t in
      let size = ltb (length t.priorities) max_priorities in
      let rest = check_topics c (h ∷ seen) ts in
      let inner = check_priorities c [] t.priorities in
      let b₁ =
        passes_both (guard (not (seen_before h seen)) duplicate_topic)
          (guard size max_priority_reached >> (inner >> rest)) in
      let b₂ = passes_both (guard size max_priority_reached) (inner >> rest) in
      let b₃ = passes_both inner rest in
      let g₁ = passes_guard (not (seen_before h seen)) duplicate_topic in
      let g₂ = passes_guard size max_priority_reached in
      let own = priorities_iff [] t.priorities in
      let tail = topics_iff (h ∷ seen) ts in
      let step = Fresh-step topic_key seen t ts in
      (
        (λ e.
            let p = b₁.0 e in
            let q = b₂.0 p.1 in
            let r = b₃.0 q.1 in
            let s = tail.0 r.1 in
            (
              step.1 ((unseen h seen).0 (g₁.0 p.0), s.0),
              ((ltb→lt (length t.priorities) max_priorities (g₂.0 q.0), (own.0 r.0).0), s.1),
            )),
        (λ f.
            let p = step.0 f.0 in
            b₁.1 (
              g₁.1 ((unseen h seen).1 p.0),
              b₂.1 (
                g₂.1 (lt→ltb (length t.priorities) max_priorities f.1.0.0),
                b₃.1 (
                  own.1 (f.1.0.1, none_seen (priority_hash c) t.priorities),
                  tail.1 (p.1, f.1.1),
                ),
              ),
            )),
      )

  msgs_iff :
      (duty : Duty) (seen : List Bytes) (msgs : List PriorityMsg)
      → (check_msgs c duty seen msgs ≡ ok tt) ↔ (
          (All (λ msg. msg.duty ≡ duty) msgs × Fresh peer_key seen msgs)
          × All (λ msg. ValidTopics msg.topics) msgs)
  unfolding check_msgs
  msgs_iff duty seen [] = ((λ h. ((tt, (tt, tt)), tt)), (λ h. refl))
  msgs_iff duty seen (m ∷ ms) =
      let same = m.duty == duty in
      let rest = check_msgs c duty (m.peer_id ∷ seen) ms in
      let inner = check_topics c [] m.topics in
      let b₁ =
        passes_both (guard same mismatching_duties)
          (guard (not (seen_before m.peer_id seen)) duplicate_peer >> (inner >> rest)) in
      let b₂ =
        passes_both (guard (not (seen_before m.peer_id seen)) duplicate_peer) (inner >> rest) in
      let b₃ = passes_both inner rest in
      let g₁ = passes_guard same mismatching_duties in
      let g₂ = passes_guard (not (seen_before m.peer_id seen)) duplicate_peer in
      let own = topics_iff [] m.topics in
      let tail = msgs_iff duty (m.peer_id ∷ seen) ms in
      let step = Fresh-step peer_key seen m ms in
      (
        (λ e.
            let p = b₁.0 e in
            let q = b₂.0 p.1 in
            let r = b₃.0 q.1 in
            let s = tail.0 r.1 in
            let o = own.0 r.0 in
            (
              (
                (==-eq m.duty duty (g₁.0 p.0), s.0.0),
                step.1 ((unseen m.peer_id seen).0 (g₂.0 q.0), s.0.1),
              ),
              ((o.0.0, o.1), s.1),
            )),
        (λ f.
            let p = step.0 f.0.1 in
            b₁.1 (
              g₁.1 ((duty_eq.equal_iff m.duty duty).1 f.0.0.0),
              b₂.1 (
                g₂.1 ((unseen m.peer_id seen).1 p.0),
                b₃.1 (
                  own.1 ((f.1.0.0, none_seen topic_key m.topics), f.1.0.1),
                  tail.1 ((f.0.0.1, p.1), f.1.1),
                ),
              ),
            )),
      )

  -- validate_msgs accepts a message set exactly if it is not empty, all messages are for one duty, the
  -- peers are distinct, and in each message the topics have distinct hashes and each has fewer than
  -- MAX_PRIORITIES priorities with distinct hashes.
  pub validate_iff :
      (msgs : List PriorityMsg)
      → (validate_msgs c msgs ≡ ok tt) ↔ ((msgs ≢ []) × ((duty : Duty) × ValidMsgs duty msgs))
  unfolding validate_msgs
  validate_iff [] = ((λ h. absurd (cc)), (λ h. absurd (h.0 refl)))
  validate_iff (m ∷ ms) = (
    (λ e.
        let f = (msgs_iff m.duty [] (m ∷ ms)).0 e in
        ((λ p. cc), (m.duty, ((f.0.0, f.0.1.0), f.1)))),
    (λ (n, (duty, v)). (msgs_iff m.duty [] (m ∷ ms)).1 (
      (
        subst (λ d. All (λ msg. msg.duty ≡ d) (m ∷ ms)) (sym v.0.0.0) v.0.0,
        (v.0.1, none_seen peer_key (m ∷ ms)),
      ),
      v.1,
    )),
  )

  -- So the order in which messages arrive does not matter to it.
  pub validate-Permᴰ :
      {msgs others : List PriorityMsg}
      → Permᴰ msgs others
      → validate_msgs c msgs ≡ ok tt
      → validate_msgs c others ≡ ok tt
  validate-Permᴰ {msgs} {others} p h =
      let (n, (duty, v)) = (validate_iff msgs).0 h in
      (validate_iff others).1 (
        (λ e. n (Permᴰ-nil e p)),
        (
          duty,
          (
            (
              All-Permᴰ (λ msg. msg.duty ≡ duty) p v.0.0,
              Distinct-Permᴰ peer_key list_ltb list_ltb-IsOrder p v.0.1,
            ),
            All-Permᴰ (λ msg. ValidTopics msg.topics) p v.1,
          ),
        ),
      )
