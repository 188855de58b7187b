-- ===== src/Priority/Scores.antt =====
-- scoring.py: the score of a priority against the number of its supporters and their positions.
use distributed_validator_sp.Base.{
  ℕ, suc, ◌+◌, ◌*◌, ◌-◌, ◌≤◌, ◌<◌, ◌≡◌, ◌≢◌, ◌↔◌, refl, sym, subst, ap, ◌∙◌, Bool, true, Option,
  none, some, List, [], ◌∷◌, ◌==◌, ==-eq, ==-refl, ==-ne, nat_eq, list_eq, ltb→lt, lt→ltb, length,
  All, All-mono, All-append, DistinctKeys, if◌then◌else◌, Dict, get, put, has, ◌++◌, get-put_self,
  get-put_ne, Bool-cases, inl, inr, arith,
}
use distributed_validator_sp.Types.{Bytes}
use distributed_validator_sp.Crypto.{Crypto}
use distributed_validator_sp.Priority.{
  priority_hash, count_weight, max_priorities, Tally, no_tally, score_of, value_of, score_priority,
  score_priorities, score_proposals, is_included,
}

abbrev score_or_zero : Option ℕ → ℕ
score_or_zero none = 0
score_or_zero (some n) = n

score_of-put :
    (k j : Bytes) (n : ℕ) (t : Tally) (order : List Bytes) (values : Dict Bytes Bytes)
    → score_of k (record { scores = put j n t.scores; seen_order = order; values = values })
      ≡ (if j == k then n else score_of k t)
unfolding score_of
score_of-put k j n t order values = elim (Bool-cases (j == k)) [
  | inl e ↦
      (let found : get k (put j n t.scores) ≡ some n =
          subst (λ i. get k (put i n t.scores) ≡ some n) (sym (==-eq j k e))
            (get-put_self k n t.scores) in
        rw e (ap score_or_zero found))
  | inr e ↦ rw e (ap score_or_zero (get-put_ne j k n t.scores e))
]

-- A list of distinct priorities, fewer than the limit.
abbrev pub WellFormed : Crypto → Bytes × List Bytes → Type 0
WellFormed c (topic, ps) = (length ps < max_priorities) × DistinctKeys (priority_hash c) ps

module _ (c : Crypto) (key : Bytes) where
  abbrev pub is_for : Bytes → Bool
  is_for priority = priority_hash c priority == key

  -- Does a preference list hold the priority, and how far down, counted from a position?
  abbrev pub supports : List Bytes → ℕ
  supports [] = 0
  supports (p ∷ ps) = if is_for p then 1 else supports ps

  abbrev pub place : ℕ → List Bytes → ℕ
  place position [] = 0
  place position (p ∷ ps) = if is_for p then position else place (suc position) ps

  -- Over all proposals of a topic: the supporters of the priority, and the sum of its places.
  abbrev pub supporters : List (Bytes × List Bytes) → ℕ
  supporters [] = 0
  supporters ((topic, ps) ∷ proposals) = supports ps + supporters proposals

  abbrev pub penalty : List (Bytes × List Bytes) → ℕ
  penalty [] = 0
  penalty ((topic, ps) ∷ proposals) = place 0 ps + penalty proposals

  score_of-score_priority :
      (position : ℕ) (p : Bytes) (t : Tally)
      → score_of key (score_priority c position p t)
        ≡ score_of key t + (if is_for p then count_weight - position else 0)
  unfolding score_priority
  score_of-score_priority position p t =
      let h = priority_hash c p in
      let n = score_of h t + (count_weight - position) in
      let put =
        score_of-put key h n t (if has h t.scores then t.seen_order else t.seen_order ++ h ∷ [])
          (put h p t.values) in
      elim (Bool-cases (is_for p)) [
        | inl e ↦ put ∙ rw e (ap (λ k. score_of k t + (count_weight - position)) (==-eq h key e))
        | inr e ↦ put ∙ rw e (omega arith)
      ]

  -- Past its only occurrence nothing is added.
  score_absent :
      (position : ℕ) (ps : List Bytes) (t : Tally)
      → All (λ p. key ≢ priority_hash c p) ps
      → score_of key (score_priorities c position ps t) ≡ score_of key t
  unfolding score_priorities
  score_absent position [] t h = refl
  score_absent position (p ∷ ps) t h =
      let n = ==-ne (priority_hash c p) key (λ e. h.0 (sym e)) in
      let one = score_of-score_priority position p t in
      score_absent (suc position) ps (score_priority c position p t) h.1
      ∙ (let e = rw n at one in omega (arith, e))

  score_list :
      (position : ℕ) (ps : List Bytes) (t : Tally)
      → position + length ps ≤ count_weight
      → DistinctKeys (priority_hash c) ps
      → score_of key (score_priorities c position ps t) + place position ps
        ≡ score_of key t + count_weight * supports ps
  unfolding score_priorities
  score_list position [] t b d = omega arith
  score_list position (p ∷ ps) t b d =
      let one = score_of-score_priority position p t in
      elim (Bool-cases (is_for p)) [
        | inl e ↦ rw e (
            let o = rw e at one in
            let absent =
              subst (λ k. All (λ q. k ≢ priority_hash c q) ps) (==-eq (priority_hash c p) key e)
                d.0 in
            let r = score_absent (suc position) ps (score_priority c position p t) absent in
            omega (arith, o, r, b))
        | inr e ↦ rw e (
            let o = rw e at one in
            let r =
              score_list (suc position) ps (score_priority c position p t) (omega (arith, b)) d.1 in
            omega (arith, o, r))
      ]

  score_all :
      (proposals : List (Bytes × List Bytes)) (t : Tally)
      → All (WellFormed c) proposals
      → score_of key (score_proposals c proposals t) + penalty proposals
        ≡ score_of key t + count_weight * supporters proposals
  unfolding score_proposals
  score_all [] t h = omega arith
  score_all ((topic, ps) ∷ proposals) t h =
      let b = h.0.0 in
      let one = score_list 0 ps t (omega (arith, b)) h.0.1 in
      let rest = score_all proposals (score_priorities c 0 ps t) h.1 in omega (arith, one, rest)

  -- For proposals of distinct priorities, fewer than MAX_PRIORITIES each, the score of a priority is
  -- COUNT_WEIGHT for each supporter, less the sum of the positions at which they rank it.
  pub score_penalty :
      (proposals : List (Bytes × List Bytes))
      → All (WellFormed c) proposals
      → score_of key (score_proposals c proposals no_tally) + penalty proposals
        ≡ count_weight * supporters proposals
  unfolding score_of get
  score_penalty proposals h = omega (arith, score_all proposals no_tally h)

  -- For proposals of distinct priorities, fewer than MAX_PRIORITIES each, a priority passes the
  -- threshold exactly when its supporters outnumber min_required - 1 by more than the sum of its
  -- positions, in units of COUNT_WEIGHT: positions of different nodes add up.
  pub included_iff :
      (min_required : ℕ) (proposals : List (Bytes × List Bytes))
      → All (WellFormed c) proposals
      → (is_included min_required (score_proposals c proposals no_tally) key ≡ true) ↔ (
          min_required * count_weight + penalty proposals
          < (supporters proposals + 1) * count_weight)
  unfolding is_included
  included_iff min_required proposals h =
      let e = score_penalty proposals h in
      let score = score_of key (score_proposals c proposals no_tally) in
      (
        (λ t.
            let l = ltb→lt (min_required * count_weight) (score + count_weight) t in
            omega (arith, l, e)),
        (λ l. lt→ltb (min_required * count_weight) (score + count_weight) (omega (arith, l, e))),
      )

-- Each key that was seen is the hash of the priority that is recorded under it.
abbrev value_or_nil : Option Bytes → Bytes
value_or_nil none = []
value_or_nil (some v) = v

value_of-put :
    (k j v : Bytes) (scores : Dict Bytes ℕ) (order : List Bytes) (t : Tally)
    → value_of k (record { scores = scores; seen_order = order; values = put j v t.values })
      ≡ (if j == k then v else value_of k t)
unfolding value_of
value_of-put k j v scores order t = elim (Bool-cases (j == k)) [
  | inl e ↦
      (let found : get k (put j v t.values) ≡ some v =
          subst (λ i. get k (put i v t.values) ≡ some v) (sym (==-eq j k e))
            (get-put_self k v t.values) in
        rw e (ap value_or_nil found))
  | inr e ↦ rw e (ap value_or_nil (get-put_ne j k v t.values e))
]

module _ (c : Crypto) where
  abbrev pub Recorded : Tally → Bytes → Type 0
  Recorded t k = priority_hash c (value_of k t) ≡ k

  still-Recorded :
      (p : Bytes) (scores : Dict Bytes ℕ) (order : List Bytes) (t : Tally) (k : Bytes)
      → Recorded t k
      → Recorded
          (record {
            scores = scores;
            seen_order = order;
            values = put (priority_hash c p) p t.values;
          })
          k
  still-Recorded p scores order t k h =
      let new = value_of-put k (priority_hash c p) p scores order t in
      elim (Bool-cases (priority_hash c p == k)) [
        | inl e ↦ ap (priority_hash c) (new ∙ rw e refl) ∙ ==-eq (priority_hash c p) k e
        | inr e ↦ ap (priority_hash c) (new ∙ rw e refl) ∙ h
      ]

  just-Recorded :
      (p : Bytes) (scores : Dict Bytes ℕ) (order : List Bytes) (t : Tally)
      → Recorded
          (record {
            scores = scores;
            seen_order = order;
            values = put (priority_hash c p) p t.values;
          })
          (priority_hash c p)
  just-Recorded p scores order t = ap (priority_hash c) (
      value_of-put (priority_hash c p) (priority_hash c p) p scores order t
      ∙ rw (==-refl (priority_hash c p)) refl)

  priority-Recorded :
      (position : ℕ) (p : Bytes) (t : Tally)
      → All (Recorded t) t.seen_order
      → All (Recorded (score_priority c position p t)) (score_priority c position p t).seen_order
  unfolding score_priority
  priority-Recorded position p t h =
      let k = priority_hash c p in
      let scores = put k (score_of k t + (count_weight - position)) t.scores in
      elim (Bool-cases (has k t.scores)) [
        | inl e ↦ rw e (
            All-mono (Recorded t)
              (Recorded
                (record { scores = scores; seen_order = t.seen_order; values = put k p t.values }))
              t.seen_order (still-Recorded p scores t.seen_order t) h)
        | inr e ↦ rw e (
            let next : Tally = record {
              scores = scores;
              seen_order = t.seen_order ++ k ∷ [];
              values = put k p t.values;
            } in
            All-append (Recorded next) t.seen_order (k ∷ [])
              (All-mono (Recorded t) (Recorded next) t.seen_order
                (still-Recorded p scores (t.seen_order ++ k ∷ []) t) h)
              (just-Recorded p scores (t.seen_order ++ k ∷ []) t, tt))
      ]

  priorities-Recorded :
      (position : ℕ) (ps : List Bytes) (t : Tally)
      → All (Recorded t) t.seen_order
      → All
          (Recorded (score_priorities c position ps t))
          (score_priorities c position ps t).seen_order
  unfolding score_priorities
  priorities-Recorded position [] t h = h
  priorities-Recorded position (p ∷ ps) t h =
      priorities-Recorded (suc position) ps (score_priority c position p t)
        (priority-Recorded position p t h)

  pub proposals-Recorded :
      (proposals : List (Bytes × List Bytes)) (t : Tally)
      → All (Recorded t) t.seen_order
      → All (Recorded (score_proposals c proposals t)) (score_proposals c proposals t).seen_order
  unfolding score_proposals
  proposals-Recorded [] t h = h
  proposals-Recorded ((topic, ps) ∷ proposals) t h =
      proposals-Recorded proposals (score_priorities c 0 ps t) (priorities-Recorded 0 ps t h)
