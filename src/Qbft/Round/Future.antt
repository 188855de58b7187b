-- ===== src/Qbft/Round/Future.antt =====
-- qbft/protocol.py: the rule F_PLUS_1_ROUND_CHANGES, as `_classify` finds it and as
-- `handle_message` reads its justification.
use distributed_validator_sp.Base.{
  ℕ, suc, ◌≤◌, ◌<◌, ◌≡◌, refl, ap, true, false, some, List, [], ◌∷◌, ◌==◌, nat_eq, length, any,
  Dict, put, keys, values, arith, ok, Bool-cases, inl, inr, ==-eq, All, ◌⊎◌, ◌≢◌, Distinct, put-All,
  keys-put-Distinct, length-put,
}
use distributed_validator_sp.Qbft.Definition.{faulty_plus_one}
use distributed_validator_sp.Qbft.Message.{
  MsgType, pre_prepare, prepare, commit, round_change, decided, msg_type_eq, QbftMsg,
  QbftConsensusMsg,
}
use distributed_validator_sp.Qbft.State.{
  quorum_prepares, quorum_commits, f_plus_1_round_changes, UponRule, QbftConsensus, flatten,
}
use distributed_validator_sp.Qbft.Classify.{
  bare, skips, highest_by_source, future_round_changes, quorum_rule, current_round_changes,
  round_change_rule, classify_as, classify,
}
use distributed_validator_sp.Qbft.Handle.{smaller, smallest_round, frc_round}

-- A ROUND-CHANGE for a round after `round`.
abbrev pub IsFuture : ℕ → QbftMsg → Type 0
IsFuture round j = (j.type ≡ round_change) × (round < j.round)

-- An entry of the dictionary: a future ROUND-CHANGE, under its sender.
abbrev FutureEntry : ℕ → ℕ × QbftConsensusMsg → Type 0
FutureEntry round (k, m) = (m.msg.peer_idx ≡ k) × IsFuture round m.msg

skips_sound :
    (round : ℕ) (highest : Dict ℕ QbftConsensusMsg) (m : QbftConsensusMsg)
    → skips round highest m ≡ false
    → IsFuture round m.msg
unfolding skips
skips_sound round highest m h = (==-eq m.msg.type round_change (ground arith), ground arith)

-- What the loop keeps: its entries are future, one for each sender, at most as many as wanted.
record Collected (round wanted : ℕ) (highest : Dict ℕ QbftConsensusMsg) : Type 0 where
  entries : All (FutureEntry round) highest
  distinct : Distinct (keys highest)
  bounded : length highest ≤ wanted

module _ (round wanted : ℕ) where
  put-Collected :
      (m : QbftConsensusMsg) (highest : Dict ℕ QbftConsensusMsg)
      → IsFuture round m.msg
      → Collected round wanted highest
      → length highest < wanted
      → Collected round wanted (put m.msg.peer_idx m highest)
  put-Collected m highest f c l = record {
    entries = put-All (FutureEntry round) m.msg.peer_idx m highest (refl, f) c.entries;
    distinct = keys-put-Distinct m.msg.peer_idx m highest c.distinct;
    bounded = omega (arith, length-put m.msg.peer_idx m highest);
  }

  highest_by_source-Collected :
      (ms : List QbftConsensusMsg) (highest : Dict ℕ QbftConsensusMsg)
      → Collected round wanted highest
      → length highest < wanted
      → Collected round wanted (highest_by_source round wanted ms highest)
  unfolding highest_by_source
  highest_by_source-Collected [] highest c l = c
  highest_by_source-Collected (m ∷ ms) highest c l = elim (Bool-cases (skips round highest m)) [
    | inl t ↦ rw t (highest_by_source-Collected ms highest c l)
    | inr f ↦
        (let c' = put-Collected m highest (skips_sound round highest m f) c l in
          elim (Bool-cases (length (put m.msg.peer_idx m highest) == wanted)) [
            | inl full ↦ rw (f, full) c'
            | inr more ↦
                rw (f, more)
                  (highest_by_source-Collected ms (put m.msg.peer_idx m highest) c'
                    (let b = c'.bounded in ground arith))
          ])
  ]

abbrev pub senders : List QbftMsg → List ℕ
senders [] = []
senders (j ∷ js) = j.peer_idx ∷ senders js

entries_senders :
    (round : ℕ) (d : Dict ℕ QbftConsensusMsg)
    → All (FutureEntry round) d
    → (senders (bare (values d)) ≡ keys d) × All (IsFuture round) (bare (values d))
unfolding bare
entries_senders round [] h = (refl, tt)
entries_senders round ((k, m) ∷ d) h =
    let (e, a) = entries_senders round d h.1 in ((λ i. h.0.0 i ∷ e i), (h.0.1, a))

length-bare : (d : Dict ℕ QbftConsensusMsg) → length (bare (values d)) ≡ length d
unfolding bare
length-bare [] = refl
length-bare ((k, m) ∷ d) = ap suc (length-bare d)

-- The justification of F_PLUS_1_ROUND_CHANGES: f + 1 ROUND-CHANGEs for later rounds, no two of
-- one sender.
pub record FutureQuorum (s : QbftConsensus) (js : List QbftMsg) : Type 0 where
  pub size : length js ≡ faulty_plus_one s.d
  pub future : All (IsFuture s.round) js
  pub distinct : Distinct (senders js)

module _ (s : QbftConsensus) (ms : List QbftConsensusMsg) (js : List QbftMsg) where
  future_parts :
      future_round_changes s ms ≡ (f_plus_1_round_changes, js)
      → (faulty_plus_one s.d ≤ length (highest_by_source s.round (faulty_plus_one s.d) ms []))
        × (bare (values (highest_by_source s.round (faulty_plus_one s.d) ms [])) ≡ js)
  unfolding future_round_changes
  future_parts h = (ground arith, ground arith)

  pub future_round_changes-FutureQuorum :
      1 ≤ faulty_plus_one s.d
      → future_round_changes s ms ≡ (f_plus_1_round_changes, js)
      → FutureQuorum s js
  future_round_changes-FutureQuorum n h =
      let highest = highest_by_source s.round (faulty_plus_one s.d) ms [] in
      let (enough, e) = future_parts h in
      let start : Collected s.round (faulty_plus_one s.d) [] = record {
        entries = tt;
        distinct = tt;
        bounded = omega arith;
      } in
      let c = highest_by_source-Collected s.round (faulty_plus_one s.d) ms [] start (omega arith) in
      let (same, future) = entries_senders s.round highest c.entries in
      rw (← e) (record {
        size = (let b = c.bounded in omega (arith, length-bare highest));
        future = future;
        distinct = rw same c.distinct;
      })

-- `r` is the smallest round of the messages, or the start.
record Smallest (current : ℕ) (js : List QbftMsg) (start r : ℕ) : Type 0 where
  after : current < start → current < r
  below_start : r ≤ start
  below : All (λ j. r ≤ j.round) js
  attained : (r ≡ start) ⊎ (any (λ j. j.round == r) js ≡ true)

Smallest-from :
    (current : ℕ) (js : List QbftMsg) (start : ℕ)
    → All (IsFuture current) js
    → (r : ℕ) × (smallest_round current js (some start) ≡ ok r) × Smallest current js start r
unfolding smallest_round
Smallest-from current [] start h = (
  start,
  refl,
  record { after = λ h. h; below_start = omega arith; below = tt; attained = inl refl },
)
Smallest-from current (j ∷ js) start h =
    let (r, e, m) = Smallest-from current js (smaller (some start) j.round) h.1 in
    (
      r,
      ground arith,
      record {
        after = λ lt. m.after (let b = h.0.1 in ground arith);
        below_start = (let b = m.below_start in ground arith);
        below = ((let b = m.below_start in ground arith), m.below);
        attained = (let a = m.attained in ground arith);
      },
    )

-- What `int(rmin)` is at such a justification: the smallest of its rounds, after the current one.
pub record NextRound (s : QbftConsensus) (js : List QbftMsg) (r : ℕ) : Type 0 where
  pub computed : frc_round s js ≡ ok r
  pub later : s.round < r
  pub below : All (λ j. r ≤ j.round) js
  pub attained : any (λ j. j.round == r) js ≡ true

pub frc_round-NextRound :
    (s : QbftConsensus) (js : List QbftMsg)
    → 1 ≤ faulty_plus_one s.d
    → FutureQuorum s js
    → (r : ℕ) × NextRound s js r
unfolding frc_round smallest_round
frc_round-NextRound s [] n q = absurd (let e = q.size in omega arith)
frc_round-NextRound s (j ∷ js) n q =
    let future = q.future in
    let (r, e, m) = Smallest-from s.round js j.round future.1 in
    let size = q.size in
    (
      r,
      record {
        computed = ground arith;
        later = m.after future.0.1;
        below = (m.below_start, m.below);
        attained = (let a = m.attained in ground arith);
      },
    )

current_not_future :
    (s : QbftConsensus) (m : QbftMsg) (ms js : List QbftMsg)
    → current_round_changes s m ms ≢ (f_plus_1_round_changes, js)
unfolding current_round_changes
current_not_future s m ms js h = ground arith

quorum_rule-not_future :
    (type : MsgType) (rule : UponRule) (s : QbftConsensus) (m : QbftMsg) (js : List QbftMsg)
    → rule ≢ f_plus_1_round_changes
    → quorum_rule type rule s m ≢ (f_plus_1_round_changes, js)
unfolding quorum_rule
quorum_rule-not_future type rule s m js n h = ground arith

module _ (s : QbftConsensus) (cm : QbftConsensusMsg) (js : List QbftMsg)
    (n : 1 ≤ faulty_plus_one s.d) where
  classify_as-FutureQuorum :
      (type : MsgType) → classify_as type s cm ≡ (f_plus_1_round_changes, js) → FutureQuorum s js
  unfolding classify_as round_change_rule
  classify_as-FutureQuorum pre_prepare h = absurd (ground arith)
  classify_as-FutureQuorum prepare h =
      absurd (quorum_rule-not_future prepare quorum_prepares s cm.msg js (λ e. cc) h)
  classify_as-FutureQuorum commit h =
      absurd (quorum_rule-not_future commit quorum_commits s cm.msg js (λ e. cc) h)
  classify_as-FutureQuorum decided h = absurd (cc)
  classify_as-FutureQuorum round_change h =
      future_round_changes-FutureQuorum s (flatten s) js n
        (ground (arith, current_not_future s cm.msg (bare (flatten s)) js))

  -- In a cluster of at least one node the rule F_PLUS_1_ROUND_CHANGES comes with f + 1 ROUND-CHANGEs
  -- for later rounds, no two of one sender. So none of its three errors is raised, and the round
  -- that it changes to is the smallest of theirs, which is after the current one.
  pub classify-NextRound :
      classify s cm ≡ (f_plus_1_round_changes, js)
      → FutureQuorum s js × ((r : ℕ) × NextRound s js r)
  unfolding classify
  classify-NextRound h =
      let q = classify_as-FutureQuorum cm.msg.type h in (q, frc_round-NextRound s js n q)
