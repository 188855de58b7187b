-- ===== src/Qbft/Invariant/Fire.antt =====
-- Each rule keeps the invariant, and only a DECIDED can lower the round.
use distributed_validator_sp.Base.{
  ℕ, suc, ◌≤◌, ◌≡◌, refl, ap, ◌∙◌, Bool, true, Option, some, List, [], ◌∷◌, nat_eq, length, count,
  arith, inl, inr, All, ◌≢◌, Dict,
}
use distributed_validator_sp.Types.{Bytes}
use distributed_validator_sp.Crypto.{Crypto}
use distributed_validator_sp.Qbft.Definition.{Definition, quorum, faulty_plus_one}
use distributed_validator_sp.Qbft.Message.{prepare, commit, decided, QbftMsg, QbftConsensusMsg}
use distributed_validator_sp.Qbft.State.{
  nothing, justified_pre_prepare, quorum_prepares, quorum_commits, unjust_quorum_round_changes,
  f_plus_1_round_changes, quorum_round_changes, justified_decided, round_timeout, UponRule,
  QbftConsensus, change_round,
}
use distributed_validator_sp.Qbft.Justify.{matches}
use distributed_validator_sp.Qbft.Handle.{fire}
use distributed_validator_sp.Qbft.Round.Future.{FutureQuorum, frc_round-NextRound}
use distributed_validator_sp.Qbft.Rules.{Quorum, Sound}
use distributed_validator_sp.Qbft.Invariant.Fields.{HasPrepares, IsValid}

pub count_alike :
    (p : QbftMsg → Bool) (js : List QbftMsg) → All (λ j. p j ≡ true) js → count p js ≡ length js
count_alike p [] h = refl
count_alike p (j ∷ js) h = rw h.0 (ap suc (count_alike p js h.1))

HasPrepares-mono :
    (d : Definition) (r r' : ℕ) (pr : Option ℕ) (hash : Option Bytes) (js : List QbftMsg)
    → r ≤ r'
    → HasPrepares d r pr hash js
    → HasPrepares d r' pr hash js
HasPrepares-mono d r r' pr hash js le (inl h) = inl h
HasPrepares-mono d r r' pr hash js le (inr (p, e, b, q, a)) = inr (p, e, omega arith, q, a)

-- What `_change_round` leaves: the given round, and all else that the invariant reads.
pub record Moved (r : ℕ) (s s' : QbftConsensus) : Type 0 where
  pub d : s'.d ≡ s.d
  pub round : s'.round ≡ r
  pub prepared_round : s'.prepared_round ≡ s.prepared_round
  pub prepared_value_hash : s'.prepared_value_hash ≡ s.prepared_value_hash
  pub prepared_justification : s'.prepared_justification ≡ s.prepared_justification
  pub q_commit : s'.q_commit ≡ s.q_commit

pub change_round-Moved : (r : ℕ) (s : QbftConsensus) → Moved r s (change_round r s)
unfolding change_round
change_round-Moved r s = ground arith

-- A later round keeps the invariant of an undecided instance.
Moved-IsValid :
    (r : ℕ) (s s' : QbftConsensus)
    → s.q_commit ≡ []
    → s.round ≤ r
    → Moved r s s'
    → IsValid s
    → IsValid s'
Moved-IsValid r s s' e le m v = record {
  commits = inl (m.q_commit ∙ e);
  prepares = λ _.
      rw (m.d, m.round, m.prepared_round, m.prepared_value_hash, m.prepared_justification)
        (HasPrepares-mono s.d s.round r s.prepared_round s.prepared_value_hash
          s.prepared_justification le (v.prepares e));
}

-- What a call leaves of an instance at the state `s`.
pub record Keeps (cm : QbftConsensusMsg) (s s' : QbftConsensus) : Type 0 where
  pub d : s'.d ≡ s.d
  pub valid : IsValid s'
  pub later : cm.msg.type ≢ decided → s.round ≤ s'.round

-- The new commit quorum is in the round that the message moves the instance to.
decide-IsValid :
    (r : ℕ) (s s' : QbftConsensus) (value : Option Bytes) (js : List QbftMsg)
    → Moved r s s'
    → 1 ≤ quorum s.d
    → quorum s.d ≤ count (matches commit r value) js
    → IsValid (record s' { q_commit = js })
decide-IsValid r s s' value js m n q = record {
  commits = inr (value, rw (m.d, m.round) q);
  prepares = λ e. absurd (let z : quorum s.d ≤ 0 = rw e at q in omega arith);
}

module _ (c : Crypto) (cm : QbftConsensusMsg) (js : List QbftMsg) (s : QbftConsensus)
    (n : 1 ≤ faulty_plus_one s.d) (nq : 1 ≤ quorum s.d) (e : s.q_commit ≡ []) (v : IsValid s) where
  Moved-Keeps : (r : ℕ) (s' : QbftConsensus) → s.round ≤ r → Moved r s s' → Keeps cm s s'
  Moved-Keeps r s' le m = record {
    d = m.d;
    valid = Moved-IsValid r s s' e le m v;
    later = λ _. rw m.round le;
  }

  decided-Keeps :
      (s' : QbftConsensus) (value : Option Bytes)
      → Moved cm.msg.round s s'
      → quorum s.d ≤ count (matches commit cm.msg.round value) js
      → (cm.msg.type ≢ decided → s.round ≤ cm.msg.round)
      → Keeps cm s (record s' { q_commit = js })
  decided-Keeps s' value m q le = record {
    d = m.d;
    valid = decide-IsValid cm.msg.round s s' value js m nq q;
    later = λ h. rw m.round (le h);
  }

  prepared-Keeps :
      Quorum prepare s cm.msg js
      → Keeps cm s (record s {
        prepared_round = some cm.msg.round;
        prepared_value_hash = cm.msg.value_hash;
        prepared_justification = js;
      })
  prepared-Keeps q = record {
    d = refl;
    valid = record {
      commits = v.commits;
      prepares =
          λ _. inr (cm.msg.round, refl, (let r = q.current in omega arith), q.enough, q.alike);
    };
    later = λ _. omega arith;
  }

-- `s` with another record of fired rules, which the invariant does not read.
abbrev pub marked : QbftConsensus → Dict (UponRule × ℕ) Bool → QbftConsensus
marked s rules = record s { dedup_rules = rules }

Keeps-marked :
    (cm : QbftConsensusMsg) (s s' : QbftConsensus) (rules : Dict (UponRule × ℕ) Bool)
    → Keeps cm s s'
    → Keeps cm s (marked s' rules)
Keeps-marked cm s s' rules k = record { d = k.d; valid = k.valid; later = k.later }

marked-Moved :
    (r : ℕ) (s s' : QbftConsensus) (rules : Dict (UponRule × ℕ) Bool)
    → Moved r (marked s rules) s'
    → Moved r s s'
marked-Moved r s s' rules m = record {
  d = m.d;
  round = m.round;
  prepared_round = m.prepared_round;
  prepared_value_hash = m.prepared_value_hash;
  prepared_justification = m.prepared_justification;
  q_commit = m.q_commit;
}

marked-FutureQuorum :
    (s : QbftConsensus) (js : List QbftMsg) (rules : Dict (UponRule × ℕ) Bool)
    → FutureQuorum s js
    → FutureQuorum (marked s rules) js
marked-FutureQuorum s js rules q = record {
  size = q.size;
  future = q.future;
  distinct = q.distinct;
}

pub Keeps-refl : (cm : QbftConsensusMsg) (s : QbftConsensus) → IsValid s → Keeps cm s s
Keeps-refl cm s v = record { d = refl; valid = v; later = λ _. omega arith }

module _ (c : Crypto) (cm : QbftConsensusMsg) (js : List QbftMsg) (s : QbftConsensus)
    (n : 1 ≤ faulty_plus_one s.d) (nq : 1 ≤ quorum s.d) (e : s.q_commit ≡ []) (v : IsValid s)
    (rules : Dict (UponRule × ℕ) Bool) where
  changed : (r : ℕ) → Moved r s (change_round r (marked s rules))
  changed r =
      marked-Moved r s (change_round r (marked s rules)) rules
        (change_round-Moved r (marked s rules))

  future-Keeps :
      FutureQuorum s js → Keeps cm s (fire c f_plus_1_round_changes js cm.msg (marked s rules)).0
  unfolding fire
  future-Keeps q =
      let (r, next) =
        frc_round-NextRound (marked s rules) js n (marked-FutureQuorum s js rules q) in
      rw (next.computed, fire)
        (Moved-Keeps c cm js s n nq e v r (change_round r (marked s rules))
          (let l = next.later in omega arith) (changed r))

  pub fire-Keeps :
      (rule : UponRule)
      → Sound rule js s cm
      → (rule ≡ justified_decided
          → quorum s.d ≤ count (matches commit cm.msg.round cm.msg.value_hash) cm.justification)
      → Keeps cm s (fire c rule js cm.msg (marked s rules)).0
  unfolding fire
  fire-Keeps nothing h j = Keeps-marked cm s s rules (Keeps-refl cm s v)
  fire-Keeps justified_pre_prepare h j =
      Moved-Keeps c cm js s n nq e v cm.msg.round (change_round cm.msg.round (marked s rules)) h.1
        (changed cm.msg.round)
  fire-Keeps quorum_prepares h j = Keeps-marked cm s _ rules (prepared-Keeps c cm js s n nq e v h.1)
  fire-Keeps quorum_commits h j =
      let q = h.1.enough in
      let a = count_alike (matches commit cm.msg.round cm.msg.value_hash) js h.1.alike in
      decided-Keeps c cm js s n nq e v (change_round cm.msg.round (marked s rules))
        cm.msg.value_hash (changed cm.msg.round) (rw a q) (λ _. let r = h.1.current in omega arith)
  fire-Keeps unjust_quorum_round_changes h j = Keeps-marked cm s s rules (Keeps-refl cm s v)
  fire-Keeps f_plus_1_round_changes h j = future-Keeps h.2
  fire-Keeps quorum_round_changes h j = Keeps-marked cm s s rules (Keeps-refl cm s v)
  fire-Keeps justified_decided h j =
      decided-Keeps c cm js s n nq e v (change_round cm.msg.round (marked s rules))
        cm.msg.value_hash (changed cm.msg.round) (rw h.1 (j refl)) (λ k. absurd (k h.0))
  fire-Keeps round_timeout h j = absurd h
