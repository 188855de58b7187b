-- ===== src/Qbft/Invariant/Messages.antt =====
-- Every received message keeps the invariant, whatever it holds and also where the call raises.
use distributed_validator_sp.Base.{
  ℕ, ◌≤◌, ◌≡◌, refl, ◌∙◌, Bool, true, false, List, [], ◌∷◌, ◌==◌, nat_eq, pair_eq, length, count,
  ltb, subst, Dict, has, put, arith, Bool-cases, inl, inr, ◌⊎◌, Result, ok, err,
}
use distributed_validator_sp.Types.{duty_eq}
use distributed_validator_sp.Crypto.{Crypto, Error}
use distributed_validator_sp.Qbft.Definition.{quorum}
use distributed_validator_sp.Qbft.Quorum.{quorum_bounds}
use distributed_validator_sp.Qbft.Message.{commit, QbftMsg, QbftConsensusMsg, verify_msg_limits}
use distributed_validator_sp.Qbft.State.{
  nothing, justified_decided, UponRule, rule_eq, QbftConsensus, buffer_message,
}
use distributed_validator_sp.Qbft.Justify.{matches, is_justified}
use distributed_validator_sp.Qbft.Justified.{justified-decided}
use distributed_validator_sp.Qbft.Classify.{classify}
use distributed_validator_sp.Qbft.Handle.{
  fire, apply_rule, before_decision, store_values, handle_limited, handle_message, run,
}
use distributed_validator_sp.Qbft.Rules.{Sound, classify-Sound}
use distributed_validator_sp.Qbft.Decision.Final.{
  store_values-SameDecision, after_decision-SameDecision, SameDecision,
}
use distributed_validator_sp.Qbft.Invariant.Fields.{IsValid, IsValid-SameDecision}
use distributed_validator_sp.Qbft.Invariant.Fire.{Keeps, Keeps-refl, marked, fire-Keeps}

module _ (c : Crypto) where
  -- A rule is dropped, or fires with another record of fired rules.
  pub apply_rule-cases :
      (rule : UponRule) (js : List QbftMsg) (m : QbftMsg) (s : QbftConsensus)
      → (apply_rule c (rule, js) m s ≡ (s, ok []))
        ⊎ ((rules : Dict (UponRule × ℕ) Bool) × (apply_rule c (rule, js) m s
              ≡ fire c rule js m (marked s rules)))
  unfolding apply_rule
  apply_rule-cases rule js m s = elim (Bool-cases (rule == nothing)) [
    | inl t ↦ inl (rw t)
    | inr f ↦ elim (Bool-cases (has (rule, s.round) s.dedup_rules)) [
      | inl t ↦ inl (rw (f, t))
      | inr g ↦ inr (put (rule, s.round) true s.dedup_rules, rw (f, g))
    ]
  ]

  -- A message that is not justified changes nothing; another one is buffered, and its rule applied.
  pub before_decision-cases :
      (cm : QbftConsensusMsg) (s : QbftConsensus)
      → ((before_decision c cm s).0 ≡ s)
        ⊎ ((is_justified s.d s.duty cm ≡ ok true)
            × (before_decision c cm s
                ≡ apply_rule c (classify (buffer_message cm s) cm) cm.msg (buffer_message cm s)))
  unfolding before_decision
  before_decision-cases cm s = go (is_justified s.d s.duty cm) refl
    where
      go :
          (r : Result Error Bool)
          → is_justified s.d s.duty cm ≡ r
          → ((before_decision c cm s).0 ≡ s)
            ⊎ ((is_justified s.d s.duty cm ≡ ok true)
                × (before_decision c cm s
                    ≡ apply_rule c
                        (classify (buffer_message cm s) cm)
                        cm.msg
                        (buffer_message cm s)))
      go (err x) p = inl (rw (p, before_decision))
      go (ok true) p = inr (p, rw (p, before_decision))
      go (ok false) p = inl (rw (p, before_decision))

module _ (c : Crypto) (cm : QbftConsensusMsg) where
  decided_quorum :
      (s : QbftConsensus) (js : List QbftMsg)
      → is_justified s.d s.duty cm ≡ ok true
      → Sound justified_decided js s cm
      → quorum s.d ≤ count (matches commit cm.msg.round cm.msg.value_hash) cm.justification
  decided_quorum s js j h = (justified-decided s.d s.duty cm h.0).0 j

  apply_rule-Keeps :
      (s : QbftConsensus) (rule : UponRule) (js : List QbftMsg)
      → 1 ≤ s.d.nodes
      → s.q_commit ≡ []
      → IsValid s
      → is_justified s.d s.duty cm ≡ ok true
      → Sound rule js s cm
      → Keeps cm s (apply_rule c (rule, js) cm.msg s).0
  apply_rule-Keeps s rule js n e v j h = elim (apply_rule-cases c rule js cm.msg s) [
    | inl p ↦ rw p (Keeps-refl cm s v)
    | inr (rules, p) ↦
        (let b = quorum_bounds s.d n in
          rw p (
            fire-Keeps c cm js s b.2 (omega arith) e v rules rule h
              (λ q. decided_quorum s js j (subst (λ r. Sound r js s cm) q h))))
  ]

  -- The buffer is not read by the invariant.
  buffered-IsValid : (s : QbftConsensus) → IsValid s → IsValid (buffer_message cm s)
  unfolding buffer_message
  buffered-IsValid s v = v

  buffered-Keeps : (s s' : QbftConsensus) → Keeps cm (buffer_message cm s) s' → Keeps cm s s'
  unfolding buffer_message
  buffered-Keeps s s' k = record { d = k.d; valid = k.valid; later = k.later }

  buffered_same :
      (s : QbftConsensus)
      → ((buffer_message cm s).d ≡ s.d)
        × ((buffer_message cm s).duty ≡ s.duty)
        × ((buffer_message cm s).q_commit ≡ s.q_commit)
  unfolding buffer_message
  buffered_same s = (refl, refl, refl)

  before_decision-Keeps :
      (s : QbftConsensus)
      → 1 ≤ s.d.nodes
      → s.q_commit ≡ []
      → IsValid s
      → Keeps cm s (before_decision c cm s).0
  before_decision-Keeps s n e v = elim (before_decision-cases c cm s) [
    | inl p ↦ rw p (Keeps-refl cm s v)
    | inr (j, p) ↦
        (let b = buffer_message cm s in
          let (same_d, same_duty, same_q) = buffered_same s in
          let nb : 1 ≤ b.d.nodes = rw same_d n in
          rw p (
            buffered-Keeps s _ (
              apply_rule-Keeps b (classify b cm).0 (classify b cm).1 nb (same_q ∙ e)
                (buffered-IsValid s v) (rw (same_d, same_duty) j)
                (classify-Sound b cm (quorum_bounds b.d nb).2))))
  ]

  same-Keeps : (s s' : QbftConsensus) → SameDecision s s' → IsValid s → Keeps cm s s'
  same-Keeps s s' h v = record {
    d = h.d;
    valid = IsValid-SameDecision s s' h v;
    later = λ _. rw h.round (omega arith);
  }

  Keeps-after : (s t u : QbftConsensus) → SameDecision s t → Keeps cm t u → Keeps cm s u
  Keeps-after s t u h k = record {
    d = k.d ∙ h.d;
    valid = k.valid;
    later = λ x. (let a = k.later x in let b = h.round in omega arith);
  }

nil_of_length : (l : List QbftMsg) → ltb 0 (length l) ≡ false → l ≡ []
nil_of_length [] h = refl
nil_of_length (x ∷ l) h = absurd (ground arith)

module _ (c : Crypto) (cm : QbftConsensusMsg) where
  handle_limited-Keeps :
      (s : QbftConsensus) → 1 ≤ s.d.nodes → IsValid s → Keeps cm s (handle_limited c cm s).0
  unfolding handle_limited
  handle_limited-Keeps s n v =
      let stored = store_values-SameDecision c cm.values s in
      let t = store_values c cm.values s in
      let tv = IsValid-SameDecision s t stored v in
      elim (Bool-cases (cm.msg.duty == t.duty)) [
        | inr f ↦ rw f (same-Keeps c cm s t stored v)
        | inl d ↦ elim (Bool-cases (ltb 0 (length t.q_commit))) [
          | inl q ↦
              rw (d, q)
                (Keeps-after c cm s t _ stored
                  (same-Keeps c cm t _ (after_decision-SameDecision c cm t) tv))
          | inr q ↦
              rw (d, q)
                (Keeps-after c cm s t _ stored
                  (before_decision-Keeps c cm t (rw stored.d n) (nil_of_length t.q_commit q) tv))
        ]
      ]

  -- In a cluster of at least one node, a received message, whatever it holds and also where the
  -- call raises, keeps the invariant: a decision is carried by a quorum of COMMITs for one value in
  -- the instance's round, and while there is none, what is prepared is carried by a quorum of
  -- PREPAREs of one round up to the current one. Only a DECIDED can lower the round.
  pub handle_message-Keeps :
      (s : QbftConsensus) → 1 ≤ s.d.nodes → IsValid s → Keeps cm s (handle_message c cm s).0
  unfolding handle_message
  handle_message-Keeps s n v = go (verify_msg_limits cm s.d.nodes) refl
    where
      go :
          (r : Result Error (Unit {0}))
          → verify_msg_limits cm s.d.nodes ≡ r
          → Keeps cm s (handle_message c cm s).0
      go (err x) p = rw (p, handle_message) (Keeps-refl cm s v)
      go (ok u) p = rw (p, handle_message) (handle_limited-Keeps s n v)

module _ (c : Crypto) where
  -- In a cluster of at least one node, any messages lead from a state with the invariant to a
  -- state with the invariant: a decision is carried by a quorum of COMMITs, and while there is
  -- none, what is prepared by a quorum of PREPAREs.
  pub run-IsValid :
      (cms : List QbftConsensusMsg) (s : QbftConsensus)
      → 1 ≤ s.d.nodes
      → IsValid s
      → IsValid (run c cms s)
  unfolding run
  run-IsValid [] s n v = v
  run-IsValid (cm ∷ cms) s n v =
      let k = handle_message-Keeps c cm s n v in
      run-IsValid cms (handle_message c cm s).0 (rw k.d n) k.valid
