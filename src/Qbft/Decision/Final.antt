-- ===== src/Qbft/Decision/Final.antt =====
-- qbft/protocol.py: after the decision a message changes the stored values and the count of
-- resends, and nothing else.
use distributed_validator_sp.Base.{
  ◌<◌, ◌≡◌, refl, List, [], ◌∷◌, ◌==◌, nat_eq, length, arith, lt→ltb, Bool-cases, inl, inr,
}
use distributed_validator_sp.Types.{Bytes, duty_eq}
use distributed_validator_sp.Crypto.{Crypto}
use distributed_validator_sp.Qbft.Message.{QbftConsensusMsg}
use distributed_validator_sp.Qbft.State.{QbftConsensus, allow_decided_resend}
use distributed_validator_sp.Qbft.Handle.{
  store_values, after_decision, handle_limited, handle_message, run,
}

-- All of the state but the transport and the record of resends.
pub record SameDecision (s s' : QbftConsensus) : Type 0 where
  pub d : s'.d ≡ s.d
  pub duty : s'.duty ≡ s.duty
  pub peer : s'.peer ≡ s.peer
  pub proposal_value : s'.proposal_value ≡ s.proposal_value
  pub round : s'.round ≡ s.round
  pub prepared_round : s'.prepared_round ≡ s.prepared_round
  pub prepared_value : s'.prepared_value ≡ s.prepared_value
  pub prepared_value_hash : s'.prepared_value_hash ≡ s.prepared_value_hash
  pub prepared_justification : s'.prepared_justification ≡ s.prepared_justification
  pub q_commit : s'.q_commit ≡ s.q_commit
  pub buffer : s'.buffer ≡ s.buffer
  pub dedup_rules : s'.dedup_rules ≡ s.dedup_rules

pub SameDecision-refl : (s : QbftConsensus) → SameDecision s s
SameDecision-refl s = ground arith

pub SameDecision-trans :
    {s t u : QbftConsensus} → SameDecision s t → SameDecision t u → SameDecision s u
SameDecision-trans p q = ground arith

module _ (c : Crypto) where
  pub store_values-SameDecision :
      (vs : List Bytes) (s : QbftConsensus) → SameDecision s (store_values c vs s)
  unfolding store_values
  store_values-SameDecision [] s = ground arith
  store_values-SameDecision (v ∷ vs) s = ground arith

  pub decided_resends-store_values :
      (vs : List Bytes) (s : QbftConsensus)
      → (store_values c vs s).decided_resends ≡ s.decided_resends
  unfolding store_values
  decided_resends-store_values [] s = refl
  decided_resends-store_values (v ∷ vs) s = refl

  pub after_decision-SameDecision :
      (cm : QbftConsensusMsg) (s : QbftConsensus) → SameDecision s (after_decision c cm s).0
  unfolding after_decision allow_decided_resend
  after_decision-SameDecision cm s = ground arith

  handle_limited-SameDecision :
      (cm : QbftConsensusMsg) (s : QbftConsensus)
      → 0 < length s.q_commit
      → SameDecision s (handle_limited c cm s).0
  unfolding handle_limited
  handle_limited-SameDecision cm s h =
      let stored = store_values-SameDecision cm.values s in
      let s' = store_values c cm.values s in
      elim (Bool-cases (cm.msg.duty == s'.duty)) [
        | inl t ↦
            rw (t, lt→ltb 0 (length s'.q_commit) (rw stored.q_commit h))
              (SameDecision-trans stored (after_decision-SameDecision cm s'))
        | inr f ↦ rw f stored
      ]

  pub handle_message-SameDecision :
      (cm : QbftConsensusMsg) (s : QbftConsensus)
      → 0 < length s.q_commit
      → SameDecision s (handle_message c cm s).0
  unfolding handle_message
  handle_message-SameDecision cm s h = ground (arith, handle_limited-SameDecision cm s h)

  -- Once an instance has decided, no messages whatever change its round, its commit quorum, what it
  -- has prepared, its buffer or its fired rules.
  pub run-SameDecision :
      (cms : List QbftConsensusMsg) (s : QbftConsensus)
      → 0 < length s.q_commit
      → SameDecision s (run c cms s)
  unfolding run
  run-SameDecision [] s h = SameDecision-refl s
  run-SameDecision (cm ∷ cms) s h =
      let one = handle_message-SameDecision cm s h in
      SameDecision-trans one (run-SameDecision cms (handle_message c cm s).0 (rw one.q_commit h))
