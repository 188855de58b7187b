-- ===== src/Qbft/Decision/Resends.antt =====
-- qbft/protocol.py: the bound on the DECIDED broadcasts that a peer's messages trigger after the
-- decision (`_allow_decided_resend` and the first half of `handle_message`).
use distributed_validator_sp.Base.{
  ℕ, ◌+◌, ◌≤◌, ◌<◌, ◌≡◌, Bool, true, List, [], ◌∷◌, ◌==◌, nat_eq, length, if◌then◌else◌, get,
  get-put_self, get-put_ne, arith, ok, lt→ltb, Bool-cases, inl, inr, ==-eq,
}
use distributed_validator_sp.Types.{duty_eq}
use distributed_validator_sp.Crypto.{Crypto}
use distributed_validator_sp.Qbft.Message.{QbftConsensusMsg}
use distributed_validator_sp.Qbft.State.{
  QbftConsensus, allow_decided_resend, or_zeros, max_decided_resends,
}
use distributed_validator_sp.Qbft.Handle.{
  Reply, store_values, after_decision, handle_limited, handle_message,
}
use distributed_validator_sp.Qbft.Decision.Final.{
  store_values-SameDecision, handle_message-SameDecision, decided_resends-store_values,
}

-- The count of resends that the instance has on record for a peer.
abbrev pub served : ℕ → QbftConsensus → ℕ
served p s = (or_zeros (get p s.decided_resends)).1

-- The highest round for which a resend to a peer is on record.
abbrev pub served_round : ℕ → QbftConsensus → ℕ
served_round p s = (or_zeros (get p s.decided_resends)).0

-- One if the reply holds a message.
abbrev pub sent : Reply → ℕ
sent (ok (m ∷ ms)) = 1
sent _ = 0

module _ (p : ℕ) (s : QbftConsensus) where
  -- A permitted resend is for a round above those served, is counted, and is within the cap; a
  -- refused one changes nothing.
  pub record Permits (peer_idx round : ℕ) (s' : QbftConsensus) (allowed : Bool) : Type 0 where
    pub grows : served p s ≤ served p s'
    pub capped : served p s ≤ max_decided_resends → served p s' ≤ max_decided_resends
    pub counted : allowed ≡ true → peer_idx ≡ p → served p s + 1 ≤ served p s'

  allow_decided_resend-Permits :
      (peer_idx round : ℕ)
      → Permits peer_idx round
          (allow_decided_resend peer_idx round s).0
          (allow_decided_resend peer_idx round s).1
  unfolding allow_decided_resend
  allow_decided_resend-Permits peer_idx round = elim (Bool-cases (peer_idx == p)) [
    | inl t ↦
        (let e = ==-eq peer_idx p t in
          rw e (
            ground (
              arith,
              get-put_self p (round, (or_zeros (get p s.decided_resends)).1 + 1) s.decided_resends,
            )))
    | inr f ↦ ground (
      arith,
      get-put_ne peer_idx p (round, (or_zeros (get peer_idx s.decided_resends)).1 + 1)
          s.decided_resends,
    )
  ]

-- A call of `handle_message` keeps the count in the cap, and counts a reply to a message of `p`.
record Counts (p : ℕ) (cm : QbftConsensusMsg) (s s' : QbftConsensus) (reply : Reply) : Type 0 where
  grows : served p s ≤ served p s'
  capped : served p s ≤ max_decided_resends → served p s' ≤ max_decided_resends
  counted : cm.msg.peer_idx ≡ p → served p s + sent reply ≤ served p s'

module _ (c : Crypto) (p : ℕ) (cm : QbftConsensusMsg) (s : QbftConsensus) where
  after_decision-Counts : Counts p cm s (after_decision c cm s).0 (after_decision c cm s).1
  unfolding after_decision
  after_decision-Counts =
      ground (arith, allow_decided_resend-Permits p s cm.msg.peer_idx cm.msg.round)

module _ (c : Crypto) (p : ℕ) (cm : QbftConsensusMsg) (s : QbftConsensus) where
  handle_limited-Counts :
      0 < length s.q_commit → Counts p cm s (handle_limited c cm s).0 (handle_limited c cm s).1
  unfolding handle_limited
  handle_limited-Counts h =
      let stored = store_values-SameDecision c cm.values s in
      let s' = store_values c cm.values s in
      let e = decided_resends-store_values c cm.values s in
      elim (Bool-cases (cm.msg.duty == s'.duty)) [
        | inl t ↦
            rw (t, lt→ltb 0 (length s'.q_commit) (rw stored.q_commit h))
              (ground (arith, e, after_decision-Counts c p cm s'))
        | inr f ↦ rw f (ground (arith, e))
      ]

  handle_message-Counts :
      0 < length s.q_commit → Counts p cm s (handle_message c cm s).0 (handle_message c cm s).1
  unfolding handle_message
  handle_message-Counts h = ground (arith, handle_limited-Counts h)

-- The replies that hold a broadcast, among those to messages of peer `p`.
abbrev pub broadcasts : Crypto → ℕ → List QbftConsensusMsg → QbftConsensus → ℕ
broadcasts c p [] s = 0
broadcasts c p (cm ∷ cms) s =
    (if cm.msg.peer_idx == p then sent (handle_message c cm s).1 else 0)
    + broadcasts c p cms (handle_message c cm s).0

module _ (c : Crypto) (p : ℕ) where
  -- Once an instance has decided, with at most 16 resends to a peer on record, the broadcasts that
  -- any messages of that peer trigger from then on are at most 16, less those on record.
  pub broadcasts_capped :
      (cms : List QbftConsensusMsg) (s : QbftConsensus)
      → 0 < length s.q_commit
      → served p s ≤ max_decided_resends
      → broadcasts c p cms s + served p s ≤ max_decided_resends
  broadcasts_capped [] s h k = omega arith
  broadcasts_capped (cm ∷ cms) s h k =
      let one = handle_message-Counts c p cm s h in
      let same = handle_message-SameDecision c cm s h in
      let rest =
        broadcasts_capped cms (handle_message c cm s).0 (rw same.q_commit h) (one.capped k) in
      elim (Bool-cases (cm.msg.peer_idx == p)) [
        | inl t ↦ rw t (let n = one.counted (==-eq cm.msg.peer_idx p t) in omega arith)
        | inr f ↦ rw f (let n = one.grows in omega arith)
      ]
