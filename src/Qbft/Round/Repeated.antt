-- ===== src/Qbft/Round/Repeated.antt =====
-- qbft/protocol.py: how often the rule of a PRE-PREPARE fires in a round.
use distributed_validator_sp.Base.{
  ℕ, ◌≡◌, refl, sym, ap, ◌∙◌, true, false, Option, none, some, [], ◌==◌, ==-refl, nat_eq, pair_eq,
  if◌then◌else◌, has, has-put, put, ok, Bool-cases, inl, inr,
}
use distributed_validator_sp.Types.{Bytes}
use distributed_validator_sp.Crypto.{Crypto}
use distributed_validator_sp.Qbft.Message.{prepare, QbftMsg}
use distributed_validator_sp.Qbft.State.{
  UponRule, justified_pre_prepare, rule_eq, QbftConsensus, change_round,
}
use distributed_validator_sp.Qbft.Handle.{broadcast_value, apply_rule, Reply}

abbrev key_in : QbftConsensus → UponRule × ℕ
key_in s = (justified_pre_prepare, s.round)

-- The state with the rule recorded for the round.
abbrev marked : QbftConsensus → QbftConsensus
marked s = record s { dedup_rules = put (key_in s) true s.dedup_rules }

nothing_seen : (s : QbftConsensus) → s.dedup_rules ≡ [] → has (key_in s) s.dedup_rules ≡ false
unfolding has
nothing_seen s e = rw e refl

module _ (c : Crypto) where
  -- The state that the first PRE-PREPARE of the two leads to.
  abbrev pub after_first : QbftMsg → QbftConsensus → QbftConsensus
  after_first m s = (apply_rule c (justified_pre_prepare, []) m s).0

  fires :
      (m : QbftMsg) (s : QbftConsensus)
      → has (key_in s) s.dedup_rules ≡ false
      → apply_rule c (justified_pre_prepare, []) m s ≡ (
          let s' = change_round m.round (marked s) in
          (s', broadcast_value c s' prepare m.value_hash []))
  unfolding apply_rule
  fires m s h = rw (apply_rule, h) refl

  ignored :
      (m : QbftMsg) (s : QbftConsensus)
      → has (key_in s) s.dedup_rules ≡ true
      → (apply_rule c (justified_pre_prepare, []) m s).1 ≡ ok []
  unfolding apply_rule
  ignored m s h = rw (apply_rule, h) refl

  stays :
      (m : QbftMsg) (s : QbftConsensus)
      → (m.round == s.round) ≡ true
      → change_round m.round (marked s) ≡ marked s
  unfolding change_round
  stays m s t = rw t

  moves :
      (m : QbftMsg) (s : QbftConsensus)
      → (m.round == s.round) ≡ false
      → change_round m.round (marked s) ≡ record s { round = m.round; dedup_rules = [] }
  unfolding change_round
  moves m s f = rw f

  -- The broadcast does not read the recorded rules.
  marked_broadcast :
      (hash : Option Bytes) (s : QbftConsensus)
      → broadcast_value c (marked s) prepare hash [] ≡ broadcast_value c s prepare hash []
  unfolding broadcast_value
  marked_broadcast none s = refl
  marked_broadcast (some v) s = refl

  same_broadcast :
      (n : QbftMsg) (s : QbftConsensus)
      → n.round ≡ s.round
      → broadcast_value c (change_round n.round (marked s)) prepare n.value_hash []
        ≡ broadcast_value c s prepare n.value_hash []
  same_broadcast n s r =
      let t : (n.round == s.round) ≡ true = rw r (==-refl s.round) in
      ap (λ u. broadcast_value c u prepare n.value_hash []) (stays n s t)
      ∙ marked_broadcast n.value_hash s

  -- When the rule of a PRE-PREPARE has not fired in the current round, it is applied to two
  -- messages of one round, one after the other: if the first one was for the current round, the
  -- second is ignored, but if the first one moved the instance to its round, the rule fires again,
  -- and a PREPARE for the second value is broadcast too.
  pub second_pre_prepare :
      (m n : QbftMsg) (s : QbftConsensus)
      → has {K = UponRule × ℕ} (justified_pre_prepare, s.round) s.dedup_rules ≡ false
      → n.round ≡ m.round
      → (apply_rule c (justified_pre_prepare, []) n (after_first m s)).1 ≡ (
          if m.round == s.round
          then ok []
          else broadcast_value c (after_first m s) prepare n.value_hash [])
  second_pre_prepare m n s h r = elim (Bool-cases (m.round == s.round)) [
    | inl t ↦
        (let e : after_first m s ≡ marked s =
            ap (λ (p : QbftConsensus × Reply). p.0) (fires m s h) ∙ stays m s t in
          rw t (
            ap (λ u. (apply_rule c (justified_pre_prepare, []) n u).1) e
            ∙ ignored n (marked s) (has-put (key_in s) true s.dedup_rules)))
    | inr f ↦
        (let moved : QbftConsensus = record s { round = m.round; dedup_rules = [] } in
          let e : after_first m s ≡ moved =
            ap (λ (p : QbftConsensus × Reply). p.0) (fires m s h) ∙ moves m s f in
          rw f (
            ap (λ u. (apply_rule c (justified_pre_prepare, []) n u).1) e
            ∙ ap (λ (p : QbftConsensus × Reply). p.1) (fires n moved (nothing_seen moved refl))
            ∙ same_broadcast n moved r
            ∙ ap (λ u. broadcast_value c u prepare n.value_hash []) (sym e)))
  ]
