-- ===== src/Qbft/Handle.antt =====
-- qbft/protocol.py: `handle_message`. What was assigned before an exception stays assigned, so the
-- state comes back beside the error too.
use distributed_validator_sp.Base.{
  ℕ, true, ◌&&◌, not, Option, none, some, List, [], ◌∷◌, map, ◌==◌, nat_eq, pair_eq, list_eq, ltb,
  leb, if◌then◌else◌, length, keys, get, put, has, Result, ok, err,
}
use distributed_validator_sp.Types.{Bytes, duty_eq}
use distributed_validator_sp.Crypto.{
  Crypto, Error, frc_too_short, frc_non_round_change, frc_round_not_in_future, unknown_rule,
  infinite_round,
}
use distributed_validator_sp.Encoding.Ssz.{hash_proto}
use distributed_validator_sp.Qbft.Definition.{quorum, faulty_plus_one}
use distributed_validator_sp.Qbft.Message.{
  MsgType, pre_prepare, prepare, commit, round_change, decided, msg_type_eq, QbftMsg,
  QbftConsensusMsg, verify_msg_limits,
}
use distributed_validator_sp.Qbft.Transport.{
  set_values, broadcast_message, broadcast_round_change, broadcast_pre_prepare,
}
use distributed_validator_sp.Qbft.State.{
  UponRule, nothing, justified_pre_prepare, quorum_prepares, quorum_commits,
  unjust_quorum_round_changes, f_plus_1_round_changes, quorum_round_changes, justified_decided,
  round_timeout, rule_eq, QbftConsensus, buffer_message, change_round, allow_decided_resend,
}
use distributed_validator_sp.Qbft.Justify.{prepare_counts, max_by_round, or_zero, is_justified}
use distributed_validator_sp.Qbft.Classify.{classify}

abbrev pub Reply : Type 0
Reply = Result Error (List QbftConsensusMsg)

-- min(rmin, r), where `none` stands for infinity
abbrev pub smaller : Option ℕ → ℕ → ℕ
smaller none r = r
smaller (some rmin) r = if ltb r rmin then r else rmin

-- The loop of F_PLUS_1_ROUND_CHANGES, and `int(rmin)`, which fails at infinity.
unfoldable pub smallest_round : ℕ → List QbftMsg → Option ℕ → Result Error ℕ
smallest_round current [] none = err infinite_round
smallest_round current [] (some r) = ok r
smallest_round current (j ∷ js) rmin =
    let rest = smallest_round current js (some (smaller rmin j.round)) in
    if not (j.type == round_change)
    then err frc_non_round_change
    else if leb j.round current
    then err frc_round_not_in_future
    else rest

unfoldable pub frc_round : QbftConsensus → List QbftMsg → Result Error ℕ
unfolding smallest_round faulty_plus_one
frc_round s justification =
    if ltb (length justification) (faulty_plus_one s.d)
    then err frc_too_short
    else smallest_round s.round justification none

module _ (c : Crypto) where
  -- A broadcast of a message for a value; no broadcast where there is none.
  unfoldable pub broadcast_value : QbftConsensus → MsgType → Option Bytes → List QbftMsg → Reply
  unfolding broadcast_message
  broadcast_value s type none justification = ok []
  broadcast_value s type (some hash) justification =
      broadcast_message c s.t type s.duty s.peer s.round hash justification none none

  -- The PRE-PREPARE of a new leader: the value of the highest prepared round, or its own.
  unfoldable pub lead_round : QbftConsensus → List QbftMsg → Reply
  unfolding prepare_counts max_by_round broadcast_message broadcast_pre_prepare quorum get
      hash_proto
  lead_round s justification =
      let counts = prepare_counts justification [] in
      let own =
        broadcast_pre_prepare c s.t s.duty s.peer s.round (hash_proto c s.proposal_value)
          justification in
      elim (max_by_round (keys counts)) [
        | err e ↦ own
        | ok (pr, hash) ↦
            if leb (quorum s.d) (or_zero (get (pr, hash) counts))
            then broadcast_message c s.t pre_prepare s.duty s.peer s.round hash justification none
                none
            else own
      ]

  unfoldable pub send_round_change : QbftConsensus → Reply
  unfolding broadcast_round_change
  send_round_change s =
      broadcast_round_change c s.t s.duty s.peer s.round s.prepared_round s.prepared_value_hash
        s.prepared_justification

  -- The `match rule` of `handle_message`, once the rule is recorded.
  unfoldable pub fire : UponRule → List QbftMsg → QbftMsg → QbftConsensus → QbftConsensus × Reply
  unfolding change_round broadcast_value lead_round send_round_change frc_round
  fire justified_pre_prepare justification m s =
      let s' = change_round m.round s in (s', broadcast_value s' prepare m.value_hash [])
  fire quorum_prepares justification m s =
      let s' = record s {
        prepared_round = some m.round;
        prepared_value_hash = m.value_hash;
        prepared_justification = justification;
      } in
      (s', broadcast_value s' commit m.value_hash [])
  fire quorum_commits justification m s =
      let s' = change_round m.round s in (record s' { q_commit = justification }, ok [])
  fire justified_decided justification m s =
      let s' = change_round m.round s in (record s' { q_commit = justification }, ok [])
  fire f_plus_1_round_changes justification m s = elim (frc_round s justification) [
    | err e ↦ (s, err e)
    | ok r ↦ (let s' = change_round r s in (s', send_round_change s'))
  ]
  fire quorum_round_changes justification m s = (s, lead_round s justification)
  fire unjust_quorum_round_changes justification m s = (s, ok [])
  fire nothing justification m s = (s, err unknown_rule)
  fire round_timeout justification m s = (s, err unknown_rule)

  -- From the rule on: `nothing` and a rule that was fired in this round end the call.
  unfoldable pub apply_rule :
      UponRule × List QbftMsg → QbftMsg → QbftConsensus → QbftConsensus × Reply
  unfolding fire has put rule_eq
  apply_rule (rule, justification) m s =
      let key : UponRule × ℕ = (rule, s.round) in
      if rule == nothing
      then (s, ok [])
      else if has key s.dedup_rules
      then (s, ok [])
      else fire rule justification m (record s { dedup_rules = put key true s.dedup_rules })

  unfoldable pub before_decision : QbftConsensusMsg → QbftConsensus → QbftConsensus × Reply
  unfolding is_justified buffer_message classify apply_rule
  before_decision cm s = elim (is_justified s.d s.duty cm) [
    | err e ↦ (s, err e)
    | ok b ↦
        if b
        then (let s' = buffer_message cm s in apply_rule (classify s' cm) cm.msg s')
        else (s, ok [])
  ]

  -- The DECIDED broadcast, for the value of the first message of `q_commit`.
  unfoldable pub resend_decided : QbftConsensus → List QbftMsg → Reply
  unfolding broadcast_value
  resend_decided s [] = ok []
  resend_decided s (q ∷ qs) = broadcast_value s decided q.value_hash (q ∷ qs)

  unfoldable pub after_decision : QbftConsensusMsg → QbftConsensus → QbftConsensus × Reply
  unfolding allow_decided_resend resend_decided
  after_decision cm s =
      let m = cm.msg in
      let (s', allowed) = allow_decided_resend m.peer_idx m.round s in
      if not (m.peer_idx == s.peer) && m.type == round_change
      then (if allowed then (s', resend_decided s' s'.q_commit) else (s', ok []))
      else (s, ok [])

  unfoldable pub store_values : List Bytes → QbftConsensus → QbftConsensus
  unfolding set_values hash_proto
  store_values [] s = s
  store_values (v ∷ vs) s = record s {
    t = set_values (map (λ w. (hash_proto c w, w)) (v ∷ vs)) s.t;
  }

  -- After the limits: values are stored, and only messages for the instance's duty go on.
  unfoldable pub handle_limited : QbftConsensusMsg → QbftConsensus → QbftConsensus × Reply
  unfolding store_values before_decision after_decision
  handle_limited cm s₀ =
      let s = store_values cm.values s₀ in
      if not (cm.msg.duty == s.duty)
      then (s, ok [])
      else if ltb 0 (length s.q_commit)
      then after_decision cm s
      else before_decision cm s

  unfoldable pub handle_message : QbftConsensusMsg → QbftConsensus → QbftConsensus × Reply
  unfolding verify_msg_limits handle_limited
  handle_message cm s = elim (verify_msg_limits cm s.d.nodes) [
    | err e ↦ (s, err e)
    | ok _ ↦ handle_limited cm s
  ]

  -- The states that a list of received messages leads to.
  unfoldable pub run : List QbftConsensusMsg → QbftConsensus → QbftConsensus
  unfolding handle_message
  run [] s = s
  run (cm ∷ cms) s = run cms (handle_message cm s).0
