-- ===== src/Tests/Qbft.antt =====
-- The consensus instance: test runs, and its theorems at concrete inputs.
use distributed_validator_sp.Base.{
  ℕ, ◌+◌, ◌≤◌, ◌<◌, ◌≡◌, refl, true, none, some, List, [], ◌∷◌, length, arith, ok, err, ◌↔◌, ◌⊎◌,
  replicate,
}
use distributed_validator_sp.Crypto.{empty_max}
use distributed_validator_sp.Qbft.Definition.{quorum, faulty_plus_one, is_leader}
use distributed_validator_sp.Qbft.Quorum.{quorum_bounds}
use distributed_validator_sp.Qbft.Message.{
  pre_prepare, prepare, commit, round_change, decided, QbftMsg, QbftConsensusMsg,
}
use distributed_validator_sp.Qbft.State.{
  QbftConsensus, new_instance, f_plus_1_round_changes, max_decided_resends, buffer_message,
}
use distributed_validator_sp.Qbft.Justify.{is_justified}
use distributed_validator_sp.Qbft.Justified.{
  LaterJustified, IsMalformed, justified-pre_prepare, justified_raises,
}
use distributed_validator_sp.Qbft.Classify.{classify}
use distributed_validator_sp.Qbft.Handle.{handle_message, run}
use distributed_validator_sp.Qbft.Rules.{Sound, classify-Sound}
use distributed_validator_sp.Qbft.Round.Future.{FutureQuorum, NextRound, classify-NextRound}
use distributed_validator_sp.Qbft.Decision.Final.{SameDecision, run-SameDecision}
use distributed_validator_sp.Qbft.Decision.Resends.{served, broadcasts, broadcasts_capped}
use distributed_validator_sp.Qbft.Invariant.{
  IsValid, IsValid-new_instance, Keeps, handle_message-Keeps,
}
use distributed_validator_sp.Tests.Cluster.{
  toy, four, duty, transport, proposal, start, hash, msg, prepared_msg, alone, with_justification,
  decided_msg,
}

-- The state after a DECIDED with three COMMITs of round 3.
abbrev decided_state : QbftConsensus
decided_state = (handle_message toy decided_msg start).0

decided_round : decided_state.round ≡ 3
unfolding handle_message new_instance
decided_round = refl

decided_length : length decided_state.q_commit ≡ 3
unfolding handle_message new_instance
decided_length = refl

decided_nonempty : 0 < length decided_state.q_commit
decided_nonempty = omega (arith, decided_length)

abbrev later_msgs : List QbftConsensusMsg
later_msgs = alone (msg round_change 2 4 none) ∷ alone (msg prepare 0 3 (some hash)) ∷ []

run-SameDecision_example : SameDecision decided_state (run toy later_msgs decided_state)
run-SameDecision_example = run-SameDecision toy later_msgs decided_state decided_nonempty

served_none : served 2 decided_state ≤ max_decided_resends
unfolding handle_message new_instance
served_none = omega arith

broadcasts_capped_example :
    broadcasts toy 2 later_msgs decided_state + served 2 decided_state ≤ max_decided_resends
broadcasts_capped_example =
    broadcasts_capped toy 2 later_msgs decided_state decided_nonempty served_none

-- The resend is made: the bound is not met by silence.
resends_once : broadcasts toy 2 later_msgs decided_state ≡ 1
unfolding handle_message new_instance
resends_once = refl

start-IsValid : IsValid start
start-IsValid = IsValid-new_instance toy four transport duty 1 proposal

nodes_pos : 1 ≤ start.d.nodes
unfolding new_instance
nodes_pos = omega arith

handle_message-Keeps_example : Keeps decided_msg start (handle_message toy decided_msg start).0
handle_message-Keeps_example = handle_message-Keeps toy decided_msg start nodes_pos start-IsValid

-- A peer that has buffered a ROUND-CHANGE for round 3 gets one for round 2 of another peer.
abbrev waiting : QbftConsensus
waiting = (handle_message toy (alone (msg round_change 3 3 none)) start).0

abbrev second_msg : QbftConsensusMsg
second_msg = alone (msg round_change 2 2 none)

abbrev collecting : QbftConsensus
collecting = buffer_message second_msg waiting

abbrev future_msgs : List QbftMsg
future_msgs = msg round_change 3 3 none ∷ msg round_change 2 2 none ∷ []

collecting_faulty : 1 ≤ faulty_plus_one collecting.d
unfolding buffer_message handle_message new_instance
collecting_faulty = omega arith

collecting_rule : classify collecting second_msg ≡ (f_plus_1_round_changes, future_msgs)
unfolding classify buffer_message handle_message new_instance
collecting_rule = refl

classify-NextRound_example :
    FutureQuorum collecting future_msgs × ((r : ℕ) × NextRound collecting future_msgs r)
classify-NextRound_example =
    classify-NextRound collecting second_msg future_msgs collecting_faulty collecting_rule

classify-Sound_example :
    Sound
      (classify collecting second_msg).0
      (classify collecting second_msg).1
      collecting
      second_msg
classify-Sound_example = classify-Sound collecting second_msg collecting_faulty

quorum_bounds_example :
    (4 + faulty_plus_one four ≤ quorum four + quorum four)
    × (quorum four + faulty_plus_one four ≤ 4 + 1)
    × (1 ≤ faulty_plus_one four)
    × (faulty_plus_one four ≤ quorum four)
    × (quorum four ≤ 4)
quorum_bounds_example = quorum_bounds four (omega arith)

-- Peer 0 leads round 5, and proposes what two of its round changes have prepared in round 2.
abbrev justified_msg : QbftConsensusMsg
justified_msg = with_justification (msg pre_prepare 0 5 (some hash)) (
    prepared_msg 1 5 2
    ∷ prepared_msg 2 5 2
    ∷ msg round_change 3 5 none
    ∷ msg prepare 1 2 (some hash)
    ∷ msg prepare 2 2 (some hash)
    ∷ msg prepare 3 2 (some hash)
    ∷ [])

justified_msg_holds : is_justified four duty justified_msg ≡ ok true
unfolding is_justified
justified_msg_holds = refl

justified-pre_prepare_example :
    (is_leader four duty 5 0 ≡ true)
    × ((justified_msg.msg.round ≡ 1)
        ⊎ LaterJustified four justified_msg.msg justified_msg.justification)
justified-pre_prepare_example =
    justified-pre_prepare four duty justified_msg justified_msg_holds refl

-- The same with no PREPAREs.
abbrev malformed_msg : QbftConsensusMsg
malformed_msg =
    with_justification (msg pre_prepare 0 5 (some hash))
      (prepared_msg 1 5 2 ∷ prepared_msg 2 5 2 ∷ msg round_change 3 5 none ∷ [])

malformed_raises : is_justified four duty malformed_msg ≡ err empty_max
unfolding is_justified
malformed_raises = refl

justified_raises_example :
    (is_justified four duty malformed_msg ≡ err empty_max) ↔ IsMalformed four duty malformed_msg
justified_raises_example = justified_raises four duty malformed_msg

abbrev repeated_msg : QbftConsensusMsg
repeated_msg =
    with_justification (msg decided 2 3 (some hash)) (replicate 3 (msg commit 2 3 (some hash)))

repeated_quorum : repeated_msg.justification ≡ replicate (quorum four) (msg commit 2 3 (some hash))
unfolding quorum
repeated_quorum = refl
