-- ===== src/Tests/Sent.antt =====
-- What an instance sends on a change of round, and what its peers make of it.
use distributed_validator_sp.Base.{
  ℕ, ◌≤◌, ◌<◌, ◌≡◌, refl, true, none, some, List, [], ◌∷◌, All, Result, ok, err, arith, length, sym,
  ◌∙◌, ◌+◌, has, ◌==◌, nat_eq, pair_eq, if◌then◌else◌, false,
}
use distributed_validator_sp.Crypto.{Error}
use distributed_validator_sp.Qbft.Message.{
  pre_prepare, prepare, round_change, QbftMsg, QbftConsensusMsg,
}
use distributed_validator_sp.Qbft.Definition.{is_leader}
use distributed_validator_sp.Qbft.Quorum.{leader_rotation}
use distributed_validator_sp.Qbft.State.{
  UponRule, justified_pre_prepare, rule_eq, QbftConsensus, new_instance, quorum_round_changes,
}
use distributed_validator_sp.Qbft.Justify.{is_justified}
use distributed_validator_sp.Qbft.Classify.{classify}
use distributed_validator_sp.Qbft.Handle.{
  apply_rule, broadcast_value, run, lead_round, send_round_change,
}
use distributed_validator_sp.Qbft.Leader.Accepted.{leader_accepted}
use distributed_validator_sp.Encoding.Ssz.{zero_chunk}
use distributed_validator_sp.Qbft.Round.Repeated.{after_first, second_pre_prepare}
use distributed_validator_sp.Qbft.Round.Sent.{round_change_accepted}
use distributed_validator_sp.Qbft.Invariant.{IsValid, IsValid-new_instance, run-IsValid}
use distributed_validator_sp.Tests.Cluster.{
  toy, four, duty, transport, proposal, start, hash, msg, alone,
}

abbrev sent : Result Error (List QbftConsensusMsg) → List QbftConsensusMsg
sent (ok ms) = ms
sent (err e) = []

-- Peer 1 leads round 2 and has its peers' ROUND-CHANGEs for it.
abbrev last_msg : QbftConsensusMsg
last_msg = alone (msg round_change 0 2 none)

abbrev leading : QbftConsensus
leading =
    run toy (alone (msg round_change 3 2 none) ∷ alone (msg round_change 2 2 none) ∷ last_msg ∷ [])
      start

abbrev qrc : List QbftMsg
qrc = msg round_change 3 2 none ∷ msg round_change 2 2 none ∷ msg round_change 0 2 none ∷ []

leading_rule : classify leading last_msg ≡ (quorum_round_changes, qrc)
unfolding classify run new_instance
leading_rule = refl

abbrev proposed : List QbftConsensusMsg
proposed = sent (lead_round toy leading qrc)

proposed_sent : lead_round toy leading qrc ≡ ok proposed
unfolding lead_round run new_instance
proposed_sent = refl

proposed_one : length proposed ≡ 4
unfolding lead_round run new_instance
proposed_one = refl

four_nodes : 1 ≤ leading.d.nodes
unfolding run new_instance
four_nodes = omega arith

leader_accepted_example : All (λ m. is_justified leading.d leading.duty m ≡ ok true) proposed
leader_accepted_example =
    leader_accepted toy leading last_msg qrc proposed four_nodes leading_rule proposed_sent

-- Peer 1 has prepared a value in round 1 and waits for round 2.
abbrev prepared_state : QbftConsensus
prepared_state =
    run toy
      (alone (msg prepare 0 1 (some hash))
        ∷ alone (msg prepare 2 1 (some hash))
        ∷ alone (msg prepare 3 1 (some hash))
        ∷ [])
      start

prepared_in : prepared_state.prepared_round ≡ some 1
unfolding run new_instance
prepared_in = refl

start-IsValid : IsValid start
start-IsValid = IsValid-new_instance toy four transport duty 1 proposal

start_nodes : 1 ≤ start.d.nodes
unfolding new_instance
start_nodes = omega arith

prepared-IsValid : IsValid prepared_state
prepared-IsValid = run-IsValid toy _ start start_nodes start-IsValid

undecided : prepared_state.q_commit ≡ []
unfolding run new_instance
undecided = refl

prepared_value : prepared_state.prepared_value_hash ≡ some hash
unfolding run new_instance
prepared_value = refl

abbrev changes : List QbftConsensusMsg
changes = sent (send_round_change toy prepared_state)

changes_sent : send_round_change toy prepared_state ≡ ok changes
unfolding send_round_change run new_instance
changes_sent = refl

changes_four : length changes ≡ 4
unfolding send_round_change run new_instance
changes_four = refl

round_change_accepted_example :
    All (λ m. is_justified prepared_state.d prepared_state.duty m ≡ ok true) changes
round_change_accepted_example =
    round_change_accepted toy prepared_state changes prepared-IsValid undecided
      (λ p e. cc (sym prepared_value ∙ e)) changes_sent

leader_rotation_example :
    (k : ℕ) × (k < 4)
    × (is_leader four duty (2 + k) 0 ≡ true)
    × ((j : ℕ) → j < 4 → is_leader four duty (2 + j) 0 ≡ true → j ≡ k)
leader_rotation_example = leader_rotation four duty 2 0 (omega arith)

-- Peer 1 in round 1 gets two PRE-PREPAREs for round 5, for two values.
abbrev first_value : QbftMsg
first_value = msg pre_prepare 0 5 (some hash)

abbrev second_value : QbftMsg
second_value = msg pre_prepare 0 5 (some zero_chunk)

nothing_recorded :
    has {K = UponRule × ℕ} (justified_pre_prepare, start.round) start.dedup_rules ≡ false
unfolding has new_instance
nothing_recorded = refl

later_round : (5 == start.round) ≡ false
unfolding new_instance
later_round = refl

second_pre_prepare_example :
    (apply_rule toy (justified_pre_prepare, []) second_value (after_first toy first_value start)).1
    ≡ (if 5 == start.round
        then ok []
        else broadcast_value toy (after_first toy first_value start) prepare (some zero_chunk) [])
second_pre_prepare_example =
    second_pre_prepare toy first_value second_value start nothing_recorded refl
