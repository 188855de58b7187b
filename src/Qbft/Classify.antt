-- ===== src/Qbft/Classify.antt =====
-- qbft/protocol.py: `_classify`, the rule that a buffered message triggers, with its justification.
use distributed_validator_sp.Base.{
  ℕ, Bool, false, ◌&&◌, ◌||◌, not, Option, none, some, List, [], ◌∷◌, ◌++◌, ◌==◌, nat_eq, pair_eq,
  list_eq, option_eq, ltb, leb, if◌then◌else◌, length, filter, any, Dict, get, put, values,
}
use distributed_validator_sp.Types.{Bytes}
use distributed_validator_sp.Qbft.Definition.{quorum, faulty_plus_one, is_leader}
use distributed_validator_sp.Qbft.Message.{
  MsgType, pre_prepare, prepare, commit, round_change, decided, msg_type_eq, QbftMsg,
  QbftConsensusMsg,
}
use distributed_validator_sp.Qbft.State.{
  UponRule, nothing, justified_pre_prepare, quorum_prepares, quorum_commits,
  unjust_quorum_round_changes, f_plus_1_round_changes, quorum_round_changes, justified_decided,
  QbftConsensus, flatten,
}
use distributed_validator_sp.Qbft.Justify.{matches, is_round_change_for, is_none_prepared}

abbrev pub Rule : Type 0
Rule = UponRule × List QbftMsg

-- `[j.msg for j in all_msg]`
unfoldable pub bare : List QbftConsensusMsg → List QbftMsg
bare [] = []
bare (m ∷ ms) = m.msg ∷ bare ms

-- The branches of PREPARE and COMMIT: all messages of the buffer that match, if they are a quorum.
unfoldable pub quorum_rule : MsgType → UponRule → QbftConsensus → QbftMsg → Rule
unfolding flatten bare quorum
quorum_rule type rule s m =
    let found = filter (matches type m.round m.value_hash) (bare (flatten s)) in
    if not (m.round == s.round)
    then (nothing, [])
    else if leb (quorum s.d) (length found)
    then (rule, found)
    else (nothing, [])

-- `peer_in_highest and peer_in_highest.msg.round > m.msg.round`
abbrev pub has_higher : Option QbftConsensusMsg → ℕ → Bool
has_higher none round = false
has_higher (some m) round = ltb round m.msg.round

-- The tests under which the loop over future ROUND-CHANGEs goes on to the next message.
unfoldable pub skips : ℕ → Dict ℕ QbftConsensusMsg → QbftConsensusMsg → Bool
unfolding get
skips round highest m =
    not (m.msg.type == round_change)
    || (leb m.msg.round round || has_higher (get m.msg.peer_idx highest) m.msg.round)

-- The loop: a peer's highest ROUND-CHANGE for a later round, until there are f + 1 peers.
unfoldable pub highest_by_source :
    ℕ → ℕ → List QbftConsensusMsg → Dict ℕ QbftConsensusMsg → Dict ℕ QbftConsensusMsg
unfolding skips put
highest_by_source round wanted [] highest = highest
highest_by_source round wanted (m ∷ ms) highest =
    let added = put m.msg.peer_idx m highest in
    let next =
      highest_by_source round wanted ms (if skips round highest m then highest else added) in
    if skips round highest m then next else if length added == wanted then added else next

unfoldable pub future_round_changes : QbftConsensus → List QbftConsensusMsg → Rule
unfolding highest_by_source bare faulty_plus_one
future_round_changes s all_msg =
    let highest = highest_by_source s.round (faulty_plus_one s.d) all_msg [] in
    if ltb (length highest) (faulty_plus_one s.d)
    then (nothing, [])
    else (f_plus_1_round_changes, bare (values highest))

abbrev pub or_empty_dict {ℓ κ} : {K : Type ℓ} {V : Type κ} → Option (Dict K V) → Dict K V
or_empty_dict none = []
or_empty_dict (some d) = d

-- prepare_sets: (round, value_hash) -> {peer_idx: msg}
unfoldable pub add_prepare :
    QbftMsg → Dict (ℕ × Bytes) (Dict ℕ QbftMsg) → Dict (ℕ × Bytes) (Dict ℕ QbftMsg)
unfolding get put
add_prepare m sets =
    if m.type == prepare
    then elim m.value_hash [
      | none ↦ sets
      | some hash ↦
          (let key : ℕ × Bytes = (m.round, hash) in
            put key (put m.peer_idx m (or_empty_dict (get key sets))) sets)
    ]
    else sets

unfoldable pub prepare_sets :
    List QbftMsg → Dict (ℕ × Bytes) (Dict ℕ QbftMsg) → Dict (ℕ × Bytes) (Dict ℕ QbftMsg)
unfolding add_prepare
prepare_sets [] sets = sets
prepare_sets (m ∷ ms) sets = prepare_sets ms (add_prepare m sets)

-- The loop over the round changes for one set of PREPAREs: `used` are the sources so far. The
-- result is the candidates, and whether one of them has the prepared round and value.
unfoldable pub candidates : QbftMsg → List QbftMsg → List ℕ → List QbftMsg × Bool
candidates p [] used = ([], false)
candidates p (rc ∷ rest) used =
    let skip =
      (ltb 0 rc.prepared_round && ltb p.round rc.prepared_round)
      || any (λ u. u == rc.peer_idx) used in
    let (found, highest) = candidates p rest (if skip then used else rc.peer_idx ∷ used) in
    if skip then (found, highest) else (
      rc ∷ found,
      (rc.prepared_round == p.round && some rc.prepared_value_hash == p.value_hash) || highest,
    )

-- One round of the loop over the prepare sets: `p` is `prepares[0]`.
unfoldable pub justified_by : ℕ → List QbftMsg → List QbftMsg → Option (List QbftMsg)
unfolding candidates
justified_by quorum qrc [] = none
justified_by quorum qrc (p ∷ ps) =
    if ltb (length (p ∷ ps)) quorum
    then none
    else (let (found, highest) = candidates p qrc [] in
        if leb quorum (length found) && highest then some (found ++ (p ∷ ps)) else none)

unfoldable pub first_justified : ℕ → List QbftMsg → List (Dict ℕ QbftMsg) → Option (List QbftMsg)
unfolding justified_by
first_justified quorum qrc [] = none
first_justified quorum qrc (set ∷ sets) =
    let later = first_justified quorum qrc sets in
    elim (justified_by quorum qrc (values set)) [ none ↦ later | some j ↦ some j ]

-- The justified quorum of round changes, if there is one (Algorithm 4:1).
unfoldable pub justified_qrc : ℕ → ℕ → List QbftMsg → Option (List QbftMsg)
unfolding first_justified prepare_sets
justified_qrc quorum round all_msg =
    let qrc = filter (is_round_change_for round) all_msg in
    let none_prepared = filter (λ j. is_round_change_for round j && is_none_prepared j) all_msg in
    if leb quorum (length none_prepared)
    then some none_prepared
    else first_justified quorum qrc (values (prepare_sets all_msg []))

-- A ROUND-CHANGE for the current round.
unfoldable pub current_round_changes : QbftConsensus → QbftMsg → List QbftMsg → Rule
unfolding justified_qrc quorum is_leader
current_round_changes s m all_msg =
    if ltb (length (filter (is_round_change_for m.round) all_msg)) (quorum s.d)
    then (nothing, [])
    else elim (justified_qrc (quorum s.d) m.round all_msg) [
      | none ↦ (unjust_quorum_round_changes, [])
      | some j ↦
          if is_leader s.d s.duty m.round s.peer then (quorum_round_changes, j) else (nothing, [])
    ]

unfoldable pub round_change_rule : QbftConsensus → QbftMsg → Rule
unfolding future_round_changes current_round_changes flatten bare
round_change_rule s m =
    if ltb m.round s.round
    then (nothing, [])
    else if ltb s.round m.round
    then future_round_changes s (flatten s)
    else current_round_changes s m (bare (flatten s))

unfoldable pub classify_as : MsgType → QbftConsensus → QbftConsensusMsg → Rule
unfolding quorum_rule round_change_rule
classify_as decided s cm = (justified_decided, cm.justification)
classify_as pre_prepare s cm =
    if ltb cm.msg.round s.round then (nothing, []) else (justified_pre_prepare, [])
classify_as prepare s cm = quorum_rule prepare quorum_prepares s cm.msg
classify_as commit s cm = quorum_rule commit quorum_commits s cm.msg
classify_as round_change s cm = round_change_rule s cm.msg

unfoldable pub classify : QbftConsensus → QbftConsensusMsg → Rule
unfolding classify_as
classify s cm = classify_as cm.msg.type s cm
