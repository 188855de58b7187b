-- ===== src/Qbft/Rules.antt =====
-- qbft/protocol.py: what `_classify` guarantees of the message and the justification, rule by rule.
use distributed_validator_sp.Base.{
  ◌≤◌, ◌<◌, ◌≡◌, refl, true, false, some, List, [], ◌==◌, nat_eq, option_eq, list_eq, length,
  filter, count, ltb, leb, if◌then◌else◌, arith, Bool-cases, Option-cases, values, subst, ltb→lt,
  ltb→le, inl, inr, ==-eq, All, All-filter, ◌⊎◌, leb→le,
}
use distributed_validator_sp.Qbft.Definition.{quorum, faulty_plus_one, is_leader}
use distributed_validator_sp.Qbft.Message.{
  MsgType, pre_prepare, prepare, commit, round_change, decided, msg_type_eq, QbftMsg,
  QbftConsensusMsg,
}
use distributed_validator_sp.Qbft.State.{
  nothing, justified_pre_prepare, quorum_prepares, quorum_commits, unjust_quorum_round_changes,
  f_plus_1_round_changes, quorum_round_changes, justified_decided, round_timeout, UponRule,
  QbftConsensus, flatten,
}
use distributed_validator_sp.Qbft.Justify.{matches, is_round_change_for}
use distributed_validator_sp.Qbft.Classify.{
  Rule, bare, quorum_rule, highest_by_source, future_round_changes, justified_qrc,
  current_round_changes, round_change_rule, classify_as, classify,
}
use distributed_validator_sp.Qbft.Round.Future.{FutureQuorum, future_round_changes-FutureQuorum}

-- A quorum of messages of one type, for the round and value of `m`.
pub record Quorum (type : MsgType) (s : QbftConsensus) (m : QbftMsg) (js : List QbftMsg)
    : Type 0 where
  pub current : m.round ≡ s.round
  pub enough : quorum s.d ≤ length js
  pub alike : All (λ j. matches type m.round m.value_hash j ≡ true) js

-- What holds of a message and a justification for which a rule is triggered.
abbrev pub Sound : UponRule → List QbftMsg → QbftConsensus → QbftConsensusMsg → Type 0
Sound nothing js s cm = Unit
Sound justified_pre_prepare js s cm = (cm.msg.type ≡ pre_prepare) × (s.round ≤ cm.msg.round)
Sound quorum_prepares js s cm = (cm.msg.type ≡ prepare) × Quorum prepare s cm.msg js
Sound quorum_commits js s cm = (cm.msg.type ≡ commit) × Quorum commit s cm.msg js
Sound unjust_quorum_round_changes js s cm = (cm.msg.type ≡ round_change) × (cm.msg.round ≡ s.round)
Sound f_plus_1_round_changes js s cm =
    (cm.msg.type ≡ round_change) × (s.round < cm.msg.round) × FutureQuorum s js
Sound quorum_round_changes js s cm =
    (cm.msg.type ≡ round_change)
    × (cm.msg.round ≡ s.round)
    × (is_leader s.d s.duty s.round s.peer ≡ true)
    × (justified_qrc (quorum s.d) s.round (bare (flatten s)) ≡ some js)
Sound justified_decided js s cm = (cm.msg.type ≡ decided) × (js ≡ cm.justification)
Sound round_timeout js s cm = ⊥

quorum_rule-cases :
    (type : MsgType) (rule : UponRule) (s : QbftConsensus) (m : QbftMsg)
    → (quorum_rule type rule s m ≡ (nothing, []))
      ⊎ ((quorum_rule type rule s m
            ≡ (rule, filter (matches type m.round m.value_hash) (bare (flatten s))))
          × Quorum type s m (filter (matches type m.round m.value_hash) (bare (flatten s))))
unfolding quorum_rule
quorum_rule-cases type rule s m = elim (Bool-cases (m.round == s.round)) [
  | inr f ↦ inl (rw f)
  | inl t ↦
      elim (Bool-cases
        (leb (quorum s.d) (count (matches type m.round m.value_hash) (bare (flatten s))))) [
          | inr g ↦ inl (rw (t, g))
          | inl enough ↦ inr (
            rw (t, enough),
            record {
              current = ==-eq m.round s.round t;
              enough = leb→le (quorum s.d) _ enough;
              alike =
                  All-filter _ (matches type m.round m.value_hash) (bare (flatten s)) (λ j e. e);
            },
          )
        ]
]

module _ (s : QbftConsensus) (cm : QbftConsensusMsg) where
  at_prepare : classify_as prepare s cm ≡ quorum_rule prepare quorum_prepares s cm.msg
  unfolding classify_as
  at_prepare = refl

  at_commit : classify_as commit s cm ≡ quorum_rule commit quorum_commits s cm.msg
  unfolding classify_as
  at_commit = refl

  at_pre_prepare :
      classify_as pre_prepare s cm
      ≡ (if ltb cm.msg.round s.round then (nothing, []) else (justified_pre_prepare, []))
  unfolding classify_as
  at_pre_prepare = refl

  at_round_change : classify_as round_change s cm ≡ round_change_rule s cm.msg
  unfolding classify_as
  at_round_change = refl

  at_decided : classify_as decided s cm ≡ (justified_decided, cm.justification)
  unfolding classify_as
  at_decided = refl

abbrev SoundRule : Rule → QbftConsensus → QbftConsensusMsg → Type 0
SoundRule (rule, js) s cm = Sound rule js s cm

-- The two outcomes at a later round.
future_cases :
    (s : QbftConsensus) (ms : List QbftConsensusMsg)
    → (future_round_changes s ms ≡ (nothing, []))
      ⊎ ((js : List QbftMsg) × (future_round_changes s ms ≡ (f_plus_1_round_changes, js)))
unfolding future_round_changes
future_cases s ms =
    elim (Bool-cases (
      ltb (length (highest_by_source s.round (faulty_plus_one s.d) ms [])) (faulty_plus_one s.d))) [
        | inl t ↦ inl (rw t)
        | inr f ↦ inr (bare (values (highest_by_source s.round (faulty_plus_one s.d) ms [])), rw f)
      ]

-- The four outcomes at the current round.
current_cases :
    (s : QbftConsensus) (m : QbftMsg) (ms : List QbftMsg)
    → (current_round_changes s m ms ≡ (nothing, []))
      ⊎ ((current_round_changes s m ms ≡ (unjust_quorum_round_changes, []))
          ⊎ ((js : List QbftMsg) × (current_round_changes s m ms ≡ (quorum_round_changes, js))
              × (justified_qrc (quorum s.d) m.round ms ≡ some js)
              × (is_leader s.d s.duty m.round s.peer ≡ true)))
unfolding current_round_changes
current_cases s m ms =
    elim (Bool-cases (ltb (count (is_round_change_for m.round) ms) (quorum s.d))) [
      | inl t ↦ inl (rw t)
      | inr f ↦ elim (Option-cases (justified_qrc (quorum s.d) m.round ms)) [
        | inl e ↦ inr (inl (rw (f, e)))
        | inr (js, e) ↦ elim (Bool-cases (is_leader s.d s.duty m.round s.peer)) [
          | inl l ↦ inr (inr (js, rw (f, e, l), e, l))
          | inr l ↦ inl (rw (f, e, l))
        ]
      ]
    ]

-- The rule at a ROUND-CHANGE, for a past, a later and the current round.
module _ (s : QbftConsensus) (m : QbftMsg) where
  at_past : ltb m.round s.round ≡ true → round_change_rule s m ≡ (nothing, [])
  unfolding round_change_rule
  at_past h = rw h

  at_future :
      ltb m.round s.round ≡ false
      → ltb s.round m.round ≡ true
      → round_change_rule s m ≡ future_round_changes s (flatten s)
  unfolding round_change_rule
  at_future h k = rw (h, k)

  at_current :
      ltb m.round s.round ≡ false
      → ltb s.round m.round ≡ false
      → round_change_rule s m ≡ current_round_changes s m (bare (flatten s))
  unfolding round_change_rule
  at_current h k = rw (h, k)

module _ (s : QbftConsensus) (cm : QbftConsensusMsg) (n : 1 ≤ faulty_plus_one s.d) where
  future-Sound :
      cm.msg.type ≡ round_change
      → s.round < cm.msg.round
      → SoundRule (future_round_changes s (flatten s)) s cm
  future-Sound t later = elim (future_cases s (flatten s)) [
    | inl e ↦ rw e tt
    | inr (js, e) ↦ rw e (t, later, future_round_changes-FutureQuorum s (flatten s) js n e)
  ]

  current-Sound :
      cm.msg.type ≡ round_change
      → cm.msg.round ≡ s.round
      → SoundRule (current_round_changes s cm.msg (bare (flatten s))) s cm
  current-Sound t r = elim (current_cases s cm.msg (bare (flatten s))) [
    | inl e ↦ rw e tt
    | inr (inl e) ↦ rw e (t, r)
    | inr (inr (js, e, j, l)) ↦ rw e (
      t,
      r,
      subst (λ k. is_leader s.d s.duty k s.peer ≡ true) r l,
      subst (λ k. justified_qrc (quorum s.d) k (bare (flatten s)) ≡ some js) r j,
    )
  ]

  round_change-Sound : cm.msg.type ≡ round_change → SoundRule (round_change_rule s cm.msg) s cm
  round_change-Sound t = elim (Bool-cases (ltb cm.msg.round s.round)) [
    | inl past ↦ rw (at_past s cm.msg past) tt
    | inr h ↦ elim (Bool-cases (ltb s.round cm.msg.round)) [
      | inl k ↦ rw (at_future s cm.msg h k) (future-Sound t (ltb→lt s.round cm.msg.round k))
      | inr k ↦ rw (at_current s cm.msg h k) (current-Sound t (ground arith))
    ]
  ]

  Quorum-Sound :
      (type : MsgType) (rule : UponRule)
      → Sound nothing [] s cm
      → ((js : List QbftMsg) → Quorum type s cm.msg js → Sound rule js s cm)
      → SoundRule (quorum_rule type rule s cm.msg) s cm
  Quorum-Sound type rule a b = elim (quorum_rule-cases type rule s cm.msg) [
    | inl e ↦ rw e tt
    | inr (e, q) ↦ rw e (b _ q)
  ]

  pre_prepare-Sound :
      cm.msg.type ≡ pre_prepare
      → SoundRule
          (if ltb cm.msg.round s.round then (nothing, []) else (justified_pre_prepare, []))
          s
          cm
  pre_prepare-Sound t = elim (Bool-cases (ltb cm.msg.round s.round)) [
    | inl past ↦ rw past tt
    | inr h ↦ rw h (t, ltb→le cm.msg.round s.round h)
  ]

  classify_as-Sound : (type : MsgType) → cm.msg.type ≡ type → SoundRule (classify_as type s cm) s cm
  classify_as-Sound pre_prepare t = rw (at_pre_prepare s cm) (pre_prepare-Sound t)
  classify_as-Sound prepare t =
      rw (at_prepare s cm) (Quorum-Sound prepare quorum_prepares tt (λ js q. (t, q)))
  classify_as-Sound commit t =
      rw (at_commit s cm) (Quorum-Sound commit quorum_commits tt (λ js q. (t, q)))
  classify_as-Sound round_change t = rw (at_round_change s cm) (round_change-Sound t)
  classify_as-Sound decided t = rw (at_decided s cm) (t, refl)

  -- In a cluster of at least one node, whatever rule a message triggers, the message has the type
  -- and the round of that rule, and the justification is what the rule needs: a quorum of matching
  -- PREPAREs or COMMITs, f + 1 future round changes of distinct senders, the justified quorum of
  -- round changes (for the leader of the round only), or the justification of the DECIDED.
  pub classify-Sound : Sound (classify s cm).0 (classify s cm).1 s cm
  unfolding classify
  classify-Sound = classify_as-Sound cm.msg.type refl
