-- ===== src/Qbft/Leader/Accepted.antt =====
-- qbft/protocol.py: the PRE-PREPARE that a new leader sends is justified in the eyes of every node.
use distributed_validator_sp.Base.{
  ℕ, ◌≤◌, ◌≡◌, refl, sym, ap, ◌∙◌, true, false, ◌&&◌, none, some, List, [], ◌++◌, nat_eq, list_eq,
  option_eq, pair_eq, length, any, all, ltb, keys, arith, Bool-cases, inl, inr, All, All-mono,
  le→ltb, le→leb, subst, ==-refl, filter_all, all-All, any_none, ok,
}
use distributed_validator_sp.Types.{Bytes, Duty}
use distributed_validator_sp.Crypto.{Crypto}
use distributed_validator_sp.Encoding.Ssz.{hash_proto}
use distributed_validator_sp.Qbft.Definition.{Definition, quorum, is_leader}
use distributed_validator_sp.Qbft.Message.{
  MsgType, pre_prepare, prepare, commit, decided, round_change, msg_type_eq, QbftMsg,
  QbftConsensusMsg,
}
use distributed_validator_sp.Qbft.Transport.{broadcast_message}
use distributed_validator_sp.Qbft.State.{QbftConsensus, quorum_round_changes, flatten}
use distributed_validator_sp.Qbft.Classify.{Rule, bare, classify}
use distributed_validator_sp.Qbft.Quorum.{quorum_bounds}
use distributed_validator_sp.Qbft.Rules.{Sound, classify-Sound}
use distributed_validator_sp.Qbft.Justify.{
  prepare_counts, max_by_round, is_none_prepared, is_round_change_for, justifies_value,
  justified_later, is_justified_pre_prepare, justified_as, is_justified,
}
use distributed_validator_sp.Qbft.Prepares.{counted, has_value, prepare_counts-skip}
use distributed_validator_sp.Qbft.Handle.{lead_round}
use distributed_validator_sp.Qbft.Sent.{Carries, value_msg, broadcast_message-Carries}
use distributed_validator_sp.Qbft.Leader.Choice.{
  Unprepared, Prepared, Justification, unprepared, prepared, justified_qrc-Justification,
}
use distributed_validator_sp.Qbft.Justified.{by_prepares_at}
use distributed_validator_sp.Qbft.Leader.Counts.{
  unprepared-no_value, prepared_round_changes, prepared_count, prepared_max,
}

none_above :
    (r : ℕ) (found : List QbftMsg)
    → All (λ j. j.prepared_round ≤ r) found
    → any (λ rc. ltb 0 rc.prepared_round && ltb r rc.prepared_round) found ≡ false
none_above r found h =
    any_none (λ rc. ltb 0 rc.prepared_round && ltb r rc.prepared_round) found
      (All-mono (λ j. j.prepared_round ≤ r)
        (λ rc. (ltb 0 rc.prepared_round && ltb r rc.prepared_round) ≡ false) found
        (λ j x. ground arith) h)

module _ (d : Definition) (m : QbftMsg) where
  later-Unprepared :
      (js : List QbftMsg) → Unprepared (quorum d) m.round js → justified_later d m js ≡ ok true
  unfolding justified_later
  later-Unprepared js u = rw (
    filter_all (is_round_change_for m.round) js u.round_changes,
    le→ltb (length js) (quorum d) u.enough,
    all-All is_none_prepared js u.none,
  )

  prepared_value :
      (k : ℕ × Bytes) (found ps : List QbftMsg)
      → Prepared (quorum d) m.round k found ps
      → m.value_hash ≡ some k.1
      → justifies_value d m found (prepare_counts (found ++ ps) []) k ≡ true
  unfolding justifies_value
  prepared_value k found ps p e =
      rw
        (
          le→ltb (counted k (prepare_counts (found ++ ps) [])) (quorum d)
              (prepared_count (quorum d) m.round k found ps p),
          none_above k.0 found p.none_higher,
          p.one_highest,
          e,
        )
        (==-refl k.1)

  later-Prepared :
      (k : ℕ × Bytes) (found ps : List QbftMsg)
      → 1 ≤ quorum d
      → Prepared (quorum d) m.round k found ps
      → m.value_hash ≡ some k.1
      → justified_later d m (found ++ ps) ≡ ok true
  unfolding justified_later
  later-Prepared k found ps n p e =
      rw
        (
          prepared_round_changes (quorum d) m.round k found ps p,
          le→ltb (length found) (quorum d) p.enough,
        )
        (elim (Bool-cases (all is_none_prepared found)) [
          | inl t ↦ rw t
          | inr f ↦ rw f (
              by_prepares_at d m found (found ++ ps) k
                (prepared_max (quorum d) m.round k found ps p n)
              ∙ ap ok (prepared_value k found ps p e))
        ])

carried_as :
    (type : MsgType) (d : Definition) (duty : Duty) (m : QbftMsg) (js : List QbftMsg) (s : Bytes)
    (vs : List Bytes)
    → justified_as type d duty
        (record { msg = record m { signature = some s }; justification = js; values = vs })
      ≡ justified_as type d duty (record { msg = m; justification = js; values = [] })
unfolding justified_as
carried_as pre_prepare d duty m js s vs = refl
carried_as prepare d duty m js s vs = refl
carried_as commit d duty m js s vs = refl
carried_as round_change d duty m js s vs = refl
carried_as decided d duty m js s vs = refl

-- A message is judged without its signature and its values.
pub is_justified-Carries :
    (d : Definition) (duty : Duty) (m : QbftMsg) (js : List QbftMsg) (cm : QbftConsensusMsg)
    → Carries m js cm
    → is_justified d duty cm
      ≡ is_justified d duty (record { msg = m; justification = js; values = [] })
unfolding is_justified
is_justified-Carries d duty m js cm h =
    ap
      (λ (x : QbftMsg × List QbftMsg).
        justified_as x.0.type d duty
          (record { msg = x.0; justification = x.1; values = cm.values }))
      (λ i. (h.message i, h.justification i))
    ∙ carried_as m.type d duty m js h.signature cm.values

module _ (d : Definition) (duty : Duty) (peer round : ℕ) (hash : Bytes) (js : List QbftMsg) where
  abbrev proposal_msg : QbftMsg
  proposal_msg = value_msg pre_prepare duty peer round hash

  pre_prepare_accepted :
      is_leader d duty round peer ≡ true
      → justified_later d proposal_msg js ≡ ok true
      → is_justified d duty (record { msg = proposal_msg; justification = js; values = [] })
        ≡ ok true
  unfolding is_justified justified_as is_justified_pre_prepare
  pre_prepare_accepted l h = ground arith

-- The two cases of `lead_round`.
module _ (c : Crypto) (s : QbftConsensus) where
  lead_own :
      (js : List QbftMsg)
      → any has_value js ≡ false
      → lead_round c s js
        ≡ broadcast_message c s.t pre_prepare s.duty s.peer s.round
            (hash_proto c s.proposal_value)
            js
            none
            none
  unfolding lead_round max_by_round
  lead_own js h = rw (prepare_counts-skip js [] h, lead_round, max_by_round)

  lead_prepared :
      (k : ℕ × Bytes) (js : List QbftMsg)
      → max_by_round (keys (prepare_counts js [])) ≡ ok k
      → quorum s.d ≤ counted k (prepare_counts js [])
      → lead_round c s js
        ≡ broadcast_message c s.t pre_prepare s.duty s.peer s.round k.1 js none none
  unfolding lead_round
  lead_prepared k js e q =
      rw (e, lead_round) (rw (le→leb (quorum s.d) (counted k (prepare_counts js [])) q))

-- The value that the messages of `lead_round` carry.
record Proposes (c : Crypto) (s : QbftConsensus) (js : List QbftMsg) : Type 0 where
  hash : Bytes
  sends :
      lead_round c s js
      ≡ broadcast_message c s.t pre_prepare s.duty s.peer s.round hash js none none
  later : justified_later s.d (value_msg pre_prepare s.duty s.peer s.round hash) js ≡ ok true

module _ (c : Crypto) (s : QbftConsensus) (n : 1 ≤ quorum s.d) where
  lead_round-Proposes :
      (js : List QbftMsg) → Justification (quorum s.d) s.round js → Proposes c s js
  lead_round-Proposes js (unprepared u) = record {
    hash = hash_proto c s.proposal_value;
    sends = lead_own c s js (unprepared-no_value s.round js u.round_changes);
    later = later-Unprepared s.d (value_msg pre_prepare s.duty s.peer s.round _) js u;
  }
  lead_round-Proposes js (prepared k found ps e p) = rw e (record {
    hash = k.1;
    sends =
        lead_prepared c s k (found ++ ps) (prepared_max (quorum s.d) s.round k found ps p n)
          (prepared_count (quorum s.d) s.round k found ps p);
    later =
        later-Prepared s.d (value_msg pre_prepare s.duty s.peer s.round k.1) k found ps n p refl;
  })

  -- Where the quorum is at least one, all messages that the leader of the round sends, for a
  -- justified quorum of round changes, are justified in the eyes of every node of the cluster.
  pub lead_round-justified :
      (js : List QbftMsg) (ms : List QbftConsensusMsg)
      → Justification (quorum s.d) s.round js
      → is_leader s.d s.duty s.round s.peer ≡ true
      → lead_round c s js ≡ ok ms
      → All (λ cm. is_justified s.d s.duty cm ≡ ok true) ms
  lead_round-justified js ms j l e =
      let p = lead_round-Proposes js j in
      let m = value_msg pre_prepare s.duty s.peer s.round p.hash in
      All-mono (Carries m js) (λ cm. is_justified s.d s.duty cm ≡ ok true) ms
        (λ cm h.
          is_justified-Carries s.d s.duty m js cm h
          ∙ pre_prepare_accepted s.d s.duty s.peer s.round p.hash js l p.later)
        (broadcast_message-Carries c s.t s.duty s.peer s.round js pre_prepare p.hash ms
          (sym p.sends ∙ e))

-- In a cluster of at least one node, when `_classify` reports QUORUM_ROUND_CHANGES to an instance,
-- every PRE-PREPARE that the instance then sends is justified for every node of the cluster.
pub leader_accepted :
    (c : Crypto) (s : QbftConsensus) (cm : QbftConsensusMsg) (js : List QbftMsg)
    (ms : List QbftConsensusMsg)
    → 1 ≤ s.d.nodes
    → classify s cm ≡ (quorum_round_changes, js)
    → lead_round c s js ≡ ok ms
    → All (λ m. is_justified s.d s.duty m ≡ ok true) ms
leader_accepted c s cm js ms n h e =
    let b = quorum_bounds s.d n in
    let sound = classify-Sound s cm b.2 in
    let f : Sound quorum_round_changes js s cm = subst (λ (r : Rule). Sound r.0 r.1 s cm) h sound in
    lead_round-justified c s (omega arith) js ms
      (justified_qrc-Justification (quorum s.d) s.round (bare (flatten s)) js f.3) f.2 e
