-- ===== src/Qbft/Justified.antt =====
-- qbft/protocol.py: what `is_justified` guarantees, and the messages at which it raises.
use distributed_validator_sp.Base.{
  ℕ, zero, suc, ◌≤◌, ◌≡◌, refl, sym, ap, ◌∙◌, Bool, true, false, ◌&&◌, not, some, List, [], ◌∷◌,
  ◌==◌, nat_eq, list_eq, option_eq, count, filter, any, all, replicate, ltb, if◌then◌else◌, Dict,
  get, keys, arith, ok, err, Bool-cases, inl, inr, ==-eq, All, All-of_all, ◌⊎◌, ◌≢◌, ◌↔◌, ltb→le,
  ||_parts,
}
use distributed_validator_sp.Types.{Bytes, Duty}
use distributed_validator_sp.Crypto.{empty_max}
use distributed_validator_sp.Encoding.Ssz.{zero_chunk}
use distributed_validator_sp.Qbft.Definition.{Definition, quorum, is_leader}
use distributed_validator_sp.Qbft.Message.{
  MsgType, pre_prepare, prepare, commit, round_change, decided, msg_type_eq, QbftMsg,
  QbftConsensusMsg,
}
use distributed_validator_sp.Qbft.Justify.{
  prepare_counts, max_by_round, is_none_prepared, matches, is_round_change_for, justifies_value,
  justified_by_prepares, justified_later, is_justified_pre_prepare, is_justified_decided,
  justified_as, is_justified,
}
use distributed_validator_sp.Qbft.Prepares.{
  counted, prepares, has_value, counted-prepare_counts, prepare_counts-skip, prepare_counts-ne-nil,
  max_by_round-keys,
}

-- A value that a quorum of PREPAREs of one round carries, with a round change that prepared it in
-- that round and none of the round changes prepared in a later round.
pub record PreparedValue (d : Definition) (m : QbftMsg) (js : List QbftMsg) : Type 0 where
  pub round : ℕ
  pub hash : Bytes
  pub prepared : quorum d ≤ prepares (round, hash) js
  pub none_higher : All (λ rc. rc.prepared_round ≤ round) (filter (is_round_change_for m.round) js)
  pub one_highest :
      any
        (λ rc. rc.prepared_round == round && rc.prepared_value_hash == hash)
        (filter (is_round_change_for m.round) js)
      ≡ true
  pub proposed : m.value_hash ≡ some hash

abbrev IsNonePrepared : QbftMsg → Type 0
IsNonePrepared rc = (rc.prepared_round ≡ 0) × (rc.prepared_value_hash ≡ zero_chunk)

-- The justification rules J1 and J2 of a PRE-PREPARE after the first round.
pub record LaterJustified (d : Definition) (m : QbftMsg) (js : List QbftMsg) : Type 0 where
  pub round_changes : quorum d ≤ count (is_round_change_for m.round) js
  pub value : All IsNonePrepared (filter (is_round_change_for m.round) js) ⊎ PreparedValue d m js

None_higher :
    (pr : ℕ) (qrc : List QbftMsg)
    → any (λ rc. ltb 0 rc.prepared_round && ltb pr rc.prepared_round) qrc ≡ false
    → All (λ rc. rc.prepared_round ≤ pr) qrc
None_higher pr [] h = tt
None_higher pr (rc ∷ qrc) h =
    let parts =
      ||_parts (ltb 0 rc.prepared_round && ltb pr rc.prepared_round)
        (any (λ rc. ltb 0 rc.prepared_round && ltb pr rc.prepared_round) qrc) h in
    (ground arith, None_higher pr qrc parts.1)

-- Three guards and a last test.
guards :
    (a b c e : Bool)
    → (if a then false else if b then false else if not c then false else e) ≡ true
    → (a ≡ false) × (b ≡ false) × (c ≡ true) × (e ≡ true)
guards a b c e h = ground arith

justifies_value_sound :
    (d : Definition) (m : QbftMsg) (qrc : List QbftMsg) (counts : Dict (ℕ × Bytes) ℕ) (pr : ℕ)
    (hash : Bytes)
    → justifies_value d m qrc counts (pr, hash) ≡ true
    → (quorum d ≤ counted (pr, hash) counts)
      × (any (λ rc. ltb 0 rc.prepared_round && ltb pr rc.prepared_round) qrc ≡ false)
      × (any (λ rc. rc.prepared_round == pr && rc.prepared_value_hash == hash) qrc ≡ true)
      × ((some hash == m.value_hash) ≡ true)
unfolding justifies_value
justifies_value_sound d m qrc counts pr hash h =
    let g = guards (ltb (counted (pr, hash) counts) (quorum d)) _ _ _ h in
    (ltb→le (counted (pr, hash) counts) (quorum d) g.0, g.1, g.2, g.3)

none_prepared : (rc : QbftMsg) → is_none_prepared rc ≡ true → IsNonePrepared rc
none_prepared rc h = (ground arith, ==-eq rc.prepared_value_hash zero_chunk (ground arith))

-- What case (2) computes, once `max` has answered.
pub by_prepares_at :
    (d : Definition) (m : QbftMsg) (qrc js : List QbftMsg) (k : ℕ × Bytes)
    → max_by_round (keys (prepare_counts js [])) ≡ ok k
    → justified_by_prepares d m qrc js ≡ ok (justifies_value d m qrc (prepare_counts js []) k)
unfolding justified_by_prepares
by_prepares_at d m qrc js k p = rw (p, justified_by_prepares)

by_prepares_raises :
    (d : Definition) (m : QbftMsg) (qrc js : List QbftMsg)
    → any has_value js ≡ false
    → justified_by_prepares d m qrc js ≡ err empty_max
unfolding justified_by_prepares max_by_round
by_prepares_raises d m qrc js h = rw (prepare_counts-skip js [] h, justified_by_prepares)

-- If the justification holds a PREPARE with a value, case (2) gives an answer.
by_prepares_answers :
    (d : Definition) (m : QbftMsg) (qrc js : List QbftMsg)
    → any has_value js ≡ true
    → (k : ℕ × Bytes) × (justified_by_prepares d m qrc js
        ≡ ok (justifies_value d m qrc (prepare_counts js []) k))
by_prepares_answers d m qrc js h =
    let (k, p) = max_by_round-keys (prepare_counts js []) (prepare_counts-ne-nil js [] (inl h)) in
    (k, by_prepares_at d m qrc js k p)

module _ (d : Definition) (m : QbftMsg) (js : List QbftMsg) where
  value_sound :
      (k : ℕ × Bytes)
      → justifies_value d m (filter (is_round_change_for m.round) js) (prepare_counts js []) k
        ≡ true
      → PreparedValue d m js
  unfolding get
  value_sound (pr, hash) h =
      let v =
        justifies_value_sound d m (filter (is_round_change_for m.round) js) (prepare_counts js [])
          pr hash h in
      record {
        round = pr;
        hash = hash;
        prepared = (let e = counted-prepare_counts (pr, hash) js [] in let q = v.0 in omega arith);
        none_higher = None_higher pr (filter (is_round_change_for m.round) js) v.1;
        one_highest = v.2;
        proposed = sym (==-eq (some hash) m.value_hash v.3);
      }

  by_prepares_sound :
      justified_by_prepares d m (filter (is_round_change_for m.round) js) js ≡ ok true
      → PreparedValue d m js
  by_prepares_sound h = elim (Bool-cases (any has_value js)) [
    | inl t ↦
        (let (k, p) = by_prepares_answers d m (filter (is_round_change_for m.round) js) js t in
          value_sound k (cc))
    | inr f ↦ cc (by_prepares_raises d m (filter (is_round_change_for m.round) js) js f)
  ]

  later_sound : justified_later d m js ≡ ok true → LaterJustified d m js
  unfolding justified_later
  later_sound h = elim (Bool-cases (ltb (count (is_round_change_for m.round) js) (quorum d))) [
    | inl t ↦ cc (let q = rw t at h in q)
    | inr f ↦ elim (Bool-cases (all is_none_prepared (filter (is_round_change_for m.round) js))) [
      | inl t ↦ record {
        round_changes = ltb→le _ _ f;
        value = inl (
            All-of_all IsNonePrepared is_none_prepared (filter (is_round_change_for m.round) js)
              none_prepared t);
      }
      | inr g ↦ record {
        round_changes = ltb→le _ _ f;
        value = inr (by_prepares_sound (rw (f, g) at h));
      }
    ]
  ]

-- The messages at which `max` is called on an empty dictionary: a PRE-PREPARE of the leader, after
-- the first round, with a quorum of round changes that are not all unprepared, and no PREPARE.
pub record IsMalformed (d : Definition) (duty : Duty) (cm : QbftConsensusMsg) : Type 0 where
  pub is_pre_prepare : cm.msg.type ≡ pre_prepare
  pub by_leader : is_leader d duty cm.msg.round cm.msg.peer_idx ≡ true
  pub later_round : cm.msg.round ≢ 1
  pub round_changes : quorum d ≤ count (is_round_change_for cm.msg.round) cm.justification
  pub some_prepared :
      all is_none_prepared (filter (is_round_change_for cm.msg.round) cm.justification) ≡ false
  pub no_prepares : any has_value cm.justification ≡ false

module _ (d : Definition) (duty : Duty) (cm : QbftConsensusMsg) where
  pre_prepare_sound :
      is_justified_pre_prepare d duty cm ≡ ok true
      → (is_leader d duty cm.msg.round cm.msg.peer_idx ≡ true)
        × ((cm.msg.round ≡ 1) ⊎ LaterJustified d cm.msg cm.justification)
  unfolding is_justified_pre_prepare
  pre_prepare_sound h = ground (arith, later_sound d cm.msg cm.justification)

  at_type :
      (type : MsgType) → cm.msg.type ≡ type → is_justified d duty cm ≡ justified_as type d duty cm
  unfolding is_justified
  at_type type t = ap (λ ty. justified_as ty d duty cm) t

  -- A PRE-PREPARE that is found justified is the leader's, and is for the first round or meets the
  -- justification rules J1 or J2.
  pub justified-pre_prepare :
      is_justified d duty cm ≡ ok true
      → cm.msg.type ≡ pre_prepare
      → (is_leader d duty cm.msg.round cm.msg.peer_idx ≡ true)
        × ((cm.msg.round ≡ 1) ⊎ LaterJustified d cm.msg cm.justification)
  unfolding justified_as
  justified-pre_prepare h t = pre_prepare_sound (sym (at_type pre_prepare t) ∙ h)

  decided_iff :
      cm.msg.type ≡ decided
      → (is_justified_decided d cm ≡ true)
        ↔ (quorum d ≤ count (matches commit cm.msg.round cm.msg.value_hash) cm.justification)
  unfolding is_justified_decided
  decided_iff t = (λ h. ground arith, λ h. ground arith)

  -- A DECIDED is justified exactly if a quorum of its justifications are COMMITs for its round and
  -- value.
  pub justified-decided :
      cm.msg.type ≡ decided
      → (is_justified d duty cm ≡ ok true)
        ↔ (quorum d ≤ count (matches commit cm.msg.round cm.msg.value_hash) cm.justification)
  unfolding justified_as
  justified-decided t =
      let i = decided_iff t in let e = at_type decided t in (λ h. i.0 (cc), λ h. cc (e, i.1 h))

  pre_prepare_raises : is_justified_pre_prepare d duty cm ≡ err empty_max → IsMalformed d duty cm
  unfolding is_justified_pre_prepare justified_later
  pre_prepare_raises h = elim (Bool-cases (any has_value cm.justification)) [
    | inl t ↦
        (let (k, p) =
            by_prepares_answers d cm.msg
              (filter (is_round_change_for cm.msg.round) cm.justification) cm.justification t in
          absurd (ground arith))
    | inr f ↦ ground arith
  ]

  malformed_raises : IsMalformed d duty cm → is_justified_pre_prepare d duty cm ≡ err empty_max
  unfolding is_justified_pre_prepare justified_later
  malformed_raises b = ground (
    arith,
    by_prepares_raises d cm.msg (filter (is_round_change_for cm.msg.round) cm.justification)
        cm.justification b.no_prepares,
  )

  raises_type :
      (type : MsgType)
      → cm.msg.type ≡ type
      → justified_as type d duty cm ≡ err empty_max
      → IsMalformed d duty cm
  unfolding justified_as
  raises_type pre_prepare t h = pre_prepare_raises h
  raises_type prepare t h = cc
  raises_type commit t h = cc
  raises_type round_change t h = cc
  raises_type decided t h = cc

  -- `is_justified` raises the error of `max` at an empty dictionary exactly at a malformed
  -- PRE-PREPARE: one of the leader, after the first round, with a quorum of round changes of which
  -- not all are unprepared, and with no PREPARE that carries a value.
  pub justified_raises : (is_justified d duty cm ≡ err empty_max) ↔ IsMalformed d duty cm
  unfolding justified_as
  justified_raises = (
    λ h. raises_type cm.msg.type refl (sym (at_type cm.msg.type refl) ∙ h),
    λ b. at_type pre_prepare b.is_pre_prepare ∙ malformed_raises b,
  )

count-replicate :
    (p : QbftMsg → Bool) (n : ℕ) (j : QbftMsg) → p j ≡ true → count p (replicate n j) ≡ n
count-replicate p zero j h = refl
count-replicate p (suc n) j h = rw h (ap suc (count-replicate p n j h))

-- The senders of the COMMITs are not compared: a DECIDED whose justification is one matching COMMIT,
-- repeated as often as a quorum has members, is justified.
pub justified-repeated :
    (d : Definition) (duty : Duty) (cm : QbftConsensusMsg) (j : QbftMsg)
    → cm.msg.type ≡ decided
    → matches commit cm.msg.round cm.msg.value_hash j ≡ true
    → cm.justification ≡ replicate (quorum d) j
    → is_justified d duty cm ≡ ok true
justified-repeated d duty cm j t h e =
    let n = count-replicate (matches commit cm.msg.round cm.msg.value_hash) (quorum d) j h in
    (justified-decided d duty cm t).1 (rw (e, n) (omega arith))
