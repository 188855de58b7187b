-- ===== src/Qbft/Leader/Choice.antt =====
-- qbft/protocol.py: the justified quorum of round changes that `_classify` finds (Algorithm 4:1).
use distributed_validator_sp.Base.{
  ℕ, ◌≤◌, ◌≡◌, refl, sym, ap, ◌∙◌, Bool, true, ◌&&◌, ◌||◌, Option, some, List, [], ◌∷◌, ◌++◌, ◌==◌,
  nat_eq, list_eq, option_eq, pair_eq, length, filter, any, ltb, leb, Dict, get, put, values, arith,
  Bool-cases, Option-cases, inl, inr, ==-eq, All, All-filter, leb→le, subst, put-All, ==-refl,
  &&_parts,
}
use distributed_validator_sp.Types.{Bytes}
use distributed_validator_sp.Qbft.Message.{prepare, msg_type_eq, QbftMsg}
use distributed_validator_sp.Qbft.Justify.{matches, is_round_change_for, is_none_prepared}
use distributed_validator_sp.Qbft.Classify.{
  or_empty_dict, add_prepare, prepare_sets, candidates, justified_by, first_justified,
  justified_qrc,
}

-- A quorum of round changes with nothing prepared (J1).
pub record Unprepared (quorum round : ℕ) (js : List QbftMsg) : Type 0 where
  pub enough : quorum ≤ length js
  pub round_changes : All (λ j. is_round_change_for round j ≡ true) js
  pub none : All (λ j. is_none_prepared j ≡ true) js

-- A quorum of round changes, none prepared after `k`'s round and one prepared at `k`, and a quorum of
-- PREPAREs for `k` (J2).
pub record Prepared (quorum round : ℕ) (k : ℕ × Bytes) (found ps : List QbftMsg) : Type 0 where
  pub enough : quorum ≤ length found
  pub round_changes : All (λ j. is_round_change_for round j ≡ true) found
  pub none_higher : All (λ j. j.prepared_round ≤ k.0) found
  pub one_highest :
      any (λ j. j.prepared_round == k.0 && some j.prepared_value_hash == some k.1) found ≡ true
  pub prepares : All (λ j. matches prepare k.0 (some k.1) j ≡ true) ps
  pub enough_prepares : quorum ≤ length ps

pub data Justification (quorum round : ℕ) (js : List QbftMsg) : Type 0 where
  unprepared : Unprepared quorum round js → Justification quorum round js
  prepared :
      (k : ℕ × Bytes) (found ps : List QbftMsg)
      → js ≡ found ++ ps
      → Prepared quorum round k found ps
      → Justification quorum round js

-- All PREPAREs under a key are for the key's round and value.
abbrev EntryFits : (ℕ × Bytes) × Dict ℕ QbftMsg → Type 0
EntryFits (k, set) = All (λ e. matches prepare k.0 (some k.1) e.1 ≡ true) set

get-Fits :
    (k : ℕ × Bytes) (sets : Dict (ℕ × Bytes) (Dict ℕ QbftMsg))
    → All EntryFits sets
    → EntryFits (k, or_empty_dict (get k sets))
unfolding get
get-Fits k [] h = tt
get-Fits k ((j, set) ∷ sets) h = elim (Bool-cases (j == k)) [
  | inl t ↦ rw t (subst (λ i. EntryFits (i, set)) (==-eq j k t) h.0)
  | inr f ↦ rw f (get-Fits k sets h.1)
]

matches_self :
    (m : QbftMsg) (v : Bytes)
    → (m.type == prepare) ≡ true
    → m.value_hash ≡ some v
    → matches prepare m.round (some v) m ≡ true
matches_self m v t e = rw (t, e, ==-refl m.round) (==-refl v)

add_prepare-Fits :
    (m : QbftMsg) (sets : Dict (ℕ × Bytes) (Dict ℕ QbftMsg))
    → All EntryFits sets
    → All EntryFits (add_prepare m sets)
unfolding add_prepare
add_prepare-Fits m sets h = elim (Bool-cases (m.type == prepare)) [
  | inr f ↦ rw f h
  | inl t ↦ elim (Option-cases m.value_hash) [
    | inl e ↦ rw (t, e, add_prepare) h
    | inr (v, e) ↦
        rw (t, e, add_prepare)
          (put-All EntryFits (m.round, v) (put m.peer_idx m (or_empty_dict (get (m.round, v) sets)))
            sets
            (put-All (λ (e : ℕ × QbftMsg). matches prepare m.round (some v) e.1 ≡ true) m.peer_idx m
              (or_empty_dict (get (m.round, v) sets)) (matches_self m v t e)
              (get-Fits (m.round, v) sets h))
            h)
  ]
]

prepare_sets-Fits :
    (ms : List QbftMsg) (sets : Dict (ℕ × Bytes) (Dict ℕ QbftMsg))
    → All EntryFits sets
    → All EntryFits (prepare_sets ms sets)
unfolding prepare_sets
prepare_sets-Fits [] sets h = h
prepare_sets-Fits (m ∷ ms) sets h =
    prepare_sets-Fits ms (add_prepare m sets) (add_prepare-Fits m sets h)

-- What the loop over the round changes keeps, for the PREPARE `p`.
abbrev at_prepare : QbftMsg → QbftMsg → Bool
at_prepare p j = j.prepared_round == p.round && some j.prepared_value_hash == p.value_hash

record Kept (round : ℕ) (p : QbftMsg) (found : List QbftMsg) (highest : Bool) : Type 0 where
  round_changes : All (λ j. is_round_change_for round j ≡ true) found
  none_higher : All (λ j. j.prepared_round ≤ p.round) found
  flag : highest ≡ any (at_prepare p) found

candidates-Kept :
    (round : ℕ) (p : QbftMsg) (qrc : List QbftMsg) (used : List ℕ)
    → All (λ j. is_round_change_for round j ≡ true) qrc
    → Kept round p (candidates p qrc used).0 (candidates p qrc used).1
unfolding candidates
candidates-Kept round p [] used h = record { round_changes = tt; none_higher = tt; flag = refl }
candidates-Kept round p (rc ∷ qrc) used h =
    elim (Bool-cases (
      (ltb 0 rc.prepared_round && ltb p.round rc.prepared_round)
      || any (λ u. u == rc.peer_idx) used)) [
        | inl t ↦ rw t (candidates-Kept round p qrc used h.1)
        | inr f ↦
            (let rest = candidates-Kept round p qrc (rc.peer_idx ∷ used) h.1 in
              rw f (record {
                round_changes = (h.0, rest.round_changes);
                none_higher = (ground arith, rest.none_higher);
                flag = ap (λ b. at_prepare p rc || b) rest.flag;
              }))
      ]

abbrev Found : ℕ → ℕ → ℕ × Bytes → List QbftMsg → List QbftMsg → Type 0
Found quorum round k ps js =
    (found : List QbftMsg) × (js ≡ found ++ ps) × Prepared quorum round k found ps

at_key :
    (found : List QbftMsg) (k : ℕ × Bytes) (p : QbftMsg)
    → p.round ≡ k.0
    → p.value_hash ≡ some k.1
    → any (at_prepare p) found ≡ true
    → any (λ j. j.prepared_round == k.0 && some j.prepared_value_hash == some k.1) found ≡ true
at_key found k p r v h =
    subst
      (λ (x : ℕ).
        any (λ j. j.prepared_round == x && some j.prepared_value_hash == some k.1) found ≡ true)
      r
      (subst
        (λ (y : Option Bytes).
          any (λ j. j.prepared_round == p.round && some j.prepared_value_hash == y) found ≡ true)
        v h)

justified_by-Found :
    (quorum round : ℕ) (k : ℕ × Bytes) (qrc ps js : List QbftMsg)
    → All (λ j. is_round_change_for round j ≡ true) qrc
    → All (λ j. matches prepare k.0 (some k.1) j ≡ true) ps
    → justified_by quorum qrc ps ≡ some js
    → Found quorum round k ps js
unfolding justified_by
justified_by-Found quorum round k qrc [] js h a e = absurd (cc)
justified_by-Found quorum round k qrc (p ∷ ps) js h a e =
    let kept = candidates-Kept round p qrc [] h in
    let found = (candidates p qrc []).0 in
    let r : p.round ≡ k.0 = ground arith in
    let v : p.value_hash ≡ some k.1 = ==-eq p.value_hash (some k.1) (ground arith) in
    let c : (candidates p qrc []).1 ≡ true = ground arith in
    (
      found,
      ground arith,
      record {
        enough = ground arith;
        round_changes = kept.round_changes;
        none_higher = rw (← r) kept.none_higher;
        one_highest = at_key found k p r v (sym kept.flag ∙ c);
        prepares = a;
        enough_prepares = ground arith;
      },
    )

first_justified-Justification :
    (quorum round : ℕ) (qrc js : List QbftMsg) (sets : Dict (ℕ × Bytes) (Dict ℕ QbftMsg))
    → All (λ j. is_round_change_for round j ≡ true) qrc
    → All EntryFits sets
    → first_justified quorum qrc (values sets) ≡ some js
    → Justification quorum round js
unfolding first_justified
first_justified-Justification quorum round qrc js [] h a e = absurd (cc)
first_justified-Justification quorum round qrc js ((k, set) ∷ sets) h a e =
    elim (Option-cases (justified_by quorum qrc (values set))) [
      | inl n ↦
          first_justified-Justification quorum round qrc js sets h a.1
            (rw (n, first_justified) at e)
      | inr (j, n) ↦
          (let same : j ≡ js = ground arith in
            let (found, p, f) =
              justified_by-Found quorum round k qrc (values set) j h (values-All k set a.0) n in
            prepared k found (values set) (sym same ∙ p) f)
    ]
  where
    values-All :
        (k : ℕ × Bytes) (set : Dict ℕ QbftMsg)
        → EntryFits (k, set)
        → All (λ j. matches prepare k.0 (some k.1) j ≡ true) (values set)
    values-All k [] b = tt
    values-All k ((i, j) ∷ set) b = (b.0, values-All k set b.1)

none_parts :
    (round : ℕ) (js : List QbftMsg)
    → All (λ j. (is_round_change_for round j && is_none_prepared j) ≡ true) js
    → All (λ j. is_round_change_for round j ≡ true) js × All (λ j. is_none_prepared j ≡ true) js
none_parts round [] h = (tt, tt)
none_parts round (j ∷ js) h =
    let parts = &&_parts (is_round_change_for round j) (is_none_prepared j) h.0 in
    let rest = none_parts round js h.1 in ((parts.0, rest.0), (parts.1, rest.1))

-- The messages that `_classify` hands to a leader are a quorum of round changes with nothing
-- prepared, or a quorum of round changes and a quorum of PREPAREs for the value that they prepared last.
pub justified_qrc-Justification :
    (quorum round : ℕ) (all_msg js : List QbftMsg)
    → justified_qrc quorum round all_msg ≡ some js
    → Justification quorum round js
unfolding justified_qrc
justified_qrc-Justification quorum round all_msg js e =
    let none_prepared = filter (λ j. is_round_change_for round j && is_none_prepared j) all_msg in
    elim (Bool-cases (leb quorum (length none_prepared))) [
      | inl t ↦
          (let same : none_prepared ≡ js = ground arith in
            let parts = none_parts round none_prepared (
              All-filter _ (λ j. is_round_change_for round j && is_none_prepared j) all_msg
                (λ j x. x)) in
            unprepared (
              rw (← same)
                (record { enough = leb→le quorum _ t; round_changes = parts.0; none = parts.1 })))
      | inr f ↦
          first_justified-Justification quorum round (filter (is_round_change_for round) all_msg) js
            (prepare_sets all_msg []) (All-filter _ (is_round_change_for round) all_msg (λ j x. x))
            (prepare_sets-Fits all_msg [] tt) (rw (f, justified_qrc) at e)
    ]
