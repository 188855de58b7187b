-- ===== src/Tests/Sigagg.antt =====
-- threshold.py and aggregation.py in a cluster of four with threshold three.
use distributed_validator_sp.Base.{
  ℕ, ◌≡◌, ◌≢◌, ◌≤◌, refl, some, List, [], ◌∷◌, replicate, Distinct, keys, All, ok, arith, length,
  nat_eq,
}
use distributed_validator_sp.Types.{Bytes, attester, duty_type_eq}
use distributed_validator_sp.Sigagg.{
  PartialSignature, signature_eq, store_partial_signature, select_threshold_matching,
  select_aggregation_inputs,
}
use distributed_validator_sp.Sigagg.Store.{share_indices}
use distributed_validator_sp.Sigagg.Trigger.{select_complete, later_signature}
use distributed_validator_sp.Sigagg.Inputs.{
  entries, triggered-aggregates, Signed, inputs-Authorised,
}

abbrev root : Bytes
root = replicate 32 1

abbrev other : Bytes
other = replicate 32 2

abbrev sig : ℕ → Bytes → PartialSignature
sig i r = record { share_idx = i; signature = replicate 96 i; message_root = r }

abbrev three : List PartialSignature
three = sig 1 root ∷ sig 2 root ∷ sig 4 root ∷ []

abbrev two : List PartialSignature
two = sig 1 root ∷ sig 2 root ∷ []

stored : store_partial_signature two (sig 4 root) ≡ ok (some three)
unfolding store_partial_signature
stored = refl

distinct : Distinct (share_indices three)
distinct =
    let ne12 : 1 ≢ 2 = λ e. omega (arith, e) in
    let ne14 : 1 ≢ 4 = λ e. omega (arith, e) in
    let ne24 : 2 ≢ 4 = λ e. omega (arith, e) in ((ne12, (ne14, tt)), ((ne24, tt), (tt, tt)))

selected : select_threshold_matching attester three 3 ≡ some three
unfolding select_threshold_matching
selected = refl

select_complete_example : select_threshold_matching attester three 3 ≡ some three
select_complete_example =
    select_complete attester three 3 root refl (omega arith) (omega arith) refl

later_signature_example :
    select_threshold_matching attester (sig 1 root ∷ sig 2 root ∷ sig 4 root ∷ sig 3 other ∷ []) 3
    ≡ some three
later_signature_example =
    later_signature attester three (sig 3 other) 3 root refl (omega arith) (omega arith) refl

triggered-aggregates_example :
    (select_aggregation_inputs three 3 ≡ ok (entries three)) × (length (entries three) ≡ 3)
triggered-aggregates_example = triggered-aggregates attester three three 3 refl distinct selected

inputs : select_aggregation_inputs three 3 ≡ ok (entries three)
unfolding select_aggregation_inputs
inputs = refl

inputs-Authorised_example :
    (3 ≤ length (entries three))
    × Distinct (keys (entries three))
    × All (Signed three) (entries three)
inputs-Authorised_example = inputs-Authorised three 3 (entries three) inputs
