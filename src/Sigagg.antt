-- ===== src/Sigagg.antt =====
-- src/dv_spec/subspecs/sigagg/threshold.py and aggregation.py: the partial signatures that are held
-- for one validator and duty, the trigger of the aggregation, and the signatures it takes.
pub mod Store
pub mod Trigger
pub mod Inputs
use distributed_validator_sp.Base.{
  ℕ, ◌≡◌, ◌↔◌, Bool, true, false, ◌&&◌, &&_parts, Option, none, some, List, [], ◌∷◌, ◌++◌, Eq, ◌==◌,
  ==-eq, ==-refl, nat_eq, list_eq, if◌then◌else◌, ltb, leb, length, Dict, get, put, values, or_nil,
  Result, ok, err, guard, ◌>>◌, not, arith,
}
use distributed_validator_sp.Types.{Bytes, DutyType, duty_type_eq}

pub data SigaggError : Type 0 where
  invalid_field mismatching_data invalid_share_idx too_few_signatures too_few_indices : SigaggError

pub record PartialSignature : Type 0 where
  pub share_idx : ℕ
  pub signature : Bytes
  pub message_root : Bytes

-- The constructor, with the constraints of the fields.
unfoldable pub new_partial_signature : ℕ → Bytes → Bytes → Result SigaggError PartialSignature
new_partial_signature share_idx signature message_root = do
  guard (leb 1 share_idx) invalid_field
  guard (length signature == 96) invalid_field
  guard (length message_root == 32) invalid_field
  ok (record { share_idx = share_idx; signature = signature; message_root = message_root })

-- The generated `==` of the fields.
abbrev pub signature_beq : PartialSignature → PartialSignature → Bool
signature_beq a b =
    a.share_idx == b.share_idx && (a.signature == b.signature && a.message_root == b.message_root)

pub signature_beq_iff : (a b : PartialSignature) → (signature_beq a b ≡ true) ↔ (a ≡ b)
signature_beq_iff a b =
    (same, λ p. rw p (rw (==-refl b.share_idx) (rw (==-refl b.signature) (==-refl b.message_root))))
  where
    same : signature_beq a b ≡ true → a ≡ b
    same h =
        let t =
          &&_parts (a.share_idx == b.share_idx)
            (a.signature == b.signature && a.message_root == b.message_root) h in
        let u = &&_parts (a.signature == b.signature) (a.message_root == b.message_root) t.1 in
        λ i. record {
          share_idx = ==-eq a.share_idx b.share_idx t.0 i;
          signature = ==-eq a.signature b.signature u.0 i;
          message_root = ==-eq a.message_root b.message_root u.1 i;
        }

instance abbrev pub signature_eq : Eq PartialSignature
signature_eq = record { equal = signature_beq; equal_iff = signature_beq_iff }

-- `none` stands for the duplicate that is ignored.
unfoldable pub check_stored : List PartialSignature → PartialSignature → Result SigaggError Bool
check_stored [] incoming = ok true
check_stored (existing ∷ stored) incoming =
    let later = check_stored stored incoming in
    if not (existing.share_idx == incoming.share_idx)
    then later
    else if existing == incoming
    then ok false
    else err mismatching_data

unfoldable pub store_partial_signature :
    List PartialSignature → PartialSignature → Result SigaggError (Option (List PartialSignature))
unfolding check_stored
store_partial_signature stored incoming = elim (check_stored stored incoming) [
  | err e ↦ err e
  | ok fresh ↦ ok (if fresh then some (stored ++ incoming ∷ []) else none)
]

-- by_root.setdefault(sig.message_root, []).append(sig)
unfoldable pub by_root :
    List PartialSignature → Dict Bytes (List PartialSignature) → Dict Bytes (List PartialSignature)
unfolding get put
by_root [] groups = groups
by_root (sig ∷ sigs) groups =
    by_root sigs (put sig.message_root (or_nil (get sig.message_root groups) ++ sig ∷ []) groups)

unfoldable pub first_of_length : ℕ → List (List PartialSignature) → Option (List PartialSignature)
first_of_length threshold [] = none
first_of_length threshold (group ∷ groups) =
    let later = first_of_length threshold groups in
    if length group == threshold then some group else later

unfoldable pub select_threshold_matching :
    DutyType → List PartialSignature → ℕ → Option (List PartialSignature)
unfolding first_of_length by_root
select_threshold_matching duty_type sigs threshold =
    if ltb (length sigs) threshold
    then none
    else if duty_type == DutyType.signature
    then (if length sigs == threshold then some sigs else none)
    else first_of_length threshold (values (by_root sigs []))

unfoldable pub verify_share_idx : ℕ → Dict ℕ Bytes → Result SigaggError Bytes
unfolding get
verify_share_idx share_idx public_shares = elim (get share_idx public_shares) [
  | none ↦ err invalid_share_idx
  | some share ↦ ok share
]

-- {sig.share_idx: sig.signature for sig in sigs}
unfoldable pub by_share_idx : List PartialSignature → Dict ℕ Bytes → Dict ℕ Bytes
unfolding put
by_share_idx [] d = d
by_share_idx (sig ∷ sigs) d = by_share_idx sigs (put sig.share_idx sig.signature d)

unfoldable pub select_aggregation_inputs :
    List PartialSignature → ℕ → Result SigaggError (Dict ℕ Bytes)
unfolding by_share_idx
select_aggregation_inputs sigs threshold =
    let by_idx = by_share_idx sigs [] in
    if ltb (length sigs) threshold
    then err too_few_signatures
    else if ltb (length by_idx) threshold
    then err too_few_indices
    else ok by_idx
