-- ===== src/Parsigex.antt =====
-- src/dv_spec/subspecs/parsigex: the gate for duties, and the binding of the partial signatures of the
-- key generation's exchange to their senders. A share index that is not positive is held as zero.
pub mod Senders
use distributed_validator_sp.Base.{
  ℕ, Bool, true, false, ◌&&◌, ◌||◌, not, Option, none, some, List, [], ◌∷◌, ◌==◌, nat_eq, list_eq,
  if◌then◌else◌, ltb, leb, length, any, all, Dict, get, keys, values, Result, ok, err, guard, ◌>>◌,
  ℤ, pos, negsuc,
}
use distributed_validator_sp.Types.{
  Bytes, Duty, DutyType, duty_eq, duty_type_eq, exit, builder_registration,
}

pub record ParSignedData : Type 0 where
  pub payload : Bytes
  pub signature : Bytes
  pub share_idx : ℕ

-- ParSignedDataSet: validator public keys to partial signatures.
abbrev pub ParSignedDataSet : Type 0
ParSignedDataSet = Dict Bytes ParSignedData

pub data ExchangeError : Type 0 where
  unknown_peer share_index_mismatch peer_index_out_of_range missing_share_index : ExchangeError

unfoldable pub is_duty_always_accepted : Duty → Bool
is_duty_always_accepted duty = duty.type == exit || duty.type == builder_registration

-- make_simple_gater, applied to the duty that the gater gets
unfoldable pub gater : List Duty → Duty → Bool
unfolding is_duty_always_accepted
gater expected_duties duty =
    if is_duty_always_accepted duty then true else any (λ d. d == duty) expected_duties

unfoldable pub extract_pubkeys : ParSignedDataSet → List Bytes
extract_pubkeys data_set = keys data_set

unfoldable pub count_shares : ParSignedDataSet → ℕ
count_shares data_set = length data_set

unfoldable pub verify_peer_share_idx :
    Dict Bytes ℕ → Bytes → ParSignedData → Result ExchangeError (Unit {0})
unfolding get
verify_peer_share_idx share_idx_by_peer sender signed = elim (get sender share_idx_by_peer) [
  | none ↦ err unknown_peer
  | some expected ↦
      guard (not (leb signed.share_idx 0 || not (signed.share_idx == expected)))
        share_index_mismatch
]

-- 0 <= peer_idx < len(peers)
unfoldable pub in_range : ℤ → ℕ → Bool
in_range (pos i) n = ltb i n
in_range (negsuc i) n = false

unfoldable pub has_share_idx : Dict Bytes ℕ → Bytes → Bool
unfolding get
has_share_idx share_idx_by_peer peer = elim (get peer share_idx_by_peer) [
  | none ↦ false
  | some share_idx ↦ not (leb share_idx 0)
]

unfoldable pub check_peers : Dict Bytes ℕ → List Bytes → Result ExchangeError (Unit {0})
unfolding has_share_idx
check_peers share_idx_by_peer [] = ok tt
check_peers share_idx_by_peer (peer ∷ peers) = do
  guard (has_share_idx share_idx_by_peer peer) missing_share_index
  check_peers share_idx_by_peer peers

unfoldable pub validate_exchange_peers :
    List Bytes → Dict Bytes ℕ → ℤ → Result ExchangeError (Unit {0})
unfolding check_peers in_range
validate_exchange_peers peers share_idx_by_peer peer_idx = do
  guard (in_range peer_idx (length peers)) peer_index_out_of_range
  check_peers share_idx_by_peer peers

unfoldable pub validate_share_indices : ParSignedDataSet → ℕ × ℕ → Bool
validate_share_indices data_set (min_idx, max_idx) =
    all
      (λ (par_sig : ParSignedData). leb min_idx par_sig.share_idx && leb par_sig.share_idx max_idx)
      (values data_set)
