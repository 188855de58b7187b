-- ===== src/Cluster/Verification.antt =====
-- src/dv_spec/cluster/verification.py: the public shares of a lock and its two signature sets.
use distributed_validator_sp.Base.{
  ℕ, zero, suc, ◌+◌, ◌-◌, Bool, true, false, not, ◌&&◌, ◌||◌, List, [], ◌∷◌, ◌++◌, ◌==◌, nat_eq,
  list_eq, leb, length, any, drop, Dict, Result, ok, ◌>>=◌, ◌>>◌, guard,
}
use distributed_validator_sp.Types.{Bytes}
use distributed_validator_sp.Crypto.{
  Crypto, Error, share_count_mismatch, repeated_pubkey, repeated_share, threshold_out_of_range,
  not_reconstructed, node_signature_count, node_pubkey_count,
}
use distributed_validator_sp.Bls.{PyEcc, verify_aggregate, recover_pubkey}
use distributed_validator_sp.Secp256k1.{verify}
use distributed_validator_sp.Cluster.Definition.{num_operators}
use distributed_validator_sp.Cluster.Lock.{DistValidator, Lock, lock_threshold}
use distributed_validator_sp.Cluster.Hashes.{lock_hash}

unfoldable pub aggregate_pubkeys : List DistValidator → List Bytes
aggregate_pubkeys [] = []
aggregate_pubkeys (validator ∷ validators) = validator.pubshares ++ aggregate_pubkeys validators

unfoldable pub contains : Bytes → List Bytes → Bool
contains value values = any (λ other. other == value) values

-- len(set(shares)) != len(shares)
unfoldable pub repeats : List Bytes → Bool
unfolding contains
repeats [] = false
repeats (share ∷ shares) = contains share shares || repeats shares

-- for index, validator in enumerate(lock.validators), with the group keys seen so far
unfoldable pub check_validators : ℕ → List Bytes → List DistValidator → Result Error (Unit {0})
unfolding contains repeats
check_validators expected seen [] = ok tt
check_validators expected seen (validator ∷ validators) = do
  guard (length validator.pubshares == expected) share_count_mismatch
  guard (not (contains validator.pubkey seen)) repeated_pubkey
  guard (not (repeats validator.pubshares)) repeated_share
  check_validators expected (validator.pubkey ∷ seen) validators

unfoldable pub verify_pubshare_counts : Lock → Result Error (Unit {0})
unfolding check_validators num_operators
verify_pubshare_counts lock = check_validators (num_operators lock.definition) [] lock.validators

-- {place + 1: shares[place] for place in range(n)}, from a first position on
unfoldable pub number_shares : ℕ → ℕ → List Bytes → Dict ℕ Bytes
number_shares position n [] = []
number_shares position zero (share ∷ shares) = []
number_shares position (suc n) (share ∷ shares) =
    (position + 1, share) ∷ number_shares (position + 1) n shares

module _ (e : PyEcc) where
  unfoldable pub check_quorum : Bytes → Dict ℕ Bytes → Result Error (Unit {0})
  unfolding recover_pubkey
  check_quorum pubkey quorum = do
    recovered ← recover_pubkey e quorum
    guard (recovered == pubkey) not_reconstructed

  -- for position in range(threshold, len(shares)): the shares from the position on
  unfoldable pub check_substituted : Bytes → Dict ℕ Bytes → ℕ → List Bytes → Result Error (Unit {0})
  unfolding check_quorum
  check_substituted pubkey front position [] = ok tt
  check_substituted pubkey front position (share ∷ shares) = do
    check_quorum pubkey (front ++ (position + 1, share) ∷ [])
    check_substituted pubkey front (position + 1) shares

  unfoldable pub check_shares : ℕ → DistValidator → Result Error (Unit {0})
  unfolding check_quorum check_substituted number_shares
  check_shares threshold validator = do
    guard (leb 1 threshold && leb threshold (length validator.pubshares)) threshold_out_of_range
    check_quorum validator.pubkey (number_shares 0 threshold validator.pubshares)
    check_substituted validator.pubkey (number_shares 0 (threshold - 1) validator.pubshares)
        threshold (drop threshold validator.pubshares)

  -- for index, validator in enumerate(lock.validators)
  unfoldable pub check_all_shares : ℕ → List DistValidator → Result Error (Unit {0})
  unfolding check_shares
  check_all_shares threshold [] = ok tt
  check_all_shares threshold (validator ∷ validators) = do
    check_shares threshold validator
    check_all_shares threshold validators

  unfoldable pub verify_shares_reconstruct : Lock → Result Error (Unit {0})
  unfolding check_all_shares lock_threshold
  verify_shares_reconstruct lock = check_all_shares (lock_threshold lock) lock.validators

  unfoldable pub verify_signature_aggregate : Crypto → Lock → Result Error Bool
  unfolding aggregate_pubkeys lock_hash verify_aggregate
  verify_signature_aggregate c lock = do
    digest ← lock_hash c lock
    ok (verify_aggregate e (aggregate_pubkeys lock.validators) digest lock.signature_aggregate)

-- all(verify(...) for ... in zip(...)), which stops at the first False
unfoldable pub verify_pairs : Crypto → Bytes → List Bytes → List Bytes → Result Error Bool
unfolding verify
verify_pairs c digest (pubkey ∷ pubkeys) (signature ∷ signatures) =
    verify c pubkey digest signature >>= λ valid. elim valid [
      | false ↦ ok false
      | true ↦ verify_pairs c digest pubkeys signatures
    ]
verify_pairs c digest pubkeys signatures = ok true

unfoldable pub verify_node_signatures : Crypto → Lock → List Bytes → Result Error Bool
unfolding num_operators lock_hash verify_pairs
verify_node_signatures c lock node_pubkeys = do
  guard (length lock.node_signatures == num_operators lock.definition) node_signature_count
  guard (length node_pubkeys == num_operators lock.definition) node_pubkey_count
  digest ← lock_hash c lock
  verify_pairs c digest node_pubkeys lock.node_signatures
