-- ===== src/Crypto.antt =====
-- The cryptographic primitives of other packages, as parameters: `hashlib.sha256` and the
-- deterministic `PrivateKey.sign_msg_hash`, public keys and `ecdsa_recover` of `eth_keys`; and `sign` of
-- src/dv_spec/crypto/secp256k1.py, with the checks it makes around that primitive.
use distributed_validator_sp.Base.{ℕ, Bool, length, ◌==◌, nat_eq, Result, ok, ◌>>◌, guard, Option}
use distributed_validator_sp.Types.{Bytes}

pub record Crypto : Type 0 where
  pub sha256 : Bytes → Bytes
  -- Whether `PrivateKey` takes a secret of 32 bytes: it raises for zero and from the curve's order on.
  pub accepts_secret : Bytes → Bool
  pub sign_msg_hash : Bytes → Bytes → Bytes
  -- The compressed public key of a secret, and the one that a digest and a signature recover to,
  -- where the library raises neither BadSignature nor ValidationError.
  pub public_key : Bytes → Bytes
  pub ecdsa_recover : Bytes → Bytes → Option Bytes

pub data Error : Type 0 where
  bad_secret refused_secret bad_hash too_many_chunks : Error
  bad_signature_length bad_recovery_id invalid_signature : Error
  too_many_justifications too_many_values : Error
  invalid_message already_signed : Error
  empty_max : Error
  frc_too_short frc_non_round_change frc_round_not_in_future : Error
  unknown_rule infinite_round : Error
  uint64_out_of_range length_overflow not_aligned incomplete_walk : Error
  over_limit over_fixed_length invalid_hex invalid_address : Error
  unsupported_version num_validators_mismatch value_out_of_range : Error
  secret_out_of_range no_signatures invalid_share_index not_invertible no_points invalid_point :
      Error
  share_count_mismatch repeated_pubkey repeated_share threshold_out_of_range not_reconstructed :
      Error
  node_signature_count node_pubkey_count zero_division : Error
  config_hash_mismatch definition_hash_mismatch lock_hash_mismatch : Error

abbrev pub secret_length : ℕ
secret_length = 32

abbrev pub hash_length : ℕ
hash_length = 32

module _ (c : Crypto) where
  -- secp256k1.sign
  unfoldable pub sign : Bytes → Bytes → Result Error Bytes
  sign secret digest = do
    guard (length secret == secret_length) bad_secret
    guard (c.accepts_secret secret) refused_secret
    guard (length digest == hash_length) bad_hash
    ok (c.sign_msg_hash secret digest)
