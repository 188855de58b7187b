-- ===== src/Cluster/Hashes.antt =====
-- src/dv_spec/cluster/hashing.py: the walk over a lock, the three hashes, and the checks of the
-- hashes that a file stores.
use distributed_validator_sp.Base.{
  true, false, List, [], ◌∷◌, ◌==◌, nat_eq, list_eq, length, Result, ok, ◌>>=◌, ◌>>◌, guard,
}
use distributed_validator_sp.Types.{Bytes}
use distributed_validator_sp.Crypto.{
  Crypto, Error, config_hash_mismatch, definition_hash_mismatch, lock_hash_mismatch,
}
use distributed_validator_sp.Encoding.Walker.{
  HashWalker, index, hash_root, put_uint64, merkleize_from, merkleize_with_mixin, put_bytes,
  put_bytes_n,
}
use distributed_validator_sp.Cluster.Definition.{
  max_operators, max_validators, max_deposit_amounts, Definition, require_supported_version,
}
use distributed_validator_sp.Cluster.Lock.{
  pubkey_length, bls_signature_length, withdrawal_credentials_length, DepositData, Registration,
  BuilderRegistration, DistValidator, Lock, lock_version,
}
use distributed_validator_sp.Cluster.Hashing.{hash_definition_v1x10}

module _ (c : Crypto) where
  unfoldable pub deposit_fields : HashWalker → DepositData → Result Error HashWalker
  unfolding put_bytes_n put_uint64
  deposit_fields walker deposit = do
    walker ← put_bytes_n c walker deposit.pubkey pubkey_length
    walker ← put_bytes_n c walker deposit.withdrawal_credentials withdrawal_credentials_length
    walker ← put_uint64 walker deposit.amount
    put_bytes_n c walker deposit.signature bls_signature_length

  unfoldable pub hash_deposit_data : HashWalker → DepositData → Result Error HashWalker
  unfolding deposit_fields merkleize_from index
  hash_deposit_data walker deposit = do
    fields ← deposit_fields walker deposit
    merkleize_from c fields (index walker)

  unfoldable pub registration_fields : HashWalker → Registration → Result Error HashWalker
  unfolding put_bytes put_uint64 put_bytes_n
  registration_fields walker registration = do
    walker ← put_bytes c walker registration.fee_recipient
    walker ← put_uint64 walker registration.gas_limit
    walker ← put_uint64 walker registration.timestamp
    put_bytes_n c walker registration.pubkey pubkey_length

  unfoldable pub hash_registration : HashWalker → Registration → Result Error HashWalker
  unfolding registration_fields merkleize_from index
  hash_registration walker registration = do
    fields ← registration_fields walker registration
    merkleize_from c fields (index walker)

  unfoldable pub builder_fields : HashWalker → BuilderRegistration → Result Error HashWalker
  unfolding hash_registration put_bytes_n
  builder_fields walker registration = do
    walker ← hash_registration walker registration.message
    put_bytes_n c walker registration.signature bls_signature_length

  unfoldable pub hash_builder_registration :
      HashWalker → BuilderRegistration → Result Error HashWalker
  unfolding builder_fields merkleize_from index
  hash_builder_registration walker registration = do
    fields ← builder_fields walker registration
    merkleize_from c fields (index walker)

  -- for pubshare in validator.pubshares
  unfoldable pub hash_pubshares : HashWalker → List Bytes → Result Error HashWalker
  unfolding put_bytes_n
  hash_pubshares walker [] = ok walker
  hash_pubshares walker (pubshare ∷ pubshares) = do
    walker ← put_bytes_n c walker pubshare pubkey_length
    hash_pubshares walker pubshares

  unfoldable pub put_pubshares : HashWalker → List Bytes → Result Error HashWalker
  unfolding hash_pubshares merkleize_with_mixin index
  put_pubshares walker pubshares = do
    members ← hash_pubshares walker pubshares
    merkleize_with_mixin c members (index walker) (length pubshares) max_operators

  -- The one chunk of a deposit is closed once more.
  unfoldable pub hash_deposit : HashWalker → DepositData → Result Error HashWalker
  unfolding hash_deposit_data merkleize_from index
  hash_deposit walker deposit = do
    hashed ← hash_deposit_data walker deposit
    merkleize_from c hashed (index walker)

  -- for deposit in validator.partial_deposit_data
  unfoldable pub hash_deposits : HashWalker → List DepositData → Result Error HashWalker
  unfolding hash_deposit
  hash_deposits walker [] = ok walker
  hash_deposits walker (deposit ∷ deposits) = do
    walker ← hash_deposit walker deposit
    hash_deposits walker deposits

  unfoldable pub put_deposits : HashWalker → List DepositData → Result Error HashWalker
  unfolding hash_deposits merkleize_with_mixin index
  put_deposits walker deposits = do
    members ← hash_deposits walker deposits
    merkleize_with_mixin c members (index walker) (length deposits) max_deposit_amounts

  unfoldable pub validator_fields : HashWalker → DistValidator → Result Error HashWalker
  unfolding put_bytes_n put_pubshares put_deposits hash_builder_registration
  validator_fields walker validator = do
    walker ← put_bytes_n c walker validator.pubkey pubkey_length
    walker ← put_pubshares walker validator.pubshares
    walker ← put_deposits walker validator.partial_deposit_data
    hash_builder_registration walker validator.builder_registration

  unfoldable pub hash_validator_v1x8_or_later : HashWalker → DistValidator → Result Error HashWalker
  unfolding validator_fields merkleize_from index
  hash_validator_v1x8_or_later walker validator = do
    fields ← validator_fields walker validator
    merkleize_from c fields (index walker)

  -- for validator in lock.validators
  unfoldable pub hash_validators : HashWalker → List DistValidator → Result Error HashWalker
  unfolding hash_validator_v1x8_or_later
  hash_validators walker [] = ok walker
  hash_validators walker (validator ∷ validators) = do
    walker ← hash_validator_v1x8_or_later walker validator
    hash_validators walker validators

  unfoldable pub put_validators : HashWalker → List DistValidator → Result Error HashWalker
  unfolding hash_validators merkleize_with_mixin index
  put_validators walker validators = do
    members ← hash_validators walker validators
    merkleize_with_mixin c members (index walker) (length validators) max_validators

  unfoldable pub lock_fields : HashWalker → Lock → Result Error HashWalker
  unfolding hash_definition_v1x10 put_validators
  lock_fields walker lock = do
    walker ← hash_definition_v1x10 c walker lock.definition false
    put_validators walker lock.validators

  unfoldable pub hash_lock_v1x3_or_later : HashWalker → Lock → Result Error HashWalker
  unfolding lock_fields merkleize_from index
  hash_lock_v1x3_or_later walker lock = do
    fields ← lock_fields walker lock
    merkleize_from c fields (index walker)

  unfoldable pub config_hash : Definition → Result Error Bytes
  unfolding require_supported_version hash_definition_v1x10 hash_root
  config_hash definition = do
    require_supported_version definition.version
    walker ← hash_definition_v1x10 c [] definition true
    hash_root walker

  unfoldable pub definition_hash : Definition → Result Error Bytes
  unfolding require_supported_version hash_definition_v1x10 hash_root
  definition_hash definition = do
    require_supported_version definition.version
    walker ← hash_definition_v1x10 c [] definition false
    hash_root walker

  unfoldable pub lock_hash : Lock → Result Error Bytes
  unfolding require_supported_version lock_version hash_lock_v1x3_or_later hash_root
  lock_hash lock = do
    require_supported_version (lock_version lock)
    walker ← hash_lock_v1x3_or_later [] lock
    hash_root walker

  unfoldable pub verify_definition_hashes : Definition → Result Error (Unit {0})
  unfolding config_hash definition_hash
  verify_definition_hashes definition = do
    expected_config ← config_hash definition
    guard (definition.config_hash == expected_config) config_hash_mismatch
    expected_definition ← definition_hash definition
    guard (definition.definition_hash == expected_definition) definition_hash_mismatch

  unfoldable pub verify_lock_hash : Lock → Result Error (Unit {0})
  unfolding verify_definition_hashes lock_hash
  verify_lock_hash lock = do
    verify_definition_hashes lock.definition
    expected ← lock_hash lock
    guard (lock.lock_hash == expected) lock_hash_mismatch
