-- ===== src/Cluster/LockWalks.antt =====
-- src/dv_spec/cluster/hashing.py: the walk over a lock is closed, and so the three hashes are roots.
use distributed_validator_sp.Base.{
  true, false, List, [], ◌∷◌, length, Result, ◌>>◌, ◌==◌, list_eq, nat_eq, Bool-cases, inl, inr,
}
use distributed_validator_sp.Types.{Bytes}
use distributed_validator_sp.Crypto.{Crypto, Error}
use distributed_validator_sp.Encoding.Fields.{
  IsChunk, IsField, IsClosed, ◌then_field◌, Closed-Field, ok-IsField,
}
use distributed_validator_sp.Encoding.Puts.{
  put_uint64-IsField, put_bytes-IsField, put_bytes_n-IsField, container-IsClosed, list-IsClosed,
  IsRoot, walk-IsRoot,
}
use distributed_validator_sp.Cluster.Definition.{require_supported_version, version_v1x10}
use distributed_validator_sp.Cluster.Lock.{
  DepositData, Registration, BuilderRegistration, DistValidator, Lock, lock_version,
}
use distributed_validator_sp.Cluster.Hashes.{
  deposit_fields, hash_deposit_data, registration_fields, hash_registration, builder_fields,
  hash_builder_registration, hash_pubshares, put_pubshares, hash_deposit, hash_deposits,
  put_deposits, validator_fields, hash_validator_v1x8_or_later, hash_validators, put_validators,
  lock_fields, hash_lock_v1x3_or_later, config_hash, definition_hash, lock_hash,
}
use distributed_validator_sp.Cluster.Walks.{hash_definition_v1x10-IsClosed}

module _ (c : Crypto) (hashes : (b : Bytes) → IsChunk (c.sha256 b)) where
  deposit_fields-IsField : (d : DepositData) → IsField (λ w. deposit_fields c w d)
  unfolding deposit_fields
  deposit_fields-IsField d =
      put_bytes_n-IsField c hashes d.pubkey 48
      then_field put_bytes_n-IsField c hashes d.withdrawal_credentials 32
      then_field put_uint64-IsField d.amount
      then_field put_bytes_n-IsField c hashes d.signature 96

  hash_deposit-IsClosed : (d : DepositData) → IsClosed (λ w. hash_deposit c w d)
  unfolding hash_deposit hash_deposit_data
  hash_deposit-IsClosed d =
      container-IsClosed c hashes
        (Closed-Field (container-IsClosed c hashes (deposit_fields-IsField d)))

  registration_fields-IsField : (r : Registration) → IsField (λ w. registration_fields c w r)
  unfolding registration_fields
  registration_fields-IsField r =
      put_bytes-IsField c hashes r.fee_recipient
      then_field put_uint64-IsField r.gas_limit
      then_field put_uint64-IsField r.timestamp
      then_field put_bytes_n-IsField c hashes r.pubkey 48

  hash_builder_registration-IsClosed :
      (r : BuilderRegistration) → IsClosed (λ w. hash_builder_registration c w r)
  unfolding hash_builder_registration builder_fields hash_registration
  hash_builder_registration-IsClosed r = container-IsClosed c hashes (
      Closed-Field (container-IsClosed c hashes (registration_fields-IsField r.message))
      then_field put_bytes_n-IsField c hashes r.signature 96)

  hash_pubshares-IsField : (l : List Bytes) → IsField (λ w. hash_pubshares c w l)
  unfolding hash_pubshares
  hash_pubshares-IsField [] = ok-IsField
  hash_pubshares-IsField (share ∷ l) =
      put_bytes_n-IsField c hashes share 48 then_field hash_pubshares-IsField l

  hash_deposits-IsField : (l : List DepositData) → IsField (λ w. hash_deposits c w l)
  unfolding hash_deposits
  hash_deposits-IsField [] = ok-IsField
  hash_deposits-IsField (d ∷ l) =
      Closed-Field (hash_deposit-IsClosed d) then_field hash_deposits-IsField l

  validator_fields-IsField : (v : DistValidator) → IsField (λ w. validator_fields c w v)
  unfolding validator_fields put_pubshares put_deposits
  validator_fields-IsField v =
      put_bytes_n-IsField c hashes v.pubkey 48
      then_field Closed-Field
          (list-IsClosed c hashes (length v.pubshares) 256 (hash_pubshares-IsField v.pubshares))
      then_field Closed-Field (
          list-IsClosed c hashes (length v.partial_deposit_data) 256
            (hash_deposits-IsField v.partial_deposit_data))
      then_field Closed-Field (hash_builder_registration-IsClosed v.builder_registration)

  hash_validators-IsField : (l : List DistValidator) → IsField (λ w. hash_validators c w l)
  unfolding hash_validators hash_validator_v1x8_or_later
  hash_validators-IsField [] = ok-IsField
  hash_validators-IsField (v ∷ l) =
      Closed-Field (container-IsClosed c hashes (validator_fields-IsField v))
      then_field hash_validators-IsField l

  hash_lock-IsClosed : (lock : Lock) → IsClosed (λ w. hash_lock_v1x3_or_later c w lock)
  unfolding hash_lock_v1x3_or_later lock_fields put_validators
  hash_lock-IsClosed lock = container-IsClosed c hashes (
      Closed-Field (hash_definition_v1x10-IsClosed c hashes lock.definition false)
      then_field Closed-Field (
          list-IsClosed c hashes (length lock.validators) 65536
            (hash_validators-IsField lock.validators)))

  versioned-IsRoot :
      (version : Bytes) (r : Result Error Bytes)
      → IsRoot r
      → IsRoot (require_supported_version version >> r)
  unfolding require_supported_version
  versioned-IsRoot version r h = elim (Bool-cases (version == version_v1x10)) [
    | inl t ↦ rw t h
    | inr f ↦ rw f (λ p. cc, λ p. cc)
  ]

  -- For a hash function of 32 bytes, whatever a lock holds, its config hash, definition hash and
  -- lock hash each are 32 bytes or are refused for the content: no walk is left open or unaligned.
  pub hashes_closed :
      (lock : Lock)
      → IsRoot (config_hash c lock.definition)
        × IsRoot (definition_hash c lock.definition)
        × IsRoot (lock_hash c lock)
  unfolding config_hash definition_hash lock_hash lock_version
  hashes_closed lock = (
    versioned-IsRoot lock.definition.version _
        (walk-IsRoot (hash_definition_v1x10-IsClosed c hashes lock.definition true)),
    versioned-IsRoot lock.definition.version _
        (walk-IsRoot (hash_definition_v1x10-IsClosed c hashes lock.definition false)),
    versioned-IsRoot lock.definition.version _ (walk-IsRoot (hash_lock-IsClosed lock)),
  )
