-- ===== src/Cluster/Walks.antt =====
-- src/dv_spec/cluster/hashing.py: every walk is closed, so that a hash is 32 bytes.
use distributed_validator_sp.Base.{
  Bool, true, false, List, [], ◌∷◌, ◌≡◌, length, ok, err, ◌==◌, list_eq, nat_eq, Bool-cases,
  Result-cases, ◌⊎◌, inl, inr, refl,
}
use distributed_validator_sp.Types.{Bytes}
use distributed_validator_sp.Crypto.{Crypto, invalid_address}
use distributed_validator_sp.Encoding.Fields.{
  IsChunk, IsField, IsClosed, ◌then_field◌, Closed-Field, ok-IsField, refused-IsField,
}
use distributed_validator_sp.Encoding.Puts.{
  put_bool-IsField, put_uint64-IsField, put_bytes_n-IsField, put_byte_list-IsField,
  put_uint64_array-IsField, container-IsClosed, list-IsClosed,
}
use distributed_validator_sp.Cluster.Hex.{decode_hex_bytes}
use distributed_validator_sp.Cluster.Definition.{Operator, Creator, ValidatorAddresses, Definition}
use distributed_validator_sp.Cluster.Hashing.{
  decode_address, put_address, operator_attestations, operator_fields, hash_operator,
  hash_operators, put_operators, creator_fields, hash_creator, address_fields, hash_address,
  hash_addresses, put_addresses, put_config_hash, definition_head, definition_tail,
  definition_fields, hash_definition_v1x10,
}

decode_address-cases :
    (address : Bytes)
    → (decode_address address ≡ err invalid_address)
      ⊎ ((raw : Bytes) × (decode_address address ≡ ok raw))
unfolding decode_address
decode_address-cases [] = inr ([], refl)
decode_address-cases (a ∷ text) = elim (Result-cases (decode_hex_bytes (a ∷ text))) [
  | inl (e, q) ↦ inl (rw (q, decode_address))
  | inr (raw, q) ↦ elim (Bool-cases (length raw == 20)) [
    | inl t ↦ inr (raw, rw (q, decode_address, t))
    | inr f ↦ inl (rw (q, decode_address, f))
  ]
]

module _ (c : Crypto) (hashes : (b : Bytes) → IsChunk (c.sha256 b)) where
  put_address-IsField : (address : Bytes) → IsField (λ w. put_address c w address)
  unfolding put_address
  put_address-IsField address = elim (decode_address-cases address) [
    | inl q ↦ rw q (refused-IsField invalid_address (λ p. cc, λ p. cc))
    | inr (raw, q) ↦ rw q (put_bytes_n-IsField c hashes raw 20)
  ]

  operator_attestations-IsField :
      (operator : Operator) → IsField (λ w. operator_attestations c w operator)
  unfolding operator_attestations
  operator_attestations-IsField operator =
      put_byte_list-IsField c hashes operator.enr 1024
      then_field put_bytes_n-IsField c hashes operator.config_signature 65
      then_field put_bytes_n-IsField c hashes operator.enr_signature 65

  operator_fields-IsField :
      (operator : Operator) (b : Bool) → IsField (λ w. operator_fields c w operator b)
  unfolding operator_fields
  operator_fields-IsField operator true = put_address-IsField operator.address then_field ok-IsField
  operator_fields-IsField operator false =
      put_address-IsField operator.address then_field operator_attestations-IsField operator

  hash_operator-IsClosed :
      (operator : Operator) (b : Bool) → IsClosed (λ w. hash_operator c w operator b)
  unfolding hash_operator
  hash_operator-IsClosed operator b =
      container-IsClosed c hashes (operator_fields-IsField operator b)

  hash_operators-IsField :
      (operators : List Operator) (b : Bool) → IsField (λ w. hash_operators c w operators b)
  unfolding hash_operators
  hash_operators-IsField [] b = ok-IsField
  hash_operators-IsField (operator ∷ operators) b =
      Closed-Field (hash_operator-IsClosed operator b) then_field hash_operators-IsField operators b

  put_operators-IsClosed :
      (operators : List Operator) (b : Bool) → IsClosed (λ w. put_operators c w operators b)
  unfolding put_operators
  put_operators-IsClosed operators b =
      list-IsClosed c hashes (length operators) 256 (hash_operators-IsField operators b)

  creator_fields-IsField :
      (creator : Creator) (b : Bool) → IsField (λ w. creator_fields c w creator b)
  unfolding creator_fields
  creator_fields-IsField creator true = put_address-IsField creator.address then_field ok-IsField
  creator_fields-IsField creator false =
      put_address-IsField creator.address
      then_field put_bytes_n-IsField c hashes creator.config_signature 65

  hash_creator-IsClosed :
      (creator : Creator) (b : Bool) → IsClosed (λ w. hash_creator c w creator b)
  unfolding hash_creator
  hash_creator-IsClosed creator b = container-IsClosed c hashes (creator_fields-IsField creator b)

  address_fields-IsField :
      (addresses : ValidatorAddresses) → IsField (λ w. address_fields c w addresses)
  unfolding address_fields
  address_fields-IsField addresses =
      put_address-IsField addresses.fee_recipient_address
      then_field put_address-IsField addresses.withdrawal_address

  hash_address-IsClosed :
      (addresses : ValidatorAddresses) → IsClosed (λ w. hash_address c w addresses)
  unfolding hash_address
  hash_address-IsClosed addresses = container-IsClosed c hashes (address_fields-IsField addresses)

  hash_addresses-IsField :
      (addresses : List ValidatorAddresses) → IsField (λ w. hash_addresses c w addresses)
  unfolding hash_addresses
  hash_addresses-IsField [] = ok-IsField
  hash_addresses-IsField (addresses ∷ rest) =
      Closed-Field (hash_address-IsClosed addresses) then_field hash_addresses-IsField rest

  put_addresses-IsClosed :
      (addresses : List ValidatorAddresses) → IsClosed (λ w. put_addresses c w addresses)
  unfolding put_addresses
  put_addresses-IsClosed addresses =
      list-IsClosed c hashes (length addresses) 65536 (hash_addresses-IsField addresses)

  put_config_hash-IsField :
      (definition : Definition) (b : Bool) → IsField (λ w. put_config_hash c w definition b)
  unfolding put_config_hash
  put_config_hash-IsField definition true = ok-IsField
  put_config_hash-IsField definition false = put_bytes_n-IsField c hashes definition.config_hash 32

  definition_head-IsField : (d : Definition) → IsField (λ w. definition_head c w d)
  unfolding definition_head
  definition_head-IsField d =
      put_byte_list-IsField c hashes d.uuid 64
      then_field put_byte_list-IsField c hashes d.name 256
      then_field put_byte_list-IsField c hashes d.version 16
      then_field put_byte_list-IsField c hashes d.timestamp 32
      then_field put_uint64-IsField d.num_validators
      then_field put_uint64-IsField d.threshold
      then_field put_byte_list-IsField c hashes d.dkg_algorithm 32
      then_field put_bytes_n-IsField c hashes d.fork_version 4

  definition_tail-IsField : (d : Definition) (b : Bool) → IsField (λ w. definition_tail c w d b)
  unfolding definition_tail
  definition_tail-IsField d b =
      Closed-Field (put_addresses-IsClosed d.validator_addresses)
      then_field put_uint64_array-IsField c hashes d.deposit_amounts 256
      then_field put_byte_list-IsField c hashes d.consensus_protocol 256
      then_field put_uint64-IsField d.target_gas_limit
      then_field put_bool-IsField d.compounding
      then_field put_config_hash-IsField d b

  definition_fields-IsField : (d : Definition) (b : Bool) → IsField (λ w. definition_fields c w d b)
  unfolding definition_fields
  definition_fields-IsField d b =
      definition_head-IsField d
      then_field Closed-Field (put_operators-IsClosed d.operators b)
      then_field Closed-Field (hash_creator-IsClosed d.creator b)
      then_field definition_tail-IsField d b

  pub hash_definition_v1x10-IsClosed :
      (d : Definition) (b : Bool) → IsClosed (λ w. hash_definition_v1x10 c w d b)
  unfolding hash_definition_v1x10
  hash_definition_v1x10-IsClosed d b = container-IsClosed c hashes (definition_fields-IsField d b)
