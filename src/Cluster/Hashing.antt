-- ===== src/Cluster/Hashing.antt =====
-- src/dv_spec/cluster/hashing.py: the walk over a definition. A walk that collects the fields of a
-- container stands apart from the function that closes the container.
use distributed_validator_sp.Base.{
  Bool, List, [], ◌∷◌, ◌==◌, nat_eq, list_eq, if◌then◌else◌, length, Result, ok, err, ◌>>=◌,
}
use distributed_validator_sp.Types.{Bytes}
use distributed_validator_sp.Crypto.{Crypto, Error, invalid_address}
use distributed_validator_sp.Encoding.Walker.{
  HashWalker, index, put_bool, put_uint64, merkleize_from, merkleize_with_mixin, put_uint64_array,
  put_byte_list, put_bytes_n,
}
use distributed_validator_sp.Cluster.Hex.{decode_hex_bytes}
use distributed_validator_sp.Cluster.Definition.{
  max_uuid_bytes, max_name_bytes, max_version_bytes, max_timestamp_bytes, max_dkg_algorithm_bytes,
  max_enr_bytes, max_operators, max_validators, max_deposit_amounts, address_length,
  file_hash_length, fork_version_length, k1_signature_length, Operator, Creator, ValidatorAddresses,
  Definition,
}

-- A failure of the hex decoder is raised again as an invalid address.
unfoldable pub decode_address : Bytes → Result Error Bytes
unfolding decode_hex_bytes
decode_address [] = ok []
decode_address (a ∷ text) = elim (decode_hex_bytes (a ∷ text)) [
  | err e ↦ err invalid_address
  | ok raw ↦ if length raw == address_length then ok raw else err invalid_address
]

module _ (c : Crypto) where
  unfoldable pub put_address : HashWalker → Bytes → Result Error HashWalker
  unfolding put_bytes_n decode_address
  put_address walker address = do
    raw ← decode_address address
    put_bytes_n c walker raw address_length

  -- What is skipped for a config hash.
  unfoldable pub operator_attestations : HashWalker → Operator → Result Error HashWalker
  unfolding put_byte_list put_bytes_n
  operator_attestations walker operator = do
    walker ← put_byte_list c walker operator.enr max_enr_bytes
    walker ← put_bytes_n c walker operator.config_signature k1_signature_length
    put_bytes_n c walker operator.enr_signature k1_signature_length

  unfoldable pub operator_fields : HashWalker → Operator → Bool → Result Error HashWalker
  unfolding put_address operator_attestations
  operator_fields walker operator config_only = do
    walker ← put_address walker operator.address
    if config_only then ok walker else operator_attestations walker operator

  unfoldable pub hash_operator : HashWalker → Operator → Bool → Result Error HashWalker
  unfolding operator_fields merkleize_from index
  hash_operator walker operator config_only = do
    fields ← operator_fields walker operator config_only
    merkleize_from c fields (index walker)

  -- for operator in definition.operators
  unfoldable pub hash_operators : HashWalker → List Operator → Bool → Result Error HashWalker
  unfolding hash_operator
  hash_operators walker [] config_only = ok walker
  hash_operators walker (operator ∷ operators) config_only = do
    walker ← hash_operator walker operator config_only
    hash_operators walker operators config_only

  unfoldable pub put_operators : HashWalker → List Operator → Bool → Result Error HashWalker
  unfolding hash_operators merkleize_with_mixin index
  put_operators walker operators config_only = do
    members ← hash_operators walker operators config_only
    merkleize_with_mixin c members (index walker) (length operators) max_operators

  unfoldable pub creator_fields : HashWalker → Creator → Bool → Result Error HashWalker
  unfolding put_address put_bytes_n
  creator_fields walker creator config_only = do
    walker ← put_address walker creator.address
    if config_only
        then ok walker
        else put_bytes_n c walker creator.config_signature k1_signature_length

  unfoldable pub hash_creator : HashWalker → Creator → Bool → Result Error HashWalker
  unfolding creator_fields merkleize_from index
  hash_creator walker creator config_only = do
    fields ← creator_fields walker creator config_only
    merkleize_from c fields (index walker)

  unfoldable pub address_fields : HashWalker → ValidatorAddresses → Result Error HashWalker
  unfolding put_address
  address_fields walker addresses = do
    walker ← put_address walker addresses.fee_recipient_address
    put_address walker addresses.withdrawal_address

  unfoldable pub hash_address : HashWalker → ValidatorAddresses → Result Error HashWalker
  unfolding address_fields merkleize_from index
  hash_address walker addresses = do
    fields ← address_fields walker addresses
    merkleize_from c fields (index walker)

  -- for addresses in definition.validator_addresses
  unfoldable pub hash_addresses : HashWalker → List ValidatorAddresses → Result Error HashWalker
  unfolding hash_address
  hash_addresses walker [] = ok walker
  hash_addresses walker (addresses ∷ rest) = do
    walker ← hash_address walker addresses
    hash_addresses walker rest

  unfoldable pub put_addresses : HashWalker → List ValidatorAddresses → Result Error HashWalker
  unfolding hash_addresses merkleize_with_mixin index
  put_addresses walker addresses = do
    members ← hash_addresses walker addresses
    merkleize_with_mixin c members (index walker) (length addresses) max_validators

  unfoldable pub put_config_hash : HashWalker → Definition → Bool → Result Error HashWalker
  unfolding put_bytes_n
  put_config_hash walker definition config_only =
      if config_only
      then ok walker
      else put_bytes_n c walker definition.config_hash file_hash_length

  -- The fields before the operators.
  unfoldable pub definition_head : HashWalker → Definition → Result Error HashWalker
  unfolding put_byte_list put_uint64 put_bytes_n
  definition_head walker definition = do
    walker ← put_byte_list c walker definition.uuid max_uuid_bytes
    walker ← put_byte_list c walker definition.name max_name_bytes
    walker ← put_byte_list c walker definition.version max_version_bytes
    walker ← put_byte_list c walker definition.timestamp max_timestamp_bytes
    walker ← put_uint64 walker definition.num_validators
    walker ← put_uint64 walker definition.threshold
    walker ← put_byte_list c walker definition.dkg_algorithm max_dkg_algorithm_bytes
    put_bytes_n c walker definition.fork_version fork_version_length

  -- The fields after the creator.
  unfoldable pub definition_tail : HashWalker → Definition → Bool → Result Error HashWalker
  unfolding put_byte_list put_uint64 put_addresses put_config_hash put_uint64_array put_bool
  definition_tail walker definition config_only = do
    walker ← put_addresses walker definition.validator_addresses
    walker ← put_uint64_array c walker definition.deposit_amounts max_deposit_amounts
    walker ← put_byte_list c walker definition.consensus_protocol max_name_bytes
    walker ← put_uint64 walker definition.target_gas_limit
    walker ← ok (put_bool walker definition.compounding)
    put_config_hash walker definition config_only

  unfoldable pub definition_fields : HashWalker → Definition → Bool → Result Error HashWalker
  unfolding definition_head put_operators hash_creator definition_tail
  definition_fields walker definition config_only = do
    walker ← definition_head walker definition
    walker ← put_operators walker definition.operators config_only
    walker ← hash_creator walker definition.creator config_only
    definition_tail walker definition config_only

  unfoldable pub hash_definition_v1x10 : HashWalker → Definition → Bool → Result Error HashWalker
  unfolding definition_fields merkleize_from index
  hash_definition_v1x10 walker definition config_only = do
    fields ← definition_fields walker definition config_only
    merkleize_from c fields (index walker)
