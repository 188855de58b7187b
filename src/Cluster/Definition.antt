-- ===== src/Cluster/Definition.antt =====
-- src/dv_spec/cluster/definition.py: the cluster definition, with the constraints on its values.
-- A `str` is held as the bytes of its UTF-8 encoding, an address included.
use distributed_validator_sp.Base.{
  ℕ, ◌-◌, ◌^◌, Bool, ◌&&◌, List, [], ◌∷◌, ◌==◌, nat_eq, list_eq, leb, all, any, length, Result,
  guard, ◌>>◌,
}
use distributed_validator_sp.Types.{Bytes}
use distributed_validator_sp.Crypto.{
  Error, unsupported_version, num_validators_mismatch, value_out_of_range,
}

-- "v1.10.0"
abbrev pub version_v1x10 : Bytes
version_v1x10 = 118 ∷ 49 ∷ 46 ∷ 49 ∷ 48 ∷ 46 ∷ 48 ∷ []

abbrev pub supported_versions : List Bytes
supported_versions = version_v1x10 ∷ []

unfoldable pub require_supported_version : Bytes → Result Error (Unit {0})
require_supported_version version =
    guard (any (λ supported. version == supported) supported_versions) unsupported_version

abbrev pub max_uuid_bytes : ℕ
max_uuid_bytes = 64

abbrev pub max_name_bytes : ℕ
max_name_bytes = 256

abbrev pub max_version_bytes : ℕ
max_version_bytes = 16

abbrev pub max_timestamp_bytes : ℕ
max_timestamp_bytes = 32

abbrev pub max_dkg_algorithm_bytes : ℕ
max_dkg_algorithm_bytes = 32

abbrev pub max_enr_bytes : ℕ
max_enr_bytes = 1024

abbrev pub max_operators : ℕ
max_operators = 256

abbrev pub max_validators : ℕ
max_validators = 65536

abbrev pub max_deposit_amounts : ℕ
max_deposit_amounts = 256

abbrev pub address_length : ℕ
address_length = 20

abbrev pub fork_version_length : ℕ
fork_version_length = 4

abbrev pub k1_signature_length : ℕ
k1_signature_length = 65

abbrev pub file_hash_length : ℕ
file_hash_length = 32

pub record Operator : Type 0 where
  pub address : Bytes
  pub enr : Bytes
  pub config_signature : Bytes
  pub enr_signature : Bytes

pub record Creator : Type 0 where
  pub address : Bytes
  pub config_signature : Bytes

pub record ValidatorAddresses : Type 0 where
  pub fee_recipient_address : Bytes
  pub withdrawal_address : Bytes

pub record Definition : Type 0 where
  pub uuid : Bytes
  pub name : Bytes
  pub version : Bytes
  pub timestamp : Bytes
  pub num_validators : ℕ
  pub threshold : ℕ
  pub dkg_algorithm : Bytes
  pub fork_version : Bytes
  pub operators : List Operator
  pub creator : Creator
  pub validator_addresses : List ValidatorAddresses
  pub deposit_amounts : List ℕ
  pub consensus_protocol : Bytes
  pub target_gas_limit : ℕ
  pub compounding : Bool
  pub config_hash : Bytes
  pub definition_hash : Bytes

-- The upper bounds of GoInt and of Gwei. That they are not negative is their type here.
unfoldable pub is_go_int : ℕ → Bool
is_go_int value = leb value (2 ^ 63 - 1)

unfoldable pub is_gwei : ℕ → Bool
is_gwei value = leb value (2 ^ 64 - 1)

-- The field constraints, the field validator of the version and then the model validator.
unfoldable pub validate_definition : Definition → Result Error (Unit {0})
unfolding require_supported_version is_go_int is_gwei
validate_definition definition = do
  guard
      (is_go_int definition.num_validators
        && is_go_int definition.threshold
        && is_go_int definition.target_gas_limit
        && all is_gwei definition.deposit_amounts)
      value_out_of_range
  require_supported_version definition.version
  guard (definition.num_validators == length definition.validator_addresses) num_validators_mismatch

unfoldable pub num_operators : Definition → ℕ
num_operators definition = length definition.operators
