-- ===== src/Cluster/Lock.antt =====
-- src/dv_spec/cluster/lock.py: the cluster lock.
use distributed_validator_sp.Base.{ℕ, List}
use distributed_validator_sp.Types.{Bytes}
use distributed_validator_sp.Cluster.Definition.{Definition}

abbrev pub pubkey_length : ℕ
pubkey_length = 48

abbrev pub bls_signature_length : ℕ
bls_signature_length = 96

abbrev pub withdrawal_credentials_length : ℕ
withdrawal_credentials_length = 32

pub record DepositData : Type 0 where
  pub pubkey : Bytes
  pub withdrawal_credentials : Bytes
  pub amount : ℕ
  pub signature : Bytes

pub record Registration : Type 0 where
  pub fee_recipient : Bytes
  pub gas_limit : ℕ
  pub timestamp : ℕ
  pub pubkey : Bytes

pub record BuilderRegistration : Type 0 where
  pub message : Registration
  pub signature : Bytes

pub record DistValidator : Type 0 where
  pub pubkey : Bytes
  pub pubshares : List Bytes
  pub partial_deposit_data : List DepositData
  pub builder_registration : BuilderRegistration

pub record Lock : Type 0 where
  pub definition : Definition
  pub validators : List DistValidator
  pub lock_hash : Bytes
  pub signature_aggregate : Bytes
  pub node_signatures : List Bytes

-- The properties `version` and `threshold` of a lock.
unfoldable pub lock_version : Lock → Bytes
lock_version lock = lock.definition.version

unfoldable pub lock_threshold : Lock → ℕ
lock_threshold lock = lock.definition.threshold
