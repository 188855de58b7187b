-- ===== src/Tests/Files.antt =====
-- Cluster files: a definition of two operators and the lock of one validator.
use distributed_validator_sp.Base.{
  ℕ, ◌≡◌, ◌↔◌, refl, true, false, [], ◌∷◌, ◌++◌, replicate, map, length, length-append, length-take,
  length-replicate, get_elem?, some, All, Distinct, ok, arith,
}
use distributed_validator_sp.Types.{Bytes}
use distributed_validator_sp.Tests.Cluster.{toy}
use distributed_validator_sp.Encoding.Fields.{IsChunk}
use distributed_validator_sp.Encoding.Puts.{IsRoot}
use distributed_validator_sp.Secp256k1.{verify}
use distributed_validator_sp.Cluster.Definition.{version_v1x10, Operator, Definition, num_operators}
use distributed_validator_sp.Cluster.Lock.{BuilderRegistration, DistValidator, Lock}
use distributed_validator_sp.Cluster.Hashes.{
  config_hash, definition_hash, lock_hash, verify_lock_hash,
}
use distributed_validator_sp.Cluster.ConfigHash.{config_hash_stable}
use distributed_validator_sp.Cluster.LockWalks.{hashes_closed}
use distributed_validator_sp.Cluster.Shares.{HasShares, pubkey_of, pubshare_counts_iff}
use distributed_validator_sp.Cluster.Verification.{verify_pubshare_counts, verify_node_signatures}
use distributed_validator_sp.Cluster.Attested.{lock_attested}

toy_hashes : (b : Bytes) → IsChunk (toy.sha256 b)
toy_hashes b =
    length-take 32 (b ++ replicate 32 0)
      (rw (length-append, length-replicate {A = ℕ} 32 0) (omega arith))

-- "0x" and forty digits
abbrev address : Bytes
address = 48 ∷ 120 ∷ replicate 40 97

abbrev operator : Bytes → Operator
operator enr = record { address = address; enr = enr; config_signature = []; enr_signature = [] }

abbrev definition : Bytes → Bytes → Bytes → Definition
definition enr stored_config stored_definition = record {
  uuid = 1 ∷ [];
  name = 2 ∷ [];
  version = version_v1x10;
  timestamp = [];
  num_validators = 1;
  threshold = 2;
  dkg_algorithm = [];
  fork_version = replicate 4 0;
  operators = operator enr ∷ operator [] ∷ [];
  creator = record { address = address; config_signature = [] };
  validator_addresses =
      record { fee_recipient_address = address; withdrawal_address = address } ∷ [];
  deposit_amounts = 32 ∷ [];
  consensus_protocol = [];
  target_gas_limit = 30;
  compounding = false;
  config_hash = stored_config;
  definition_hash = stored_definition;
}

abbrev registration : BuilderRegistration
registration = record {
  message = record {
    fee_recipient = replicate 20 1;
    gas_limit = 30;
    timestamp = 5;
    pubkey = replicate 48 3;
  };
  signature = replicate 96 4;
}

abbrev validator : DistValidator
validator = record {
  pubkey = replicate 48 3;
  pubshares = replicate 48 5 ∷ replicate 48 6 ∷ [];
  partial_deposit_data = [];
  builder_registration = registration;
}

abbrev lock : Bytes → Bytes → Bytes → Lock
lock stored_config stored_definition stored_lock = record {
  definition = definition [] stored_config stored_definition;
  validators = validator ∷ [];
  lock_hash = stored_lock;
  signature_aggregate = [];
  node_signatures = (replicate 64 1 ++ 0 ∷ []) ∷ (replicate 64 1 ++ 27 ∷ []) ∷ [];
}

abbrev root : Bytes
root = 1 ∷ replicate 31 0

abbrev stored : Lock
stored = lock root root root

abbrev node_key : Bytes
node_key = 2 ∷ replicate 32 9

config_hash_test : config_hash toy stored.definition ≡ ok root
unfolding config_hash
config_hash_test = refl

stored_verifies : verify_lock_hash toy stored ≡ ok tt
unfolding verify_lock_hash
stored_verifies = refl

signatures_verify : verify_node_signatures toy stored (node_key ∷ node_key ∷ []) ≡ ok true
unfolding verify_node_signatures
signatures_verify = refl

counts_verify : verify_pubshare_counts stored ≡ ok tt
unfolding verify_pubshare_counts
counts_verify = refl

hashes_closed_example :
    IsRoot (config_hash toy stored.definition)
    × IsRoot (definition_hash toy stored.definition)
    × IsRoot (lock_hash toy stored)
hashes_closed_example = hashes_closed toy toy_hashes stored

config_hash_stable_example :
    config_hash toy (definition [] [] []) ≡ config_hash toy (definition (7 ∷ 8 ∷ []) root root)
config_hash_stable_example =
    config_hash_stable toy (definition [] [] []) (definition (7 ∷ 8 ∷ []) root root) refl

lock_attested_example :
    (length stored.node_signatures ≡ num_operators stored.definition)
    × (length (node_key ∷ node_key ∷ []) ≡ num_operators stored.definition)
    × ((i : ℕ) (pubkey signature : Bytes)
        → get_elem? (node_key ∷ node_key ∷ []) i ≡ some pubkey
        → get_elem? stored.node_signatures i ≡ some signature
        → verify toy pubkey stored.lock_hash signature ≡ ok true)
lock_attested_example =
    lock_attested toy stored (node_key ∷ node_key ∷ []) stored_verifies signatures_verify

pubshare_counts_iff_example :
    (verify_pubshare_counts stored ≡ ok tt)
    ↔ All (HasShares (num_operators stored.definition)) stored.validators
      × Distinct (map pubkey_of stored.validators)
pubshare_counts_iff_example = pubshare_counts_iff stored
