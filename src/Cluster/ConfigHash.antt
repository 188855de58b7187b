-- ===== src/Cluster/ConfigHash.antt =====
-- src/dv_spec/cluster/hashing.py: the config hash while signatures are being collected.
use distributed_validator_sp.Base.{
  suc, true, List, [], ◌∷◌, ◌≡◌, refl, sym, ap, ◌∙◌, map, length, ◌>>=◌, >>=-ext,
}
use distributed_validator_sp.Crypto.{Crypto}
use distributed_validator_sp.Encoding.Walker.{HashWalker}
use distributed_validator_sp.Cluster.Definition.{Operator, Definition}
use distributed_validator_sp.Cluster.Hashing.{
  operator_fields, hash_operator, hash_operators, put_operators, creator_fields, hash_creator,
  put_config_hash, definition_head, definition_tail, definition_fields, hash_definition_v1x10,
}
use distributed_validator_sp.Cluster.Hashes.{config_hash}

-- What an operator puts into a definition before anything is signed.
abbrev pub unsigned_operator : Operator → Operator
unsigned_operator operator = record {
  address = operator.address;
  enr = [];
  config_signature = [];
  enr_signature = [];
}

-- A definition without the ENRs, the signatures and the stored hashes.
abbrev pub unsigned : Definition → Definition
unsigned d = record {
  uuid = d.uuid;
  name = d.name;
  version = d.version;
  timestamp = d.timestamp;
  num_validators = d.num_validators;
  threshold = d.threshold;
  dkg_algorithm = d.dkg_algorithm;
  fork_version = d.fork_version;
  operators = map unsigned_operator d.operators;
  creator = record { address = d.creator.address; config_signature = [] };
  validator_addresses = d.validator_addresses;
  deposit_amounts = d.deposit_amounts;
  consensus_protocol = d.consensus_protocol;
  target_gas_limit = d.target_gas_limit;
  compounding = d.compounding;
  config_hash = [];
  definition_hash = [];
}

module _ (c : Crypto) where
  hash_operators-unsigned :
      (w : HashWalker) (operators : List Operator)
      → hash_operators c w operators true
        ≡ hash_operators c w (map unsigned_operator operators) true
  unfolding hash_operators hash_operator operator_fields
  hash_operators-unsigned w [] = refl
  hash_operators-unsigned w (operator ∷ operators) =
      >>=-ext (hash_operator c w operator true) (λ v. hash_operators-unsigned v operators)

  length-unsigned : (l : List Operator) → length (map unsigned_operator l) ≡ length l
  length-unsigned [] = refl
  length-unsigned (x ∷ l) = ap suc (length-unsigned l)

  put_operators-unsigned :
      (w : HashWalker) (operators : List Operator)
      → put_operators c w operators true ≡ put_operators c w (map unsigned_operator operators) true
  unfolding put_operators
  put_operators-unsigned w operators =
      rw (length-unsigned operators, hash_operators-unsigned w operators) refl

  definition_fields-unsigned :
      (w : HashWalker) (d : Definition)
      → definition_fields c w d true ≡ definition_fields c w (unsigned d) true
  unfolding definition_fields definition_head definition_tail hash_creator creator_fields
      put_config_hash
  definition_fields-unsigned w d = >>=-ext (definition_head c w d) (λ v.
      ap (λ r. r >>= λ u. hash_creator c u d.creator true >>= λ t. definition_tail c t d true)
        (put_operators-unsigned v d.operators))

  config_hash-unsigned : (d : Definition) → config_hash c d ≡ config_hash c (unsigned d)
  unfolding config_hash hash_definition_v1x10
  config_hash-unsigned d = rw (definition_fields-unsigned [] d) refl

  -- Definitions that agree in all but the operators' ENRs, the signatures and the stored hashes have
  -- the same config hash.
  pub config_hash_stable :
      (d e : Definition) → unsigned d ≡ unsigned e → config_hash c d ≡ config_hash c e
  config_hash_stable d e h =
      config_hash-unsigned d ∙ ap (config_hash c) h ∙ sym (config_hash-unsigned e)
