-- ===== src/Secp256k1.antt =====
-- src/dv_spec/crypto/secp256k1.py: recovery and verification over a digest, with the checks of lengths
-- and recovery ids around the primitive of eth_keys; and the wrappers of
-- src/dv_spec/subspecs/consensus/cryptography.py.
pub mod Verified
use distributed_validator_sp.Base.{
  ℕ, ◌-◌, ◌+◌, Bool, true, false, ◌||◌, Option, none, some, List, [], ◌∷◌, ◌++◌, ◌==◌, nat_eq,
  list_eq, if◌then◌else◌, length, Result, ok, err, ◌>>=◌, ◌>>◌, guard,
}
use distributed_validator_sp.Types.{Bytes}
use distributed_validator_sp.Crypto.{
  Crypto, Error, bad_secret, refused_secret, bad_hash, bad_signature_length, bad_recovery_id,
  invalid_signature, secret_length, hash_length, sign,
}
use distributed_validator_sp.Encoding.Ssz.{hash_proto}

abbrev pub signature_length : ℕ
signature_length = 65

abbrev pub recovery_id_offset : ℕ
recovery_id_offset = 27

unfoldable pub check_hash : Bytes → Result Error Bytes
check_hash digest = do guard (length digest == hash_length) bad_hash; ok digest

-- signature[-1], of a signature that is not empty
unfoldable pub last_byte : Bytes → ℕ
last_byte [] = 0
last_byte (b ∷ []) = b
last_byte (a ∷ b ∷ signature) = last_byte (b ∷ signature)

-- signature[:-1]
unfoldable pub front_bytes : Bytes → Bytes
front_bytes [] = []
front_bytes (b ∷ []) = []
front_bytes (a ∷ b ∷ signature) = a ∷ front_bytes (b ∷ signature)

unfoldable pub normalise_recovery_id : Bytes → Result Error Bytes
unfolding last_byte front_bytes
normalise_recovery_id signature = do
  guard (length signature == signature_length) bad_signature_length
  let recovery_id = last_byte signature in
      if recovery_id == recovery_id_offset || recovery_id == recovery_id_offset + 1
      then ok (front_bytes signature ++ (recovery_id - recovery_id_offset) ∷ [])
      else if recovery_id == 0 || recovery_id == 1
      then ok signature
      else err bad_recovery_id

module _ (c : Crypto) where
  unfoldable pub secret_to_pubkey : Bytes → Result Error Bytes
  secret_to_pubkey secret = do
    guard (length secret == secret_length) bad_secret
    guard (c.accepts_secret secret) refused_secret
    ok (c.public_key secret)

  unfoldable pub recover : Bytes → Bytes → Result Error Bytes
  unfolding check_hash normalise_recovery_id
  recover digest signature = do
    digest ← check_hash digest
    normalised ← normalise_recovery_id signature
    elim (c.ecdsa_recover digest normalised) [
      | none ↦ err invalid_signature
      | some recovered ↦ ok recovered
    ]

  -- A signature that does not recover verifies as False.
  unfoldable pub verify : Bytes → Bytes → Bytes → Result Error Bool
  unfolding check_hash recover
  verify pubkey digest signature = do
    digest ← check_hash digest
    elim (recover digest signature) [ err e ↦ ok false | ok key ↦ ok (key == pubkey) ]

  -- The default hasher and signer of the consensus.
  unfoldable pub hash_value : Bytes → Bytes
  unfolding hash_proto
  hash_value value = hash_proto c value

  unfoldable pub sign_consensus : Bytes → Bytes → Result Error Bytes
  unfolding sign
  sign_consensus message private_key = sign c private_key message

  unfoldable pub recover_consensus : Bytes → Bytes → Result Error Bytes
  unfolding recover
  recover_consensus message signature = recover message signature
