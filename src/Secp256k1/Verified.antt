-- ===== src/Secp256k1/Verified.antt =====
-- crypto/secp256k1.py: what verifies, for signatures with either form of recovery id.
use distributed_validator_sp.Base.{
  ℕ, ◌+◌, ◌≤◌, ◌≡◌, refl, ap, Bool, true, false, some, [], ◌∷◌, ◌++◌, ◌==◌, nat_eq, list_eq,
  ==-refl, length, Result, ok, err, arith, length-append,
}
use distributed_validator_sp.Types.{Bytes}
use distributed_validator_sp.Crypto.{Crypto, Error, sign}
use distributed_validator_sp.Secp256k1.{
  check_hash, last_byte, front_bytes, normalise_recovery_id, recover, verify,
}

last_byte-append : (s : Bytes) (b : ℕ) → last_byte (s ++ b ∷ []) ≡ b
unfolding last_byte
last_byte-append [] b = refl
last_byte-append (a ∷ []) b = refl
last_byte-append (a ∷ d ∷ s) b = last_byte-append (d ∷ s) b

front_bytes-append : (s : Bytes) (b : ℕ) → front_bytes (s ++ b ∷ []) ≡ s
unfolding front_bytes
front_bytes-append [] b = refl
front_bytes-append (a ∷ []) b = refl
front_bytes-append (a ∷ d ∷ s) b = ap (λ l. a ∷ l) (front_bytes-append (d ∷ s) b)

-- A signature of 64 bytes R and S with a recovery id 27 + v.
normalise-offset :
    (rs : Bytes) (v : ℕ)
    → length rs ≡ 64
    → v ≤ 1
    → normalise_recovery_id (rs ++ (27 + v) ∷ []) ≡ ok (rs ++ v ∷ [])
unfolding normalise_recovery_id
normalise-offset rs v h k =
    rw (length-append, h, last_byte-append rs (27 + v), front_bytes-append rs (27 + v))
      (ground arith)

normalise-plain :
    (rs : Bytes) (v : ℕ)
    → length rs ≡ 64
    → v ≤ 1
    → normalise_recovery_id (rs ++ v ∷ []) ≡ ok (rs ++ v ∷ [])
unfolding normalise_recovery_id
normalise-plain rs v h k = rw (length-append, h, last_byte-append rs v) (ground arith)

-- A secret of 32 bytes that eth_keys takes for a private key, and a digest of 32 bytes.
abbrev pub IsSignable : Crypto → Bytes → Bytes → Type 0
IsSignable c secret digest =
    (length secret ≡ 32) × (c.accepts_secret secret ≡ true) × (length digest ≡ 32)

-- What eth_keys documents of its signatures by such a secret over such a digest: 64 bytes and a recovery id 0 or 1, from which the public
-- key of the signer is recovered.
pub record IsRecoverable (c : Crypto) : Type 0 where
  pub form :
      (secret digest : Bytes)
      → IsSignable c secret digest
      → (rs : Bytes) × (v : ℕ) × (c.sign_msg_hash secret digest ≡ rs ++ v ∷ [])
        × (length rs ≡ 64)
        × (v ≤ 1)
  pub recovers :
      (secret digest : Bytes)
      → IsSignable c secret digest
      → c.ecdsa_recover digest (c.sign_msg_hash secret digest) ≡ some (c.public_key secret)

check_hash_lem : (digest : Bytes) → length digest ≡ 32 → check_hash digest ≡ ok digest
unfolding check_hash
check_hash_lem digest h = rw h refl

verify-normalised :
    (c : Crypto) (pubkey digest signature normalised : Bytes)
    → length digest ≡ 32
    → normalise_recovery_id signature ≡ ok normalised
    → c.ecdsa_recover digest normalised ≡ some pubkey
    → verify c pubkey digest signature ≡ ok true
unfolding verify
verify-normalised c pubkey digest signature normalised h n r = rw (check_hash_lem digest h) matched
  where
    recovered : recover c digest signature ≡ ok pubkey
    recovered = rw (recover, check_hash_lem digest h) (rw (n, r) refl)

    matched :
        ◌≡◌ {A = Result Error Bool}
          (elim (recover c digest signature) [ err e ↦ ok false | ok key ↦ ok (key == pubkey) ])
          (ok true)
    matched = rw recovered (ap ok (==-refl pubkey))

-- For a recoverable signature scheme, what a node signs with a 32-byte secret that is a valid private
-- key over a 32-byte digest is 64 bytes and a recovery id, and verifies under its public key both with that recovery id and
-- with 27 added to it.
pub sign_verified :
    (c : Crypto)
    → IsRecoverable c
    → (secret digest : Bytes) → IsSignable c secret digest
    → (rs : Bytes) × (v : ℕ) × (sign c secret digest ≡ ok (rs ++ v ∷ []))
      × (verify c (c.public_key secret) digest (rs ++ v ∷ []) ≡ ok true)
      × (verify c (c.public_key secret) digest (rs ++ (27 + v) ∷ []) ≡ ok true)
unfolding sign
sign_verified c r secret digest valid =
    let (s, a, d) = valid in
    let (rs, v, e, h, k) = r.form secret digest valid in
    let found : c.ecdsa_recover digest (rs ++ v ∷ []) ≡ some (c.public_key secret) =
      rw e at (r.recovers secret digest valid) in
    (
      rs,
      v,
      rw (s, a, d, e) refl,
      verify-normalised c (c.public_key secret) digest _ _ d (normalise-plain rs v h k) found,
      verify-normalised c (c.public_key secret) digest _ _ d (normalise-offset rs v h k) found,
    )
