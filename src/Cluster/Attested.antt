-- ===== src/Cluster/Attested.antt =====
-- src/dv_spec/cluster: a lock whose hashes and node signatures verify.
use distributed_validator_sp.Base.{
  ℕ, zero, suc, ◌≡◌, subst, Bool, true, false, some, List, [], ◌∷◌, ◌==◌, nat_eq, ==-eq, length,
  get_elem?, Result, ok, guard, >>=-eq-ok, guard-eq-ok,
}
use distributed_validator_sp.Types.{Bytes}
use distributed_validator_sp.Crypto.{Crypto, Error, node_signature_count, node_pubkey_count}
use distributed_validator_sp.Secp256k1.{verify}
use distributed_validator_sp.Cluster.Definition.{num_operators}
use distributed_validator_sp.Cluster.Lock.{Lock}
use distributed_validator_sp.Cluster.Hashes.{lock_hash, verify_lock_hash}
use distributed_validator_sp.Cluster.Stored.{lock_hashes_iff}
use distributed_validator_sp.Cluster.Verification.{verify_pairs, verify_node_signatures}

module _ (c : Crypto) where
  -- The first signature is valid, and the others are.
  verify_pairs-first :
      (digest pubkey signature : Bytes) (pubkeys signatures : List Bytes)
      → verify_pairs c digest (pubkey ∷ pubkeys) (signature ∷ signatures) ≡ ok true
      → (verify c pubkey digest signature ≡ ok true)
        × (verify_pairs c digest pubkeys signatures ≡ ok true)
  unfolding verify_pairs
  verify_pairs-first digest pubkey signature pubkeys signatures h =
      let (valid, p, q) = >>=-eq-ok (verify c pubkey digest signature) _ h in both valid p q
    where
      both :
          (valid : Bool)
          → verify c pubkey digest signature ≡ ok valid
          → ◌≡◌ {A = Result Error Bool}
              (elim valid [ false ↦ ok false | true ↦ verify_pairs c digest pubkeys signatures ])
              (ok true)
          → (verify c pubkey digest signature ≡ ok true)
            × (verify_pairs c digest pubkeys signatures ≡ ok true)
      both true p q = (p, q)
      both false p q = cc

  verify_pairs-at :
      (digest : Bytes) (pubkeys signatures : List Bytes)
      → verify_pairs c digest pubkeys signatures ≡ ok true
      → (i : ℕ) (pubkey signature : Bytes) → get_elem? pubkeys i ≡ some pubkey
      → get_elem? signatures i ≡ some signature
      → verify c pubkey digest signature ≡ ok true
  verify_pairs-at digest [] signatures h i pubkey signature p q = cc
  verify_pairs-at digest (k ∷ pubkeys) [] h i pubkey signature p q = cc
  verify_pairs-at digest (k ∷ pubkeys) (s ∷ signatures) h zero pubkey signature p q =
      let e : k ≡ pubkey = cc in
      let f : s ≡ signature = cc in
      rw (← e, ← f) (verify_pairs-first digest k s pubkeys signatures h).0
  verify_pairs-at digest (k ∷ pubkeys) (s ∷ signatures) h (suc i) pubkey signature p q =
      verify_pairs-at digest pubkeys signatures
        (verify_pairs-first digest k s pubkeys signatures h).1 i pubkey signature p q

  -- A lock whose stored hashes verify and whose node signatures verify under the nodes' public keys
  -- has one signature and one key for each operator, and each of the signatures is a valid signature
  -- of the stored lock hash under the key of the node at its position.
  pub lock_attested :
      (lock : Lock) (node_pubkeys : List Bytes)
      → verify_lock_hash c lock ≡ ok tt
      → verify_node_signatures c lock node_pubkeys ≡ ok true
      → (length lock.node_signatures ≡ num_operators lock.definition)
        × (length node_pubkeys ≡ num_operators lock.definition)
        × ((i : ℕ) (pubkey signature : Bytes)
            → get_elem? node_pubkeys i ≡ some pubkey
            → get_elem? lock.node_signatures i ≡ some signature
            → verify c pubkey lock.lock_hash signature ≡ ok true)
  unfolding verify_node_signatures
  lock_attested lock node_pubkeys hashes signed =
      let (a, p, h₁) =
        >>=-eq-ok
          (guard (length lock.node_signatures == num_operators lock.definition)
            node_signature_count)
          _ signed in
      let (b, q, h₂) =
        >>=-eq-ok (guard (length node_pubkeys == num_operators lock.definition) node_pubkey_count) _
          h₁ in
      let (digest, r, h₃) = >>=-eq-ok (lock_hash c lock) _ h₂ in
      let stored : digest ≡ lock.lock_hash = cc ((lock_hashes_iff c lock).0 hashes).2 in
      (
        ==-eq _ _ (guard-eq-ok _ _ p),
        ==-eq _ _ (guard-eq-ok _ _ q),
        verify_pairs-at lock.lock_hash node_pubkeys lock.node_signatures
            (subst (λ d. verify_pairs c d node_pubkeys lock.node_signatures ≡ ok true) stored h₃),
      )
