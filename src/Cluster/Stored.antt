-- ===== src/Cluster/Stored.antt =====
-- src/dv_spec/cluster/hashing.py: the checks of the hashes that a file stores.
use distributed_validator_sp.Base.{
  ◌==◌, nat_eq, list_eq, ==-refl, ==-eq, ◌≡◌, ◌↔◌, refl, sym, ap, Result, ok, err, ◌>>=◌, ◌>>◌,
  guard, guard-eq-ok, checks_iff,
}
use distributed_validator_sp.Types.{Bytes}
use distributed_validator_sp.Crypto.{
  Crypto, Error, config_hash_mismatch, definition_hash_mismatch, lock_hash_mismatch,
}
use distributed_validator_sp.Cluster.Definition.{Definition}
use distributed_validator_sp.Cluster.Lock.{Lock}
use distributed_validator_sp.Cluster.Hashes.{
  config_hash, definition_hash, lock_hash, verify_definition_hashes, verify_lock_hash,
}

-- A stored hash passes its check exactly if it is the one that is computed.
stored_iff :
    (computed : Result Error Bytes) (stored : Bytes) (e : Error)
    → ((computed >>= λ expected. guard (stored == expected) e) ≡ ok tt) ↔ (computed ≡ ok stored)
stored_iff (err r) stored e = (λ h. cc, λ h. cc)
stored_iff (ok v) stored e = (
  λ h. ap ok (sym (==-eq stored v (guard-eq-ok (stored == v) e h))),
  λ p. (let q : v ≡ stored = cc in rw (q, ==-refl stored) refl),
)

stored_then_iff :
    (computed : Result Error Bytes) (stored : Bytes) (e : Error) (rest : Result Error (Unit {0}))
    → ((computed >>= λ expected. guard (stored == expected) e >> rest) ≡ ok tt)
      ↔ (computed ≡ ok stored) × (rest ≡ ok tt)
stored_then_iff (err r) stored e rest = (λ h. cc, λ h. cc)
stored_then_iff (ok v) stored e rest = (
  λ h.
      (let (p, q) = (checks_iff (guard (stored == v) e) rest).0 h in
        (ap ok (sym (==-eq stored v (guard-eq-ok (stored == v) e p))), q)),
  λ (p, q). (let r : v ≡ stored = cc in rw (r, ==-refl stored) q),
)

module _ (c : Crypto) where
  definition_hashes_iff :
      (d : Definition)
      → (verify_definition_hashes c d ≡ ok tt)
        ↔ (config_hash c d ≡ ok d.config_hash) × (definition_hash c d ≡ ok d.definition_hash)
  unfolding verify_definition_hashes
  definition_hashes_iff d =
      let last = stored_iff (definition_hash c d) d.definition_hash definition_hash_mismatch in
      let all =
        stored_then_iff (config_hash c d) d.config_hash config_hash_mismatch
          (definition_hash c d >>= λ e. guard (d.definition_hash == e) definition_hash_mismatch) in
      (λ h. (let (p, q) = all.0 h in (p, last.0 q)), λ (p, q). all.1 (p, last.1 q))

  -- verify_lock_hash accepts exactly the locks whose stored config hash, definition hash and lock
  -- hash are the ones that are computed from their content.
  pub lock_hashes_iff :
      (lock : Lock)
      → (verify_lock_hash c lock ≡ ok tt)
        ↔ (config_hash c lock.definition ≡ ok lock.definition.config_hash)
          × (definition_hash c lock.definition ≡ ok lock.definition.definition_hash)
          × (lock_hash c lock ≡ ok lock.lock_hash)
  unfolding verify_lock_hash
  lock_hashes_iff lock =
      let last = stored_iff (lock_hash c lock) lock.lock_hash lock_hash_mismatch in
      let all =
        checks_iff (verify_definition_hashes c lock.definition)
          (lock_hash c lock >>= λ e. guard (lock.lock_hash == e) lock_hash_mismatch) in
      let first = definition_hashes_iff lock.definition in
      (
        λ h. (let (p, q) = all.0 h in let (r, s) = first.0 p in (r, s, last.0 q)),
        λ (p, q, r). all.1 (first.1 (p, q), last.1 r),
      )
