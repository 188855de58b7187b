-- ===== src/Dkg/Thresholds.antt =====
-- dkg/protocols.py: the bounds of the thresholds.
use distributed_validator_sp.Base.{
  ℕ, ◌+◌, ◌*◌, ◌/◌, ◌≤◌, ◌<◌, ◌≡◌, ◌||◌, ||_parts, Option, none, some, ltb, leb, Result, ok, err,
  Bool-cases, inl, inr, arith,
}
use distributed_validator_sp.Dkg.Protocols.{
  ProtocolError, invalid_threshold, recommended_threshold, resolve_new_threshold,
}

-- The threshold of a cluster of at least one node that is resolved for a shrunk cluster, by default
-- or by an override, is at least two thirds of the nodes and at most all of them, so that two quorums
-- always share a node. An override that is accepted is the threshold, and less than the number of
-- nodes.
pub resolved_bounds :
    (nodes : ℕ) (override : Option ℕ) (threshold : ℕ)
    → 1 ≤ nodes
    → resolve_new_threshold nodes override ≡ ok threshold
    → (2 * nodes ≤ 3 * threshold)
      × (threshold ≤ nodes)
      × (nodes < 2 * threshold)
      × ((t : ℕ) → override ≡ some t → (threshold ≡ t) × (t < nodes))
unfolding resolve_new_threshold recommended_threshold
resolved_bounds nodes none threshold h e =
    let p : (2 * nodes + 2) / 3 ≡ threshold = cc in
    (omega (arith, p), omega (arith, p), omega (arith, p), λ t q. cc)
resolved_bounds nodes (some o) threshold h e =
    elim (Bool-cases (ltb o ((2 * nodes + 2) / 3) || leb nodes o)) [
      | inl t ↦ absurd (cc (let q : refused ≡ ok threshold = rw t at e in q))
      | inr f ↦
          let p : o ≡ threshold = cc (let q : accepted o ≡ ok threshold = rw f at e in q) in
          let (low, high) = ||_parts (ltb o ((2 * nodes + 2) / 3)) (leb nodes o) f in
          (ground (arith, p), ground (arith, p), ground (arith, p), λ t q. (cc, ground (arith, q)))
    ]
  where
    refused : Result ProtocolError ℕ
    refused = err invalid_threshold

    accepted : ℕ → Result ProtocolError ℕ
    accepted n = ok n
