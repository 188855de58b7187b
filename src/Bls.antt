-- ===== src/Bls.antt =====
-- src/dv_spec/crypto/bls.py: keys, signatures, the two aggregations and the Lagrange coefficients,
-- over the operations of py_ecc as parameters.
use distributed_validator_sp.Base.{
  ℕ, zero, suc, ◌+◌, ◌-◌, ◌*◌, ◌/◌, ◌%◌, Bool, not, ◌&&◌, Option, none, some, List, [], ◌∷◌, ◌==◌,
  nat_eq, if◌then◌else◌, ltb, length, any, Dict, keys, get, sorted, Result, ok, err, ◌>>=◌, ◌>>◌,
  guard,
}
use distributed_validator_sp.Types.{Bytes}
use distributed_validator_sp.Crypto.{
  Error, bad_secret, secret_out_of_range, no_signatures, invalid_share_index, not_invertible,
  no_points, invalid_point,
}

-- The operations of py_ecc, with none where it raises. `g1` and `g2` are the points of the two groups.
pub record PyEcc : Type 1 where
  pub g1 : Type 0
  pub g2 : Type 0
  pub curve_order : ℕ
  pub sk_to_pk : ℕ → Bytes
  pub core_sign : ℕ → Bytes → Bytes
  pub core_verify : Bytes → Bytes → Bytes → Bool
  pub core_aggregate : List Bytes → Option Bytes
  pub fast_aggregate_verify : List Bytes → Bytes → Bytes → Bool
  pub pubkey_to_g1 : Bytes → Option g1
  pub g1_to_pubkey : g1 → Bytes
  pub multiply_g1 : g1 → ℕ → g1
  pub add_g1 : g1 → g1 → g1
  pub signature_to_g2 : Bytes → Option g2
  pub g2_to_signature : g2 → Bytes
  pub multiply_g2 : g2 → ℕ → g2
  pub add_g2 : g2 → g2 → g2

-- int.from_bytes(secret, "big")
unfoldable pub from_big_endian : ℕ → Bytes → ℕ
from_big_endian value [] = value
from_big_endian value (b ∷ bytes) = from_big_endian (value * 256 + b) bytes

-- The extended Euclidean algorithm on (r, t) pairs whose t is a factor of the number modulo m.
unfoldable pub inverse_loop : ℕ → ℕ → ℕ → ℕ → ℕ → ℕ → Option ℕ
inverse_loop zero m r t next_r next_t = none
inverse_loop (suc fuel) m r t next_r next_t =
    let quotient = r / next_r in
    let rest =
      inverse_loop fuel m next_r next_t (r % next_r) ((t + (m - quotient * next_t % m)) % m) in
    if next_r == 0 then (if r == 1 then some t else none) else rest

-- pow(value, -1, m), for m > 1. The second remainder falls in each round.
unfoldable pub inverse : ℕ → ℕ → Option ℕ
unfolding inverse_loop
inverse value m = inverse_loop (suc (suc m)) m m 0 (value % m) 1

unfoldable pub occurs : ℕ → List ℕ → Bool
occurs index indices = any (λ other. other == index) indices

-- len(set(indices)) != len(indices)
unfoldable pub has_duplicate : List ℕ → Bool
unfolding occurs
has_duplicate [] = Bool.false
has_duplicate (i ∷ indices) = if occurs i indices then Bool.true else has_duplicate indices

module _ (e : PyEcc) where
  unfoldable pub secret_to_int : Bytes → Result Error ℕ
  unfolding from_big_endian
  secret_to_int secret = do
    guard (length secret == 32) bad_secret
    let value = from_big_endian 0 secret in
        if ltb 0 value && ltb value e.curve_order then ok value else err secret_out_of_range

  unfoldable pub bls_secret_to_pubkey : Bytes → Result Error Bytes
  unfolding secret_to_int
  bls_secret_to_pubkey secret = do value ← secret_to_int secret; ok (e.sk_to_pk value)

  unfoldable pub bls_sign : Bytes → Bytes → Result Error Bytes
  unfolding secret_to_int
  bls_sign secret message = do value ← secret_to_int secret; ok (e.core_sign value message)

  unfoldable pub bls_verify : Bytes → Bytes → Bytes → Bool
  bls_verify pubkey message signature = e.core_verify pubkey message signature

  unfoldable pub aggregate : List Bytes → Result Error Bytes
  aggregate [] = err no_signatures
  aggregate (signature ∷ signatures) = elim (e.core_aggregate (signature ∷ signatures)) [
    | none ↦ err invalid_point
    | some aggregated ↦ ok aggregated
  ]

  unfoldable pub verify_aggregate : List Bytes → Bytes → Bytes → Bool
  verify_aggregate pubkeys message signature = e.fast_aggregate_verify pubkeys message signature

  -- for other in indices
  unfoldable pub coefficient_loop : ℕ → ℕ → List ℕ → Result Error ℕ
  unfolding inverse
  coefficient_loop index coefficient [] = ok coefficient
  coefficient_loop index coefficient (other ∷ indices) =
      if other == index
      then coefficient_loop index coefficient indices
      else elim (inverse ((index + (e.curve_order - other % e.curve_order)) % e.curve_order)
          e.curve_order) [
            | none ↦ err not_invertible
            | some inverted ↦
                coefficient_loop index
                  (coefficient
                    * ((e.curve_order - other % e.curve_order) % e.curve_order)
                    * inverted
                    % e.curve_order)
                  indices
          ]

  unfoldable pub lagrange_coefficient : ℕ → List ℕ → Result Error ℕ
  unfolding occurs has_duplicate coefficient_loop
  lagrange_coefficient index indices = do
    guard (occurs index indices) invalid_share_index
    guard (not (has_duplicate indices)) invalid_share_index
    guard (not (any (λ other. ltb other 1) indices)) invalid_share_index
    coefficient_loop index 1 indices

module _ {Point : Type 0} (multiply : Point → ℕ → Point) (add : Point → Point → Point)
    (e : PyEcc) where
  -- for index in indices: the total so far is none at first. Each index has a point.
  unfoldable pub interpolate_loop :
      Dict ℕ Point → List ℕ → List ℕ → Option Point → Result Error Point
  unfolding lagrange_coefficient get
  interpolate_loop points indices [] none = err no_points
  interpolate_loop points indices [] (some total) = ok total
  interpolate_loop points indices (index ∷ rest) total = do
    coefficient ← lagrange_coefficient e index indices
    elim (get index points) [
      | none ↦ err invalid_share_index
      | some point ↦ interpolate_loop points indices rest (
          some (elim total [
            | none ↦ multiply point coefficient
            | some sum ↦ add sum (multiply point coefficient)
          ]))
    ]

  unfoldable pub interpolate_at_zero : Dict ℕ Point → Result Error Point
  unfolding interpolate_loop
  interpolate_at_zero [] = err no_points
  interpolate_at_zero (p ∷ points) =
      let indices = sorted ltb (keys (p ∷ points)) in
      interpolate_loop (p ∷ points) indices indices none

-- {index: decode(value) for index, value in d.items()}
unfoldable pub decode_points :
    {Point : Type 0} → (Bytes → Option Point) → Dict ℕ Bytes → Result Error (Dict ℕ Point)
decode_points decode [] = ok []
decode_points decode ((index, value) ∷ d) = elim (decode value) [
  | none ↦ err invalid_point
  | some point ↦ decode_points decode d >>= λ rest. ok ((index, point) ∷ rest)
]

module _ (e : PyEcc) where
  unfoldable pub threshold_aggregate : Dict ℕ Bytes → Result Error Bytes
  unfolding decode_points interpolate_at_zero
  threshold_aggregate signatures_by_share_idx = do
    points ← decode_points e.signature_to_g2 signatures_by_share_idx
    total ← interpolate_at_zero e.multiply_g2 e.add_g2 e points
    ok (e.g2_to_signature total)

  unfoldable pub recover_pubkey : Dict ℕ Bytes → Result Error Bytes
  unfolding decode_points interpolate_at_zero
  recover_pubkey pubshares_by_share_idx = do
    points ← decode_points e.pubkey_to_g1 pubshares_by_share_idx
    total ← interpolate_at_zero e.multiply_g1 e.add_g1 e points
    ok (e.g1_to_pubkey total)
