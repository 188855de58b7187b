-- ===== src/Encoding/Depth.antt =====
-- src/dv_spec/encoding/ssz.py: the depth of a tree.
use distributed_validator_sp.Base.{
  ℕ, zero, suc, ◌-◌, ◌*◌, ◌/◌, ◌^◌, ◌≤◌, ◌<◌, ◌≡◌, refl, ◌==◌, nat_eq, ==-eq, leb, leb→le,
  Bool-cases, inl, inr, arith,
}
use native.Mathlib.Nat.{pow-succ', pow-le-pow_right}
use distributed_validator_sp.Encoding.Ssz.{bit_length_loop, bit_length, chunk_count_depth}

two_power : (k : ℕ) → 2 ^ suc k ≡ 2 * 2 ^ k
two_power k = pow-succ' 2 k

bit_length_loop_zero : (fuel n : ℕ) → n ≡ 0 → bit_length_loop fuel n ≡ 0
unfolding bit_length_loop
bit_length_loop_zero zero n h = refl
bit_length_loop_zero (suc fuel) n h = rw h refl

-- A positive number lies between two powers of two, and the bit length is the upper one.
bit_length_loop-bounds :
    (fuel n : ℕ)
    → n < fuel
    → (n < 2 ^ bit_length_loop fuel n) × (1 ≤ n → 2 ^ bit_length_loop fuel n ≤ 2 * n)
unfolding bit_length_loop
bit_length_loop-bounds zero n h = absurd (omega arith)
bit_length_loop-bounds (suc fuel) n h = elim (Bool-cases (n == 0)) [
  | inl t ↦ rw t (ground arith, ground arith)
  | inr f ↦
      let (low, high) = bit_length_loop-bounds fuel (n / 2) (ground arith) in
      rw (f, two_power (bit_length_loop fuel (n / 2)))
        (elim (Bool-cases (n / 2 == 0)) [
          | inl t ↦
              let e = bit_length_loop_zero fuel (n / 2) (==-eq (n / 2) 0 t) in
              rw e (ground arith, λ k. omega (arith, k))
          | inr g ↦ (omega (arith, low), λ k. ground (arith, high))
        ])
]

bit_length-bounds : (n : ℕ) → (n < 2 ^ bit_length n) × (1 ≤ n → 2 ^ bit_length n ≤ 2 * n)
unfolding bit_length
bit_length-bounds n = bit_length_loop-bounds (suc n) n (omega arith)

power_positive : (k : ℕ) → 1 ≤ 2 ^ k
power_positive zero = omega arith
power_positive (suc k) = rw (two_power k) (omega (arith, power_positive k))

power_le : (a b : ℕ) → a ≤ b → 2 ^ a ≤ 2 ^ b
power_le a b h = pow-le-pow_right (omega arith) h

-- The bit length of a power of two.
bit_length_power : (k : ℕ) → bit_length (2 ^ k) ≡ suc k
bit_length_power k =
    let (low, high) = bit_length-bounds (2 ^ k) in
    let p = power_positive k in
    let b = bit_length (2 ^ k) in
    elim (Bool-cases (leb b k)) [
      | inl t ↦ absurd (omega (arith, low, power_le b k (leb→le b k t)))
      | inr f ↦ elim (Bool-cases (leb b (suc k))) [
        | inl t ↦ ground (arith, f, t)
        | inr g ↦
            let above : suc (suc k) ≤ b = ground (arith, g) in
            absurd (
              omega
                (arith, high p, p, two_power (suc k), two_power k, power_le (suc (suc k)) b above))
      ]
    ]

-- The tree of a number of leaves has room for them, and one that is a level lower has not.
pub depth_minimal :
    (count : ℕ)
    → (count ≤ 2 ^ chunk_count_depth count)
      × ((d : ℕ) → chunk_count_depth count ≡ suc d → 2 ^ d < count)
unfolding chunk_count_depth
depth_minimal count = elim (Bool-cases (leb count 1)) [
  | inl t ↦ rw t (ground arith, λ d e. ground (arith, e))
  | inr f ↦
      let (low, high) = bit_length-bounds (count - 1) in
      rw (f, bit_length_power (bit_length (count - 1)))
        (ground arith, λ d e. below d (omega (arith, e)) (high (ground arith)))
]
  where
    below :
        (d : ℕ)
        → bit_length (count - 1) ≡ suc d
        → 2 ^ bit_length (count - 1) ≤ 2 * (count - 1)
        → 2 ^ d < count
    below d e h =
        let q : 2 ^ suc d ≤ 2 * (count - 1) = rw e at h in
        omega (arith, q, two_power d, power_positive d)
