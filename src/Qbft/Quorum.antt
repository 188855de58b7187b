-- ===== src/Qbft/Quorum.antt =====
-- qbft/definition.py: what quorums and the leader election give the protocol.
use native.Mathlib.Nat.{mod-lt, mod-eq_of_lt, mod-add-mod, mod-eq-sub-mod, add_assoc}
use native.Mathlib.Decide.{dec_lt}
use distributed_validator_sp.Base.{
  ◌-◌, ◌<◌, ◌%◌, ◌∙◌, ◌⊎◌, inl, inr, true, nat_eq, nat_beq_iff, ℕ, ◌+◌, ◌≤◌, ◌≡◌, arith, ap, sym,
}
use distributed_validator_sp.Types.{Duty, duty_type_code}
use distributed_validator_sp.Qbft.Definition.{Definition, quorum, faulty_plus_one, is_leader}

-- With at least one node: any two quorums share at least f + 1 nodes, the nodes that are not
-- faulty are at least a quorum, f + 1 is at least one and at most a quorum, and a quorum is at most all.
pub quorum_bounds :
    (d : Definition)
    → 1 ≤ d.nodes
    → (d.nodes + faulty_plus_one d ≤ quorum d + quorum d)
      × (quorum d + faulty_plus_one d ≤ d.nodes + 1)
      × (1 ≤ faulty_plus_one d)
      × (faulty_plus_one d ≤ quorum d)
      × (quorum d ≤ d.nodes)
unfolding quorum faulty_plus_one
quorum_bounds d h = omega arith

-- The offset, among any `n` rounds in a row from the base `b` on, of the round that `peer` leads.
abbrev turn : ℕ → ℕ → ℕ → ℕ
turn b n peer = (peer + n - b % n) % n

mod_cases : (x n : ℕ) → x < n + n → ((x < n) × (x % n ≡ x)) ⊎ ((n ≤ x) × (x % n ≡ x - n))
mod_cases x n h = elim (dec_lt x n) [
  | yes p ↦ inl (p, mod-eq_of_lt p)
  | no p ↦ inr (omega arith, mod-eq-sub-mod (omega arith) ∙ mod-eq_of_lt (omega arith))
]

turn_leads : (b n peer : ℕ) → peer < n → (b + turn b n peer) % n ≡ peer
turn_leads b n peer h =
    let r = mod-lt b (let p : 0 < n = omega arith in p) in
    rw (← mod-add-mod b n (turn b n peer)) (
      let first = mod_cases (peer + n - b % n) n (omega arith) in
      let second = mod_cases (b % n + turn b n peer) n (ground arith) in ground arith)

turn_unique : (b n peer j : ℕ) → peer < n → j < n → (b + j) % n ≡ peer → j ≡ turn b n peer
turn_unique b n peer j h k e =
    let r = mod-lt b (let p : 0 < n = omega arith in p) in
    let e' = mod-add-mod b n j ∙ e in
    let first = mod_cases (peer + n - b % n) n (omega arith) in
    let second = mod_cases (b % n + j) n (omega arith) in ground arith

module _ (d : Definition) (duty : Duty) (first peer : ℕ) (h : peer < d.nodes) where
  -- Among any `nodes` rounds in a row, from the round `first` on, each peer index below `nodes`
  -- leads exactly one.
  pub leader_rotation :
      (k : ℕ) × (k < d.nodes)
      × (is_leader d duty (first + k) peer ≡ true)
      × ((j : ℕ) → j < d.nodes → is_leader d duty (first + j) peer ≡ true → j ≡ k)
  unfolding is_leader
  leader_rotation =
      let base = duty.slot + duty_type_code duty.type + first in
      let k = turn base d.nodes peer in
      let at = λ (j : ℕ).
        ap (λ (x : ℕ). x % d.nodes) (add_assoc (duty.slot + duty_type_code duty.type) first j) in
      (
        k,
        mod-lt (peer + d.nodes - base % d.nodes) (omega arith),
        (nat_beq_iff _ peer).1 (sym (at k) ∙ turn_leads base d.nodes peer h),
        λ j lt e. turn_unique base d.nodes peer j h lt (at j ∙ (nat_beq_iff _ peer).0 e),
      )
