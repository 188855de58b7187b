-- ===== src/Peerinfo/Clock.antt =====
-- peerinfo/helpers.py: the clock offset and its bound.
use distributed_validator_sp.Base.{
  ℕ, ◌+◌, ◌*◌, ◌≤◌, ◌≡◌, ℤ, pos, negsuc, sub_ℕ, pos_part, neg_part, sub_ℕ_parts, arith,
}
use distributed_validator_sp.Peerinfo.{half, calculate_clock_offset, clamp_clock_offset, int_ltb}

-- Between -m and m.
abbrev pub Within : ℕ → ℤ → Type 0
Within m offset = (pos_part offset ≤ m) × (neg_part offset ≤ m)

-- The clamped offset lies within the hours given, on either side, and an offset that already does is
-- not changed.
pub clamped :
    (offset : ℤ) (hours : ℕ)
    → Within (hours * 3600000000) (clamp_clock_offset offset hours)
      × (Within (hours * 3600000000) offset → clamp_clock_offset offset hours ≡ offset)
unfolding clamp_clock_offset int_ltb sub_ℕ
clamped (pos n) hours = ground arith
clamped (negsuc n) hours = ground arith

-- The peer's clock is ahead of, or behind, the time at which it is expected to have sent, by the
-- offset; half of the round trip is rounded to within half a microsecond.
pub offset_parts :
    (sent_at received_at rtt : ℕ)
    → let offset = calculate_clock_offset sent_at received_at rtt in
      (pos_part offset + received_at ≡ neg_part offset + (sent_at + half rtt))
      × (rtt ≤ 2 * half rtt + 1)
      × (2 * half rtt ≤ rtt + 1)
unfolding calculate_clock_offset half
offset_parts sent_at received_at rtt =
    (sub_ℕ_parts (sent_at + half rtt) received_at, ground arith, ground arith)
