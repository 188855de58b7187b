-- ===== src/Timer/Deadlines.antt =====
-- timer.py: round deadlines are aligned across nodes, extended once, and in order.
use distributed_validator_sp.Base.{
  ℕ, ◌+◌, ◌*◌, ◌≤◌, ◌<◌, ◌≡◌, false, none, some, ◌==◌, nat_eq, get, put, get-put_self, get-put_ne,
  get-remove_self, get-remove_ne, sym, ◌∙◌, subst, arith, pos_part, neg_part, sub_ℕ_parts,
}
use distributed_validator_sp.Types.{Duty}
use distributed_validator_sp.Timer.{
  second, get_duty_start_delay, eager_double_linear_timeout, eager_double_linear_deadline,
  EagerTimer, first_deadline, eager_timeout, reset_round,
}

-- The time at which a call says that the round expires: `now` and what is left.
pub record ExpiresAt (now round : ℕ) (t : EagerTimer) (deadline : ℕ) : Type 0 where
  pub left :
      pos_part (eager_timeout now round t).1 + now
      ≡ neg_part (eager_timeout now round t).1 + deadline

module _ (round : ℕ) (t : EagerTimer) where
  expires_first :
      (now : ℕ)
      → get round t.first_deadlines ≡ none
      → ExpiresAt now round t (first_deadline t now round)
  unfolding eager_timeout
  expires_first now h = record {
    left = rw (h, eager_timeout) (sub_ℕ_parts (first_deadline t now round) now);
  }

  expires_later :
      (now first : ℕ)
      → get round t.first_deadlines ≡ some first
      → ExpiresAt now round t (first + eager_double_linear_timeout t.duty.type round)
  unfolding eager_timeout
  expires_later now first h = record {
    left =
        rw (h, eager_timeout)
          (sub_ℕ_parts (first + eager_double_linear_timeout t.duty.type round) now);
  }

from_chain :
    (t : EagerTimer) (now round genesis slot : ℕ)
    → t.genesis_time ≡ some genesis
    → t.slot_duration ≡ some slot
    → first_deadline t now round ≡ eager_double_linear_deadline t.duty round genesis slot
unfolding first_deadline
from_chain t now round genesis slot g s = rw (g, s)

abbrev remember : EagerTimer → ℕ → ℕ → EagerTimer
remember t round deadline = record t { first_deadlines = put round deadline t.first_deadlines }

first_call :
    (t : EagerTimer) (round now : ℕ)
    → get round t.first_deadlines ≡ none
    → (eager_timeout now round t).0 ≡ remember t round (first_deadline t now round)
unfolding eager_timeout
first_call t round now h = rw (h, eager_timeout)

later_call :
    (t : EagerTimer) (round now first : ℕ)
    → get round t.first_deadlines ≡ some first
    → (eager_timeout now round t).0 ≡ t
unfolding eager_timeout
later_call t round now first h = rw (h, eager_timeout)

expires_again :
    (t : EagerTimer) (round now later : ℕ)
    → get round t.first_deadlines ≡ none
    → ExpiresAt later round
        (eager_timeout now round t).0
        (first_deadline t now round + eager_double_linear_timeout t.duty.type round)
expires_again t round now later h =
    subst
      (λ u.
        ExpiresAt later round u
          (first_deadline t now round + eager_double_linear_timeout t.duty.type round))
      (sym (first_call t round now h))
      (expires_later round (remember t round (first_deadline t now round)) later
        (first_deadline t now round)
        (get-put_self round (first_deadline t now round) t.first_deadlines))

slots_later :
    (duty next : Duty) (round genesis slot slots : ℕ)
    → next.type ≡ duty.type
    → next.slot ≡ duty.slot + slots
    → eager_double_linear_deadline next round genesis slot
      ≡ eager_double_linear_deadline duty round genesis slot + slot * slots
unfolding eager_double_linear_deadline
slots_later duty next round genesis slot slots t n = rw (t, n) (omega arith)

within_slot :
    (duty : Duty) (round genesis slot : ℕ)
    → 0 < slot
    → (genesis + slot * duty.slot + eager_double_linear_timeout duty.type round
        ≤ eager_double_linear_deadline duty round genesis slot)
      × (eager_double_linear_deadline duty round genesis slot
          < genesis + slot * duty.slot + slot + eager_double_linear_timeout duty.type round)
unfolding eager_double_linear_deadline get_duty_start_delay
within_slot duty round genesis slot h = (omega arith, ground arith)

-- The eager timer, with a chain timing that the nodes share and slots of positive length: on a first
-- call a round expires, at any local clock, at one deadline, which is the timeout of the round
-- after a time within the slot of the duty; for a duty of the same type `slots` slots later,
-- another node says at any clock that the round expires exactly that many slots later, so for the
-- same duty at the same time; and asked again, the first node adds the timeout once.
pub deadlines_aligned :
    (t u : EagerTimer) (genesis slot round now later again slots : ℕ)
    → t.genesis_time ≡ some genesis
    → t.slot_duration ≡ some slot
    → u.genesis_time ≡ some genesis
    → u.slot_duration ≡ some slot
    → 0 < slot
    → u.duty.type ≡ t.duty.type
    → u.duty.slot ≡ t.duty.slot + slots
    → get round t.first_deadlines ≡ none
    → get round u.first_deadlines ≡ none
    → (deadline : ℕ) × ExpiresAt now round t deadline
      × ExpiresAt later round u (deadline + slot * slots)
      × (genesis + slot * t.duty.slot + eager_double_linear_timeout t.duty.type round ≤ deadline)
      × (deadline
          < genesis + slot * t.duty.slot + slot + eager_double_linear_timeout t.duty.type round)
      × ExpiresAt again round
          (eager_timeout now round t).0
          (deadline + eager_double_linear_timeout t.duty.type round)
deadlines_aligned t u genesis slot round now later again slots tg ts ug us z e n ht hu =
    let own = from_chain t now round genesis slot tg ts in
    let other =
      from_chain u later round genesis slot ug us
      ∙ slots_later t.duty u.duty round genesis slot slots e n in
    let (low, high) = within_slot t.duty round genesis slot z in
    (
      eager_double_linear_deadline t.duty round genesis slot,
      subst (λ d. ExpiresAt now round t d) own (expires_first round t now ht),
      subst (λ d. ExpiresAt later round u d) other (expires_first round u later hu),
      low,
      high,
      subst
          (λ d.
            ExpiresAt again round (eager_timeout now round t).0
              (d + eager_double_linear_timeout t.duty.type round))
          own (expires_again t round now again ht),
    )

-- The eager timer: however often a round's time is asked for after the first time, at any clocks, it
-- expires at the first deadline and one base timeout, no later, and other rounds are untouched.
pub doubled_once :
    (t : EagerTimer) (round now later other : ℕ)
    → get round t.first_deadlines ≡ none
    → (round == other) ≡ false
    → (ExpiresAt later round
          (eager_timeout now round t).0
          (first_deadline t now round + eager_double_linear_timeout t.duty.type round)
        × (eager_timeout later round (eager_timeout now round t).0).0
          ≡ (eager_timeout now round t).0)
      × get other (eager_timeout now round t).0.first_deadlines ≡ get other t.first_deadlines
doubled_once t round now later other h n = (
  (
    expires_again t round now later h,
    subst (λ u. (eager_timeout later round u).0 ≡ u) (sym (first_call t round now h))
        (later_call (remember t round (first_deadline t now round)) round later
          (first_deadline t now round)
          (get-put_self round (first_deadline t now round) t.first_deadlines)),
  ),
  rw (first_call t round now h)
      (get-put_ne round other (first_deadline t now round) t.first_deadlines n),
)

-- The eager timer: resetting a round makes its next call a first call again and keeps other rounds.
pub reset-forgets :
    (t : EagerTimer) (round now other : ℕ)
    → (round == other) ≡ false
    → ExpiresAt now round (reset_round round t) (first_deadline t now round)
      × get other (reset_round round t).first_deadlines ≡ get other t.first_deadlines
unfolding reset_round first_deadline
reset-forgets t round now other n = (
  expires_first round (reset_round round t) now (get-remove_self round t.first_deadlines),
  get-remove_ne round other t.first_deadlines n,
)

-- The eager timer: within one duty, from round 1, a later round's deadline is later, and the wait that
-- extends a round is at least a second.
pub deadlines_increase :
    (duty : Duty) (r s genesis slot : ℕ)
    → 1 ≤ r
    → r < s
    → eager_double_linear_deadline duty r genesis slot
        < eager_double_linear_deadline duty s genesis slot
      × second ≤ eager_double_linear_timeout duty.type r
unfolding eager_double_linear_deadline eager_double_linear_timeout
deadlines_increase duty r s genesis slot h k = (ground arith, ground arith)

-- Duties of one type in consecutive slots of positive length: the start delay is less than the
-- slot, so a duty starts in its own slot, and the same round of the next slot's duty expires one
-- slot later.
pub starts_in_slot :
    (duty next : Duty) (round genesis slot : ℕ)
    → 0 < slot
    → next.type ≡ duty.type
    → next.slot ≡ duty.slot + 1
    → get_duty_start_delay duty.type slot < slot
      × eager_double_linear_deadline next round genesis slot
        ≡ eager_double_linear_deadline duty round genesis slot + slot
unfolding get_duty_start_delay eager_double_linear_deadline
starts_in_slot duty next round genesis slot h t n = (ground arith, rw (t, n) (omega arith))
