-- ===== src/Tests/Timer.antt =====
-- timer.py on an attester duty in slot 1 of a chain with five-second slots.
use distributed_validator_sp.Base.{◌+◌, ◌≤◌, ◌<◌, arith, ℕ, ◌*◌, ◌≡◌, refl, some, get, nat_eq}
use distributed_validator_sp.Types.{Duty, attester, duty_type_eq}
use distributed_validator_sp.Timer.{
  eager_double_linear_timeout, eager_timeout, second, get_duty_start_delay, EagerTimer,
  new_eager_timer, linear_timeout,
}
use distributed_validator_sp.Timer.Deadlines.{ExpiresAt, deadlines_aligned}

abbrev duty : Duty
duty = record { slot = 1; type = attester }

abbrev next : Duty
next = record { slot = 2; type = attester }

abbrev gnosis : ℕ
gnosis = 5 * second

abbrev early : EagerTimer
early = new_eager_timer duty (some 100) (some gnosis)

-- The timer of another node for the duty of the next slot.
abbrev next_slot : EagerTimer
next_slot = new_eager_timer (record duty { slot = 2 }) (some 100) (some gnosis)

attester_delay : get_duty_start_delay attester gnosis ≡ 1666666666
unfolding get_duty_start_delay
attester_delay = refl

linear_first : linear_timeout duty 1 ≡ second
unfolding linear_timeout
linear_first = refl

deadlines_aligned_example :
    (deadline : ℕ) × ExpiresAt 7 2 early deadline
    × ExpiresAt 900 2 next_slot (deadline + gnosis * 1)
    × (100 + gnosis * 1 + eager_double_linear_timeout attester 2 ≤ deadline)
    × (deadline < 100 + gnosis * 1 + gnosis + eager_double_linear_timeout attester 2)
    × ExpiresAt 50 2 (eager_timeout 7 2 early).0 (deadline + eager_double_linear_timeout attester 2)
unfolding new_eager_timer get
deadlines_aligned_example =
    deadlines_aligned early next_slot 100 gnosis 2 7 900 50 1 refl refl refl refl (omega arith) refl
      refl refl refl
