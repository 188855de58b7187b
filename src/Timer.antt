-- ===== src/Timer.antt =====
-- src/dv_spec/subspecs/consensus/timer/timer.py: the round timers. Times are whole nanoseconds, as in
-- the `_nanos` functions; the functions on seconds compute the same amounts in floating point.
-- Rounds are numbered from one.
pub mod Deadlines
use distributed_validator_sp.Base.{
  ℕ, ◌+◌, ◌-◌, ◌*◌, ◌/◌, Bool, true, false, ◌&&◌, ◌||◌, Option, none, some, List, [], ◌∷◌, ◌==◌,
  nat_eq, if◌then◌else◌, ltb, Dict, get, put, has, remove, ℤ, sub_ℕ, Eq, eq_by_code, ◌≡◌, arith,
}
use distributed_validator_sp.Types.{
  Duty, DutyType, duty_type_eq, proposer, attester, aggregator, sync_contribution,
}

pub data TimerType : Type 0 where
  increasing eager_double_linear linear : TimerType

abbrev pub second : ℕ
second = 1000000000

-- 1.5 seconds
abbrev pub proposal_round_timeout : ℕ
proposal_round_timeout = 1500000000

unfoldable pub get_duty_start_delay : DutyType → ℕ → ℕ
get_duty_start_delay type slot_duration =
    if type == attester
    then slot_duration / 3
    else if type == aggregator || type == sync_contribution
    then 2 * slot_duration / 3
    else 0

-- max(1.0, float(round_num))
unfoldable pub eager_double_linear_timeout : DutyType → ℕ → ℕ
eager_double_linear_timeout type round =
    if type == proposer && round == 1
    then proposal_round_timeout
    else if ltb round 1
    then second
    else round * second

unfoldable pub eager_double_linear_deadline : Duty → ℕ → ℕ → ℕ → ℕ
unfolding get_duty_start_delay eager_double_linear_timeout
eager_double_linear_deadline duty round genesis_time slot_duration =
    let slot_start = genesis_time + slot_duration * duty.slot in
    let duty_start = slot_start + get_duty_start_delay duty.type slot_duration in
    duty_start + eager_double_linear_timeout duty.type round

-- _proposal_timeout_optimization, the same in two classes
unfoldable pub proposal_timeout_optimization : Duty → ℕ → Bool
proposal_timeout_optimization duty round = duty.type == proposer && round == 1

-- IncreasingRoundTimer.calculate_timeout: 750 ms and 250 ms for each round.
unfoldable pub increasing_timeout : Duty → ℕ → ℕ
unfolding proposal_timeout_optimization
increasing_timeout duty round =
    if proposal_timeout_optimization duty round
    then proposal_round_timeout
    else 750000000 + round * 250000000

-- LinearRoundTimer.calculate_timeout
unfoldable pub linear_timeout : Duty → ℕ → ℕ
unfolding proposal_timeout_optimization
linear_timeout duty round =
    if proposal_timeout_optimization duty round
    then proposal_round_timeout
    else if round == 1
    then second
    else 200000000 * (round - 1) + 200000000

-- DoubleEagerLinearRoundTimer; the clock is an argument of the call that reads it.
pub record EagerTimer : Type 0 where
  pub duty : Duty
  pub genesis_time : Option ℕ
  pub slot_duration : Option ℕ
  pub first_deadlines : Dict ℕ ℕ

unfoldable pub new_eager_timer : Duty → Option ℕ → Option ℕ → EagerTimer
new_eager_timer duty genesis_time slot_duration = record {
  duty = duty;
  genesis_time = genesis_time;
  slot_duration = slot_duration;
  first_deadlines = [];
}

-- The first deadline of a round: by the chain's clock where its timing is known.
unfoldable pub first_deadline : EagerTimer → ℕ → ℕ → ℕ
unfolding eager_double_linear_deadline
first_deadline t now round = elim t.genesis_time [
  | none ↦ now + eager_double_linear_timeout t.duty.type round
  | some genesis ↦ elim t.slot_duration [
    | none ↦ now + eager_double_linear_timeout t.duty.type round
    | some slot ↦ eager_double_linear_deadline t.duty round genesis slot
  ]
]

-- DoubleEagerLinearRoundTimer.calculate_timeout: the time that is left, which may be negative.
unfoldable pub eager_timeout : ℕ → ℕ → EagerTimer → EagerTimer × ℤ
unfolding first_deadline get put
eager_timeout now round t = elim (get round t.first_deadlines) [
  | some first ↦ (t, sub_ℕ (first + eager_double_linear_timeout t.duty.type round) now)
  | none ↦
      (let deadline = first_deadline t now round in
        (record t { first_deadlines = put round deadline t.first_deadlines }, sub_ℕ deadline now))
]

unfoldable pub reset_round : ℕ → EagerTimer → EagerTimer
unfolding remove
reset_round round t = record t { first_deadlines = remove round t.first_deadlines }

unfoldable pub clear_all_rounds : EagerTimer → EagerTimer
clear_all_rounds t = record t { first_deadlines = [] }

-- The class hierarchy of `RoundTimer`.
pub data RoundTimer : Type 0 where
  increasing_timer linear_timer : Duty → RoundTimer
  eager_timer : EagerTimer → RoundTimer

unfoldable pub get_type : RoundTimer → TimerType
get_type (increasing_timer duty) = increasing
get_type (linear_timer duty) = linear
get_type (eager_timer t) = eager_double_linear

-- `"eager" in self.get_type().value`
unfoldable pub is_eager : RoundTimer → Bool
unfolding get_type
is_eager t = elim (get_type t) [ eager_double_linear ↦ true | _ ↦ false ]

unfoldable pub create_timer : TimerType → Duty → Option ℕ → Option ℕ → RoundTimer
unfolding new_eager_timer
create_timer increasing duty genesis_time slot_duration = increasing_timer duty
create_timer linear duty genesis_time slot_duration = linear_timer duty
create_timer eager_double_linear duty genesis_time slot_duration =
    eager_timer (new_eager_timer duty genesis_time slot_duration)

unfoldable pub get_default_timer : Duty → Option ℕ → Option ℕ → RoundTimer
unfolding new_eager_timer
get_default_timer duty genesis_time slot_duration =
    eager_timer (new_eager_timer duty genesis_time slot_duration)
