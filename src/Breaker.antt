-- ===== src/Breaker.antt =====
-- The circuit breaker of src/forge/infrastructure/resilience/breaker.py. A method takes the clock's
-- readings, in ticks, in the order in which it makes them, and returns the new object.
pub mod Run
pub mod Invariant
pub mod Diagram
pub mod Trips
pub mod Probes
mod Examples
use defect_sense.Prelude.{
  ℕ, ◌+◌, ◌-◌, String, Bool, true, false, Option, none, some, List, [], ◌∷◌, take, leb,
  if◌then◌else◌,
}

pub data BreakerState : Type 0 where
  closed open_circuit half_open : BreakerState

abbrev pub is_open : BreakerState → Bool
is_open open_circuit = true
is_open _ = false

abbrev pub is_half_open : BreakerState → Bool
is_half_open half_open = true
is_half_open _ = false

pub record CircuitBreaker : Type 0 where
  pub name : String
  pub failure_threshold : ℕ
  pub success_threshold : ℕ
  pub open_duration : ℕ
  pub half_open_max_calls : ℕ
  pub phase : BreakerState
  pub consecutive_failures : ℕ
  pub consecutive_successes : ℕ
  pub half_open_in_flight : ℕ
  pub opened_at : Option ℕ
  pub total_calls : ℕ
  pub total_failures : ℕ
  pub last_error : List ℕ

-- A text is the list of its code points. This one reads "forced open via fault injection".
abbrev forced_message : List ℕ
forced_message =
    102 ∷ 111 ∷ 114 ∷ 99 ∷ 101 ∷ 100 ∷ 32 ∷ 111 ∷ 112 ∷ 101 ∷ 110 ∷ 32 ∷ 118 ∷ 105 ∷ 97 ∷ 32 ∷ 102
    ∷ 97 ∷ 117 ∷ 108 ∷ 116 ∷ 32 ∷ 105 ∷ 110 ∷ 106 ∷ 101 ∷ 99 ∷ 116 ∷ 105 ∷ 111 ∷ 110 ∷ []

-- An object as the registry makes it.
abbrev pub new : String → ℕ → ℕ → ℕ → ℕ → CircuitBreaker
new name failures successes duration calls = record {
  name = name;
  failure_threshold = failures;
  success_threshold = successes;
  open_duration = duration;
  half_open_max_calls = calls;
  phase = closed;
  consecutive_failures = 0;
  consecutive_successes = 0;
  half_open_in_flight = 0;
  opened_at = none;
  total_calls = 0;
  total_failures = 0;
  last_error = [];
}

-- `_opened_at is not None and _clock() - _opened_at >= open_duration_seconds`
abbrev pub elapsed : Option ℕ → ℕ → ℕ → Bool
elapsed none duration now = false
elapsed (some t) duration now = leb duration (now - t)

unfoldable pub state : ℕ → CircuitBreaker → BreakerState
state now b =
    if is_open b.phase
    then (if elapsed b.opened_at b.open_duration now then half_open else open_circuit)
    else b.phase

abbrev pub time_left : Option ℕ → ℕ → ℕ → ℕ
time_left none duration now = 0
time_left (some t) duration now = duration - (now - t)

unfoldable pub retry_after : ℕ → CircuitBreaker → ℕ
retry_after now b = if is_open b.phase then time_left b.opened_at b.open_duration now else 0

-- `refused` is the exception CircuitOpenError, with its `retry_after_seconds`.
pub data Admission : Type 0 where
  admitted : Admission
  refused : ℕ → Admission

abbrev pub count_call : CircuitBreaker → CircuitBreaker
count_call b = record b { total_calls = b.total_calls + 1 }

-- The first transition into half-open resets the trial counters.
abbrev pub enter_half_open : CircuitBreaker → CircuitBreaker
enter_half_open b =
    if is_half_open b.phase
    then b
    else record b { phase = half_open; half_open_in_flight = 0; consecutive_successes = 0 }

unfoldable pub try_probe : ℕ → CircuitBreaker → Admission × CircuitBreaker
unfolding retry_after
try_probe later b =
    if leb b.half_open_max_calls b.half_open_in_flight
    then (refused (retry_after later b), b)
    else (admitted, count_call (record b { half_open_in_flight = b.half_open_in_flight + 1 }))

abbrev pub before_at : BreakerState → ℕ → CircuitBreaker → Admission × CircuitBreaker
before_at open_circuit later b = (refused (retry_after later b), b)
before_at half_open later b = try_probe later (enter_half_open b)
before_at closed later b = (admitted, count_call b)

-- The clock is read by `state`, and read again for the exception.
unfoldable pub before_call : ℕ → ℕ → CircuitBreaker → Admission × CircuitBreaker
unfolding state try_probe
before_call now later b = before_at (state now b) later b

unfoldable pub on_success : CircuitBreaker → CircuitBreaker
on_success b =
    let cleared : CircuitBreaker = record b { consecutive_failures = 0; last_error = [] } in
    if is_half_open b.phase
    then (let successes = b.consecutive_successes + 1 in
        let landed : CircuitBreaker = record cleared {
          half_open_in_flight = b.half_open_in_flight - 1;
          consecutive_successes = successes;
        } in
        if leb b.success_threshold successes
        then record landed { phase = closed; opened_at = none; consecutive_successes = 0 }
        else landed)
    else cleared

unfoldable pub on_failure : ℕ → List ℕ → CircuitBreaker → CircuitBreaker
on_failure now error b =
    let noted : CircuitBreaker = record b {
      total_failures = b.total_failures + 1;
      last_error = take 200 error;
      consecutive_successes = 0;
    } in
    if is_half_open b.phase
    then record noted { half_open_in_flight = 0; phase = open_circuit; opened_at = some now }
    else (let counted : CircuitBreaker = record noted {
      consecutive_failures = b.consecutive_failures + 1;
    } in
        if leb b.failure_threshold (b.consecutive_failures + 1)
        then record counted { phase = open_circuit; opened_at = some now }
        else counted)

unfoldable pub force_open : ℕ → CircuitBreaker → CircuitBreaker
force_open now b = record b {
  phase = open_circuit;
  opened_at = some now;
  last_error = forced_message;
}

unfoldable pub reset : CircuitBreaker → CircuitBreaker
reset b = record b {
  phase = closed;
  consecutive_failures = 0;
  consecutive_successes = 0;
  half_open_in_flight = 0;
  opened_at = none;
  last_error = [];
}
