-- ===== src/Breaker/Run.antt =====
-- The calls of one breaker as events, in the order in which its lock serialises them.
use defect_sense.Prelude.{ℕ, List, [], ◌∷◌}
use defect_sense.Breaker.{CircuitBreaker, before_call, on_success, on_failure, force_open, reset}

-- `before now later` is `before_call` with its two readings of the clock.
pub data Event : Type 0 where
  before : ℕ → ℕ → Event
  success : Event
  failure : ℕ → List ℕ → Event
  force : ℕ → Event
  clear : Event

unfoldable pub step : Event → CircuitBreaker → CircuitBreaker
step (before now later) b = (before_call now later b).1
step success b = on_success b
step (failure now error) b = on_failure now error b
step (force now) b = force_open now b
step clear b = reset b

unfoldable pub run : List Event → CircuitBreaker → CircuitBreaker
run [] b = b
run (e ∷ es) b = run es (step e b)
