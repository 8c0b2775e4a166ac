-- ===== src/Breaker/Invariant.antt =====
-- What holds of a breaker whatever is called on it, in whatever order.
use defect_sense.Prelude.{ℕ, ◌≤◌, ◌<◌, ◌≡◌, String, none, List, arith}
use defect_sense.Breaker.{
  closed, half_open, CircuitBreaker, new, before_call, on_success, on_failure,
}

-- An opened breaker knows since when, and the counters are below their limits.
pub record IsValid (b : CircuitBreaker) : Type 0 where
  pub armed : (0 < b.failure_threshold) × (0 < b.success_threshold)
  pub dated : b.opened_at ≡ none → b.phase ≡ closed
  pub undated : b.phase ≡ closed → b.opened_at ≡ none
  pub failures : b.phase ≡ closed → b.consecutive_failures < b.failure_threshold
  pub successes : b.consecutive_successes < b.success_threshold
  pub probes : b.phase ≡ half_open → b.half_open_in_flight ≤ b.half_open_max_calls
  pub streak : b.consecutive_failures ≤ b.total_failures

pub before_call-IsValid :
    (now later : ℕ) (b : CircuitBreaker) → IsValid b → IsValid (before_call now later b).1
unfolding before_call
before_call-IsValid now later b v = ground arith

pub on_success-IsValid : (b : CircuitBreaker) → IsValid b → IsValid (on_success b)
unfolding on_success
on_success-IsValid b v = ground arith

pub on_failure-IsValid :
    (now : ℕ) (error : List ℕ) (b : CircuitBreaker) → IsValid b → IsValid (on_failure now error b)
unfolding on_failure
on_failure-IsValid now error b v = ground arith

pub new-IsValid :
    (name : String) (failures successes duration calls : ℕ)
    → 0 < failures
    → 0 < successes
    → IsValid (new name failures successes duration calls)
new-IsValid name failures successes duration calls f s = ground arith
