-- ===== src/Breaker/Trips.antt =====
-- Failures in a row open a breaker, and an open one refuses every call until its window is over.
use defect_sense.Prelude.{
  ℕ, zero, suc, ◌+◌, ◌<◌, ◌≡◌, List, [], ◌∷◌, map, arith, ltb, length, if◌then◌else◌,
}
use defect_sense.Breaker.{closed, open_circuit, half_open, CircuitBreaker, on_success, on_failure}
use defect_sense.Breaker.Run.{Event, success, failure, step, run}

abbrev pub report : ℕ × List ℕ → Event
report (now, error) = failure now error

still_open :
    (fs : List (ℕ × List ℕ)) (b : CircuitBreaker)
    → b.phase ≡ open_circuit
    → (run (map report fs) b).phase ≡ open_circuit
unfolding run step on_failure
still_open [] b at = at
still_open ((now, error) ∷ fs) b at = still_open fs (on_failure now error b) (ground arith)

-- A closed breaker is opened by the failure that makes its streak as long as `failure_threshold`, by
-- none before it, and failures alone never leave it in another state than these two.
pub trips_at_threshold :
    (fs : List (ℕ × List ℕ)) (b : CircuitBreaker)
    → b.phase ≡ closed
    → b.consecutive_failures < b.failure_threshold
    → (run (map report fs) b).phase ≡ (
        if ltb (b.consecutive_failures + length fs) b.failure_threshold
        then closed
        else open_circuit)
unfolding run step on_failure
trips_at_threshold [] b at h = ground arith
trips_at_threshold ((now, error) ∷ fs) b at h =
    ground (
      arith,
      still_open fs (on_failure now error b),
      trips_at_threshold fs (on_failure now error b),
    )

abbrev pub successes : ℕ → List Event
successes zero = []
successes (suc n) = success ∷ successes n

still_closed :
    (n : ℕ) (b : CircuitBreaker) → b.phase ≡ closed → (run (successes n) b).phase ≡ closed
unfolding run step on_success
still_closed zero b at = at
still_closed (suc n) b at = still_closed n (on_success b) (ground arith)

-- A half-open breaker is closed by the success that makes its streak as long as `success_threshold`,
-- and by none before it; further successes keep it closed.
pub recovers_at_threshold :
    (n : ℕ) (b : CircuitBreaker)
    → b.phase ≡ half_open
    → b.consecutive_successes < b.success_threshold
    → (run (successes n) b).phase
      ≡ (if ltb (b.consecutive_successes + n) b.success_threshold then half_open else closed)
unfolding run step on_success
recovers_at_threshold zero b at h = ground arith
recovers_at_threshold (suc n) b at h =
    ground (arith, still_closed n (on_success b), recovers_at_threshold n (on_success b))
