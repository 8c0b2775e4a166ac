-- ===== src/Breaker/Probes.antt =====
-- The calls that a half-open breaker lets through.
use defect_sense.Prelude.{
  ℕ, ◌+◌, ◌-◌, ◌≤◌, ◌<◌, ◌≡◌, refl, some, List, [], ◌∷◌, arith, length, All, min,
}
use defect_sense.Breaker.{
  open_circuit, half_open, CircuitBreaker, Admission, admitted, refused, before_call,
}

abbrev pub count_admitted : Admission → ℕ
count_admitted admitted = 1
count_admitted (refused _) = 0

-- Calls that come before any of them has ended, with their two readings of the clock: how many are
-- admitted, and the object after them.
pub burst : List (ℕ × ℕ) → CircuitBreaker → ℕ × CircuitBreaker
burst [] b = (0, b)
burst ((now, later) ∷ ts) b =
    let (answer, b') = before_call now later b in
    let (n, last) = burst ts b' in (count_admitted answer + n, last)

burst-half_open :
    (ts : List (ℕ × ℕ)) (b : CircuitBreaker)
    → b.phase ≡ half_open
    → (burst ts b).0 ≡ min (length ts) (b.half_open_max_calls - b.half_open_in_flight)
unfolding burst before_call
burst-half_open [] b at = omega arith
burst-half_open ((now, later) ∷ ts) b at =
    ground (arith, burst-half_open ts (before_call now later b).1)

-- After an outage of `open_duration`, however many calls come at once, exactly
-- `half_open_max_calls` of them are let through (all of them, where they are fewer).
pub probe_cap :
    (ts : List (ℕ × ℕ)) (b : CircuitBreaker) (t : ℕ)
    → b.phase ≡ open_circuit
    → b.opened_at ≡ some t
    → All (λ (c : ℕ × ℕ). b.open_duration ≤ c.0 - t) ts
    → (burst ts b).0 ≡ min (length ts) b.half_open_max_calls
unfolding burst before_call
probe_cap [] b t at opened late = omega arith
probe_cap ((now, later) ∷ ts) b t at opened late =
    ground (arith, burst-half_open ts (before_call now later b).1)

-- While less than `open_duration` has passed since the opening, every call is refused, and the
-- refused calls leave the object as it was.
pub outage :
    (ts : List (ℕ × ℕ)) (b : CircuitBreaker) (t : ℕ)
    → b.phase ≡ open_circuit
    → b.opened_at ≡ some t
    → All (λ (c : ℕ × ℕ). c.0 - t < b.open_duration) ts
    → burst ts b ≡ (0, b)
unfolding burst before_call
outage [] b t at opened early = refl
outage ((now, later) ∷ ts) b t at opened early = ground (arith, outage ts b t)

-- A half-open breaker whose probes neither succeed nor fail stays as it is: with all its slots
-- taken it refuses every later call, at whatever time, since no timer runs in this state.
pub probes_wedge :
    (ts : List (ℕ × ℕ)) (b : CircuitBreaker)
    → b.phase ≡ half_open
    → b.half_open_max_calls ≤ b.half_open_in_flight
    → burst ts b ≡ (0, b)
unfolding burst before_call
probes_wedge [] b at full = refl
probes_wedge ((now, later) ∷ ts) b at full = ground (arith, probes_wedge ts b)
