-- ===== src/Breaker/Diagram.antt =====
-- The state diagram at the head of breaker.py, as a relation with the guard of each arrow.
use defect_sense.Prelude.{
  ◌⊎◌, ℕ, ◌+◌, ◌-◌, ◌≤◌, ◌≡◌, ◌≢◌, refl, ◌↔◌, inl, inr, some, List, arith, Option-cases,
}
use defect_sense.Breaker.{
  BreakerState, closed, open_circuit, half_open, CircuitBreaker, before_call, on_success,
  on_failure, force_open, reset,
}
use defect_sense.Breaker.Run.{Event, before, success, failure, force, clear, step}

-- The four arrows of the diagram.
pub data Edge (b : CircuitBreaker) : Event → BreakerState → BreakerState → Type 0 where
  trip :
      (now : ℕ) (error : List ℕ)
      → b.failure_threshold ≤ b.consecutive_failures + 1
      → Edge b (failure now error) closed open_circuit
  lapse :
      (now later t : ℕ)
      → b.opened_at ≡ some t
      → b.open_duration ≤ now - t
      → Edge b (before now later) open_circuit half_open
  close : b.success_threshold ≤ b.consecutive_successes + 1 → Edge b success half_open closed
  relapse : (now : ℕ) (error : List ℕ) → Edge b (failure now error) half_open open_circuit

-- What the diagram does not draw: `force_open` and `reset`, from any state.
pub data Override : Event → BreakerState → BreakerState → Type 0 where
  inject : (p : BreakerState) (now : ℕ) → p ≢ open_circuit → Override (force now) p open_circuit
  restore : (p : BreakerState) → p ≢ closed → Override clear p closed

Edge-sound :
    {e : Event} {p q : BreakerState} (b : CircuitBreaker)
    → Edge b e p q
    → b.phase ≡ p
    → (step e b).phase ≡ q
unfolding step before_call on_success on_failure
Edge-sound b (trip now error h) at = ground arith
Edge-sound b (lapse now later t d h) at = ground arith
Edge-sound b (close h) at = ground arith
Edge-sound b (relapse now error) at = ground arith

Override-sound :
    {e : Event} {p q : BreakerState} (b : CircuitBreaker) → Override e p q → (step e b).phase ≡ q
unfolding step force_open reset
Override-sound b (inject p now ne) = refl
Override-sound b (restore p ne) = refl

Edge-complete :
    (e : Event) (p q : BreakerState) (b : CircuitBreaker)
    → b.phase ≡ p
    → (step e b).phase ≡ q
    → p ≢ q
    → Edge b e p q ⊎ Override e p q
unfolding step before_call on_success on_failure force_open reset
Edge-complete (failure now error) closed open_circuit b at to ne =
    inl (trip now error (ground arith))
Edge-complete (failure now error) half_open open_circuit b at to ne = inl (relapse now error)
Edge-complete success half_open closed b at to ne = inl (close (ground arith))
Edge-complete (force now) p open_circuit b at to ne = inr (inject p now ne)
Edge-complete clear p closed b at to ne = inr (restore p ne)
Edge-complete (before now later) open_circuit half_open b at to ne =
    elim (Option-cases b.opened_at) [
      | inl never ↦ absurd (ground arith)
      | inr (t, opened) ↦ inl (lapse now later t opened (ground arith))
    ]
Edge-complete e p q b at to ne = absurd (ground arith)

-- A call moves a breaker from one state to another one exactly when either the call is one of the
-- four arrows of the diagram between the two, and the breaker meets its guard (enough failures in a
-- row, an elapsed window, enough successful probes, any failed probe), or it is one of the two calls
-- that the diagram does not draw, `force_open` to open and `reset` to closed.
pub diagram_exact :
    (e : Event) (p q : BreakerState) (b : CircuitBreaker)
    → b.phase ≡ p
    → p ≢ q
    → ((step e b).phase ≡ q) ↔ (Edge b e p q ⊎ Override e p q)
diagram_exact e p q b at ne = (λ to. Edge-complete e p q b at to ne, sound)
  where
    sound : Edge b e p q ⊎ Override e p q → (step e b).phase ≡ q
    sound (inl edge) = Edge-sound b edge at
    sound (inr override) = Override-sound b override
