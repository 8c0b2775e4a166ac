-- ===== src/Breaker/Examples.antt =====
-- Runs of a breaker, and the theorems at concrete inputs.
use defect_sense.Prelude.{◌⊎◌, ◌≡◌, ◌↔◌, refl, some, List, [], ◌∷◌}
use defect_sense.Breaker.{
  open_circuit, half_open, CircuitBreaker, admitted, refused, new, before_call, on_failure,
}
use defect_sense.Breaker.Run.{Event, before, success, failure, step, run}
use defect_sense.Breaker.Diagram.{Edge, Override, diagram_exact}

abbrev mes : CircuitBreaker
mes = new "mes" 2 2 30 1

abbrev outage_events : List Event
outage_events = failure 5 [] ∷ failure 7 [] ∷ before 20 20 ∷ before 40 40 ∷ success ∷ []

abbrev tripped : CircuitBreaker
tripped = record mes {
  phase = open_circuit;
  opened_at = some 7;
  consecutive_failures = 2;
  total_failures = 2;
}

abbrev probing : CircuitBreaker
probing = record tripped { phase = half_open; half_open_in_flight = 1; total_calls = 1 }

mes_trips : (run (failure 5 [] ∷ failure 7 [] ∷ []) mes) ≡ tripped
unfolding run step on_failure
mes_trips = refl

mes_probes : before_call 40 40 tripped ≡ (admitted, probing)
unfolding before_call
mes_probes = refl

mes_refuses : before_call 20 21 tripped ≡ (refused 16, tripped)
unfolding before_call
mes_refuses = refl

diagram_exact_example : ((step (failure 9 []) probing).phase ≡ open_circuit) ↔ (
    Edge probing (failure 9 []) half_open open_circuit
    ⊎ Override (failure 9 []) half_open open_circuit)
diagram_exact_example = diagram_exact (failure 9 []) half_open open_circuit probing refl (λ e. cc)
