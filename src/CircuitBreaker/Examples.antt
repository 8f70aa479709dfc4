-- ===== src/CircuitBreaker/Examples.antt =====
-- Tests of the circuit breaker, and its theorems at concrete inputs.
use mx_api_service.Base.{ℕ, ◌+◌, leb, ◌≡◌, refl, true, false, List, [], ◌∷◌, none, some, arith}
use mx_api_service.CircuitBreaker.{
  Config, Breaker, initial, Operation, settles, hangs, service_unavailable, admit, on_failure,
  with_circuit_breaker, race,
}
use mx_api_service.CircuitBreaker.Sequence.{run, run-trips}
use mx_api_service.CircuitBreaker.Interleaving.{
  System, start, Reach, here, next, started, failed, IsValid, Holds, Reach-IsValid, Reach-Holds,
}

abbrev config : Config
config = record {
  enabled = true;
  duration_threshold_ms = 100;
  failure_count_threshold = 2;
  reset_timeout_ms = 1000;
}

abbrev open_breaker : Breaker
open_breaker = record { failure_count = 2; last_failure_time = 500; is_circuit_open = true }

abbrev calls : List (ℕ × Operation ℕ)
calls = (0, hangs) ∷ (200, settles 3 none) ∷ []

abbrev takes : ℕ → Operation ℕ
takes elapsed = settles elapsed (some 1)

abbrev stuck : Operation ℕ
stuck = hangs

run-trips_example :
    (run config calls initial).is_circuit_open
    ≡ leb config.failure_count_threshold (initial.failure_count + 2)
unfolding race
run-trips_example =
    run-trips config calls initial refl refl (refl, (refl, tt)) (omega arith) (omega arith)

too_slow : with_circuit_breaker config 7 (takes 100) initial ≡ (
  record { failure_count = 1; last_failure_time = 107; is_circuit_open = false },
  service_unavailable,
)
unfolding with_circuit_breaker
too_slow = refl

rejected_at_once :
    with_circuit_breaker config 600 (takes 1) open_breaker ≡ (open_breaker, service_unavailable)
unfolding with_circuit_breaker
rejected_at_once = refl

abbrev one_call : System
one_call = record { breaker = initial; in_flight = 1; clock = 3 }

one_call_reached : Reach config start one_call
unfolding admit
one_call_reached = next here (started start 3 (omega arith) refl)

Reach-IsValid_example : IsValid config one_call
Reach-IsValid_example = Reach-IsValid (omega arith) one_call_reached

abbrev tripped : System
tripped = record { breaker = open_breaker; in_flight = 1; clock = 600 }

abbrev tripped_again : System
tripped_again = record {
  breaker = record { failure_count = 3; last_failure_time = 700; is_circuit_open = true };
  in_flight = 0;
  clock = 700;
}

tripped_reached : Reach config tripped tripped_again
unfolding on_failure
tripped_reached = next here (failed tripped 700 0 (omega arith) refl)

Reach-Holds_example : Holds tripped tripped_again
Reach-Holds_example = Reach-Holds refl (omega arith) tripped_reached (omega arith)
