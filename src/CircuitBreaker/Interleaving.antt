-- ===== src/CircuitBreaker/Interleaving.antt =====
-- Calls that overlap: the service runs many requests at a time, and between the gate and the end of
-- one call other calls start and end. A step is a run of the code between two `await`s.
use mx_api_service.Base.{ℕ, suc, ◌+◌, ◌≤◌, ◌<◌, ◌≡◌, true, false, arith}
use mx_api_service.CircuitBreaker.{Config, Breaker, initial, admit, on_success, on_failure}

pub record System : Type 0 where
  pub breaker : Breaker
  pub in_flight : ℕ
  pub clock : ℕ

abbrev pub start : System
start = record { breaker = initial; in_flight = 0; clock = 0 }

-- The clock of the process does not run back.
pub data Step (c : Config) : System → System → Type 0 where
  rejected :
      (s : System) (now : ℕ)
      → s.clock ≤ now
      → (admit c now s.breaker).1 ≡ false
      → Step c s (record s { breaker = (admit c now s.breaker).0; clock = now })
  started :
      (s : System) (now : ℕ)
      → s.clock ≤ now
      → (admit c now s.breaker).1 ≡ true
      → Step c s (record s {
        breaker = (admit c now s.breaker).0;
        in_flight = suc s.in_flight;
        clock = now;
      })
  succeeded :
      (s : System) (now n : ℕ)
      → s.clock ≤ now
      → s.in_flight ≡ suc n
      → Step c s (record s { breaker = on_success s.breaker; in_flight = n; clock = now })
  failed :
      (s : System) (now n : ℕ)
      → s.clock ≤ now
      → s.in_flight ≡ suc n
      → Step c s (record s { breaker = on_failure c now s.breaker; in_flight = n; clock = now })

pub data Reach (c : Config) (s : System) : System → Type 0 where
  here : Reach c s s
  next : {t u : System} → Reach c s t → Step c t u → Reach c s u

-- A closed circuit counts fewer failures than the threshold, and no failure lies in the future.
pub record IsValid (c : Config) (s : System) : Type 0 where
  pub below :
      s.breaker.is_circuit_open ≡ false → s.breaker.failure_count < c.failure_count_threshold
  pub past : s.breaker.last_failure_time ≤ s.clock

Step-IsValid :
    {c : Config} {t u : System}
    → 0 < c.failure_count_threshold
    → Step c t u
    → IsValid c t
    → IsValid c u
unfolding admit on_success on_failure
Step-IsValid p (rejected s now h e) v = ground (arith, v.below)
Step-IsValid p (started s now h e) v = ground (arith, v.below)
Step-IsValid p (succeeded s now n h e) v = ground (arith, v.below)
Step-IsValid p (failed s now n h e) v = ground (arith, v.below)

-- However calls overlap, a circuit that has taken the threshold's number of failures since the last
-- reset or success is not closed: in every state that the service reaches, a closed circuit counts
-- fewer failures than the (positive) threshold, and its last failure is not in the future.
pub Reach-IsValid :
    {c : Config} {s : System} → 0 < c.failure_count_threshold → Reach c start s → IsValid c s
Reach-IsValid p here = record { below = λ _. p; past = omega arith }
Reach-IsValid p (next r st) = Step-IsValid p st (Reach-IsValid p r)

-- How an open circuit `t` stands to a later state `u`.
pub record Holds (t u : System) : Type 0 where
  pub opened : u.breaker.is_circuit_open ≡ true
  pub later : t.breaker.last_failure_time ≤ u.breaker.last_failure_time
  pub past : u.breaker.last_failure_time ≤ u.clock
  pub drained : u.in_flight ≤ t.in_flight

Step-clock : {c : Config} {u w : System} → Step c u w → u.clock ≤ w.clock
Step-clock (rejected s now h e) = h
Step-clock (started s now h e) = h
Step-clock (succeeded s now n h e) = h
Step-clock (failed s now n h e) = h

module _ {c : Config} {t : System} where
  Step-Holds :
      {u w : System}
      → Step c u w
      → w.clock < t.breaker.last_failure_time + c.reset_timeout_ms
      → Holds t u
      → Holds t w
  unfolding admit on_success on_failure
  Step-Holds (rejected s now h e) b v = ground (arith, v.opened, v.later, v.past, v.drained)
  Step-Holds (started s now h e) b v = absurd (ground (arith, v.opened, v.later, v.past, v.drained))
  Step-Holds (succeeded s now n h e) b v = ground (arith, v.opened, v.later, v.past, v.drained)
  Step-Holds (failed s now n h e) b v = ground (arith, v.opened, v.later, v.past, v.drained)

-- An open circuit fails fast: until the reset timeout has passed since its last failure it stays
-- open and no call is started, whatever the calls still in flight return.
pub Reach-Holds :
    {c : Config} {t u : System}
    → t.breaker.is_circuit_open ≡ true
    → t.breaker.last_failure_time ≤ t.clock
    → Reach c t u
    → u.clock < t.breaker.last_failure_time + c.reset_timeout_ms
    → Holds t u
Reach-Holds o p here b = record { opened = o; later = omega arith; past = p; drained = omega arith }
Reach-Holds o p (next r st) b = Step-Holds st b (Reach-Holds o p r (omega (arith, Step-clock st)))
