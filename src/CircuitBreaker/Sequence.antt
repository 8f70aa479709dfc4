-- ===== src/CircuitBreaker/Sequence.antt =====
-- Calls made one after the other.
use mx_api_service.Base.{
  ℕ, ◌+◌, ◌-◌, ◌≤◌, ◌<◌, ◌≡◌, refl, true, false, List, [], ◌∷◌, none, some, arith, ◌↔◌, ◌⊎◌, leb,
  length, All,
}
use mx_api_service.CircuitBreaker.{
  Config, Breaker, Operation, settles, hangs, ok, service_unavailable, race, with_circuit_breaker,
}

-- The calls of a client, each with the time at which it is made.
pub run : {A : Type 0} → Config → List (ℕ × Operation A) → Breaker → Breaker
run c [] s = s
run c ((now, op) ∷ calls) s = run c calls (with_circuit_breaker c now op s).0

-- A call fails if it raises an error or does not end within the threshold.
abbrev pub Fails : {A : Type 0} → Config → Operation A → Type 0
Fails c op = (race c 0 op).1 ≡ none

race-none :
    {A : Type 0} → (c : Config) (op : Operation A) (now : ℕ) → Fails c op → (race c now op).1 ≡ none
unfolding race
race-none c hangs now h = refl
race-none c (settles e r) now h = ground arith

failed_step :
    {A : Type 0}
    → (c : Config) (now : ℕ) (op : Operation A) (s : Breaker) → c.enabled ≡ true
    → s.is_circuit_open ≡ false
    → Fails c op
    → ((with_circuit_breaker c now op s).0.failure_count ≡ s.failure_count + 1)
      × ((with_circuit_breaker c now op s).0.is_circuit_open
          ≡ leb c.failure_count_threshold (s.failure_count + 1))
      × ((with_circuit_breaker c now op s).1 ≡ service_unavailable)
unfolding with_circuit_breaker
failed_step c now op s on shut h = ground (arith, race-none c op now h)

-- Counting failures from any closed state.
run-failures :
    {A : Type 0}
    → (c : Config) (calls : List (ℕ × Operation A)) (s : Breaker) → c.enabled ≡ true
    → s.is_circuit_open ≡ false
    → All (λ call. Fails c call.1) calls
    → s.failure_count + length calls < c.failure_count_threshold
    → ((run c calls s).failure_count ≡ s.failure_count + length calls)
      × ((run c calls s).is_circuit_open ≡ false)
unfolding run
run-failures c [] s on shut h b = (omega arith, shut)
run-failures c ((now, op) ∷ calls) s on shut (f, h) b =
    let step = failed_step c now op s on shut f in
    let next = (with_circuit_breaker c now op s).0 in
    let open' : next.is_circuit_open ≡ false = ground arith in
    let rest = run-failures c calls next on open' h (omega arith) in (omega (arith, rest.0), rest.1)

-- With the breaker enabled, from a closed circuit: after calls, at least one, that all raise an error
-- or do not end in time, and that with the failures counted before are at most as many as the
-- threshold, the circuit is open exactly if the threshold is reached.
pub run-trips :
    {A : Type 0}
    → (c : Config) (calls : List (ℕ × Operation A)) (s : Breaker) → c.enabled ≡ true
    → s.is_circuit_open ≡ false
    → All (λ call. Fails c call.1) calls
    → 0 < length calls
    → s.failure_count + length calls ≤ c.failure_count_threshold
    → (run c calls s).is_circuit_open
      ≡ leb c.failure_count_threshold (s.failure_count + length calls)
unfolding run
run-trips c ((now, op) ∷ []) s on shut (f, h) p b = (failed_step c now op s on shut f).1
run-trips c ((now, op) ∷ call ∷ calls) s on shut (f, h) p b =
    let step = failed_step c now op s on shut f in
    let next = (with_circuit_breaker c now op s).0 in
    let shut' : next.is_circuit_open ≡ false = ground arith in
    let rest = run-trips c (call ∷ calls) next on shut' h (omega arith) (ground arith) in
    ground arith
run-trips c [] s on shut h p b = absurd (omega arith)

-- A call answers with a value exactly if the gate lets it through and the client's own call
-- returned that value within the threshold.
pub with_circuit_breaker-ok_iff :
    {A : Type 0}
    → (c : Config) (now : ℕ) (op : Operation A) (s : Breaker) (a : A) → c.enabled ≡ true
    → ((with_circuit_breaker c now op s).1 ≡ ok a)
      ↔ ((s.is_circuit_open ≡ false) ⊎ (c.reset_timeout_ms ≤ now - s.last_failure_time))
        × ((t : ℕ) × (op ≡ settles t (some a)) × (t < c.duration_threshold_ms))
unfolding with_circuit_breaker
with_circuit_breaker-ok_iff c now hangs s a on = ground arith
with_circuit_breaker-ok_iff c now (settles t none) s a on = ground arith
with_circuit_breaker-ok_iff c now (settles t (some b)) s a on =
    (λ h. (ground arith, (t, ground arith, ground arith)), λ h. ground arith)

-- Half open: once the reset timeout has passed, a failing call is let through, and the circuit opens
-- again at once only if the threshold is at most one. A call that returns in time closes it.
pub with_circuit_breaker-half_open :
    {A : Type 0}
    → (c : Config) (now : ℕ) (op : Operation A) (s : Breaker) → c.enabled ≡ true
    → s.is_circuit_open ≡ true
    → s.last_failure_time + c.reset_timeout_ms ≤ now
    → ((with_circuit_breaker c now op s).0.is_circuit_open ≡ true)
      ↔ (Fails c op × (c.failure_count_threshold ≤ 1))
unfolding with_circuit_breaker race
with_circuit_breaker-half_open c now hangs s on shut h = ground arith
with_circuit_breaker-half_open c now (settles t none) s on shut h = ground arith
with_circuit_breaker-half_open c now (settles t (some b)) s on shut h = ground arith
