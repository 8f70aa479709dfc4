-- ===== src/CircuitBreaker.antt =====
-- src/common/indexer/elastic/circuit-breaker/circuit.breaker.proxy.service.ts: the proxy that stands
-- between the indexer and Elasticsearch. Times are milliseconds. The Elasticsearch client is not in
-- the repository: what a call of it does is a value of `Operation`.
pub mod Sequence
pub mod Interleaving
mod Examples
use mx_api_service.Base.{
  ℕ, suc, ◌+◌, ◌-◌, Bool, true, false, Option, none, some, String, ltb, leb, if◌then◌else◌,
}

pub record Config : Type 0 where
  pub enabled : Bool
  pub duration_threshold_ms : ℕ
  pub failure_count_threshold : ℕ
  pub reset_timeout_ms : ℕ

pub record Breaker : Type 0 where
  pub failure_count : ℕ
  pub last_failure_time : ℕ
  pub is_circuit_open : Bool

abbrev pub initial : Breaker
initial = record { failure_count = 0; last_failure_time = 0; is_circuit_open = false }

-- What the wrapped call does: it settles after some time with a value or with an error (`none`), or
-- it never settles.
pub data Operation (A : Type 0) : Type 0 where
  settles : ℕ → Option A → Operation A
  hangs : Operation A

pub data Response (A : Type 0) : Type 0 where
  ok : A → Response A
  service_unavailable : Response A
  -- the error of the call itself, or no answer at all: only with the breaker disabled
  raised : Response A
  never : Response A

-- The gate: the statements before the call. The flag says whether the call is made.
unfoldable pub admit : Config → ℕ → Breaker → Breaker × Bool
admit c now s =
    if s.is_circuit_open
    then (if leb c.reset_timeout_ms (now - s.last_failure_time)
        then (record s { is_circuit_open = false; failure_count = 0 }, true)
        else (s, false))
    else (s, true)

-- The statement after a call that returned in time.
unfoldable pub on_success : Breaker → Breaker
on_success s = record s { failure_count = 0 }

-- The `catch` block, run at time `now`.
unfoldable pub on_failure : Config → ℕ → Breaker → Breaker
on_failure c now s = record {
  failure_count = s.failure_count + 1;
  last_failure_time = now;
  is_circuit_open =
      if leb c.failure_count_threshold (s.failure_count + 1) then true else s.is_circuit_open;
}

-- `Promise.race` of the call and the timer, which is started first and so wins a tie: the time at
-- which the race ends, and the value if the call won with one.
unfoldable pub race : {A : Type 0} → Config → ℕ → Operation A → ℕ × Option A
race c now hangs = (now + c.duration_threshold_ms, none)
race c now (settles elapsed result) =
    if ltb elapsed c.duration_threshold_ms
    then (now + elapsed, result)
    else (now + c.duration_threshold_ms, none)

abbrev bare : {A : Type 0} → Operation A → Response A
bare hangs = never
bare (settles elapsed none) = raised
bare (settles elapsed (some a)) = ok a

abbrev finish : {A : Type 0} → Config → Breaker → ℕ → Option A → Breaker × Response A
finish c s ended none = (on_failure c ended s, service_unavailable)
finish c s ended (some a) = (on_success s, ok a)

-- One call from its start to its end, with no other call in between.
unfoldable pub with_circuit_breaker :
    {A : Type 0} → Config → ℕ → Operation A → Breaker → Breaker × Response A
unfolding admit race on_success on_failure
with_circuit_breaker c now op s =
    if c.enabled
    then (let (s', admitted) = admit c now s in
        let (ended, result) = race c now op in
        if admitted then finish c s' ended result else (s', service_unavailable))
    else (s, bare op)

-- The methods of the proxy, over the client's queries, documents and values.
pub data ElasticCall (Query Json : Type 0) : Type 0 where
  get_count : String → Query → ElasticCall Query Json
  get_list : String → String → Query → ElasticCall Query Json
  get_item : String → String → String → ElasticCall Query Json
  get_custom_value : String → String → String → ElasticCall Query Json
  set_custom_value : String → String → String → Json → ElasticCall Query Json
  set_custom_values : String → String → Json → ElasticCall Query Json
  get_scrollable_list : String → String → Query → ElasticCall Query Json
  get : String → ElasticCall Query Json
  post : String → Json → ElasticCall Query Json

-- Each method passes its own call of the client through the one breaker of the service.
unfoldable pub proxy :
    {Query Json A : Type 0}
    → (elastic : ElasticCall Query Json → Operation A) → Config
    → ℕ
    → ElasticCall Query Json
    → Breaker
    → Breaker × Response A
unfolding with_circuit_breaker
proxy elastic c now call s = with_circuit_breaker c now (elastic call) s
