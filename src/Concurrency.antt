-- ===== src/Concurrency.antt =====
-- src/utils/concurrency.utils.ts: running an asynchronous operation over a list in chunks. What the
-- operation does with an item is a parameter: it resolves with a value, or rejects (`none`). The
-- loops take fuel; logging is left out, and the result shows which chunks were started and how often
-- the code paused.
pub mod Chunks
mod Examples
use mx_api_service.Base.{
  ℕ, zero, suc, ◌+◌, Bool, List, [], ◌∷◌, ◌++◌, Option, none, some, ltb, length, take, drop, ◌&&◌,
  if◌then◌else◌,
}

pub data Outcome (R : Type 0) : Type 0 where
  resolved : List R → Outcome R
  rejected : Outcome R
  -- the loop has not ended within the fuel
  unfinished : Outcome R

pub record Trace (T R : Type 0) : Type 0 where
  pub chunks : List (List T)
  pub delays : ℕ
  pub outcome : Outcome R

-- `Promise.all(chunk.map(asyncOperation))`: the results in order, or a rejection if one rejects.
unfoldable pub settle_all : {T R : Type 0} → (T → Option R) → List T → Option (List R)
settle_all op [] = some []
settle_all op (x ∷ xs) = elim (op x) [
  | none ↦ none
  | some r ↦ elim (settle_all op xs) [ none ↦ none | some rs ↦ some (r ∷ rs) ]
]

abbrev pub slice : {T : Type 0} → List T → ℕ → ℕ → List T
slice items i n = take n (drop i items)

abbrev pub ended : {T R : Type 0} → List (List T) → Outcome R → Trace T R
ended chunks o = record { chunks = chunks; delays = 0; outcome = o }

abbrev pub after : {T R : Type 0} → List T → ℕ → Trace T R → Trace T R
after chunk pause rest = record {
  chunks = chunk ∷ rest.chunks;
  delays = pause + rest.delays;
  outcome = rest.outcome;
}

module _ {T R : Type 0} (items : List T) (op : T → Option R) (n : ℕ) where
  -- The loop of `executeWithConcurrencyLimit`.
  unfoldable pub limit_loop : ℕ → ℕ → List R → Trace T R
  limit_loop zero i results = ended [] unfinished
  limit_loop (suc fuel) i results =
      if ltb i (length items)
      then elim (settle_all op (slice items i n)) [
        | none ↦ ended (slice items i n ∷ []) rejected
        | some rs ↦ after (slice items i n) 0 (limit_loop fuel (i + n) (results ++ rs))
      ]
      else ended [] (resolved results)

  -- The loop of `executeWithChunksAndDelay`, which pauses between two chunks.
  unfoldable pub delay_loop : ℕ → ℕ → ℕ → List R → Trace T R
  delay_loop delay_ms zero i results = ended [] unfinished
  delay_loop delay_ms (suc fuel) i results =
      if ltb i (length items)
      then elim (settle_all op (slice items i n)) [
        | none ↦ ended (slice items i n ∷ []) rejected
        | some rs ↦
            after (slice items i n) (if ltb (i + n) (length items) && ltb 0 delay_ms then 1 else 0)
              (delay_loop delay_ms fuel (i + n) (results ++ rs))
      ]
      else ended [] (resolved results)

unfoldable pub execute_with_concurrency_limit :
    {T R : Type 0} → ℕ → List T → (T → Option R) → ℕ → Trace T R
unfolding limit_loop
execute_with_concurrency_limit fuel [] op concurrency_limit = ended [] (resolved [])
execute_with_concurrency_limit fuel (x ∷ xs) op concurrency_limit =
    limit_loop (x ∷ xs) op concurrency_limit fuel 0 []

unfoldable pub execute_with_chunks_and_delay :
    {T R : Type 0} → ℕ → List T → (T → Option R) → ℕ → ℕ → Trace T R
unfolding delay_loop
execute_with_chunks_and_delay fuel [] op chunk_size delay_ms = ended [] (resolved [])
execute_with_chunks_and_delay fuel (x ∷ xs) op chunk_size delay_ms =
    delay_loop (x ∷ xs) op chunk_size delay_ms fuel 0 []
