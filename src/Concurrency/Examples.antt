-- ===== src/Concurrency/Examples.antt =====
-- Tests of the chunked loops, and their theorems at concrete inputs.
use mx_api_service.Base.{
  ℕ, ◌≡◌, ◌+◌, refl, List, [], ◌∷◌, Option, none, some, arith, leb, if◌then◌else◌,
}
use mx_api_service.Concurrency.{
  resolved, settle_all, execute_with_concurrency_limit, execute_with_chunks_and_delay,
}
use mx_api_service.Concurrency.Chunks.{
  settled, execute_with_chunks_and_delay-settle_all,
  execute_with_concurrency_limit-execute_with_chunks_and_delay,
}

abbrev items : List ℕ
items = 1 ∷ 2 ∷ 3 ∷ 4 ∷ 5 ∷ []

-- Rejects what is above 8.
abbrev double : ℕ → Option ℕ
double n = if leb n 8 then some (n + n) else none

chunks_test : execute_with_chunks_and_delay 9 items double 2 100 ≡ record {
  chunks = (1 ∷ 2 ∷ []) ∷ (3 ∷ 4 ∷ []) ∷ (5 ∷ []) ∷ [];
  delays = 2;
  outcome = resolved (2 ∷ 4 ∷ 6 ∷ 8 ∷ 10 ∷ []);
}
unfolding execute_with_chunks_and_delay settle_all
chunks_test = refl

rejects_test :
    (execute_with_concurrency_limit 9 (1 ∷ 9 ∷ 2 ∷ []) double 1).chunks ≡ (1 ∷ []) ∷ (9 ∷ []) ∷ []
unfolding execute_with_concurrency_limit settle_all
rejects_test = refl

resolves :
    (execute_with_chunks_and_delay 9 items double 2 100).outcome
    ≡ resolved (2 ∷ 4 ∷ 6 ∷ 8 ∷ 10 ∷ [])
unfolding execute_with_chunks_and_delay settle_all
resolves = refl

execute_with_chunks_and_delay-settle_all_example :
    (execute_with_chunks_and_delay 9 items double 2 100).outcome ≡ settled (settle_all double items)
execute_with_chunks_and_delay-settle_all_example =
    execute_with_chunks_and_delay-settle_all double items 2 9 100 (omega arith) (omega arith)

execute_with_concurrency_limit-execute_with_chunks_and_delay_example :
    execute_with_concurrency_limit 9 items double 2
    ≡ execute_with_chunks_and_delay 9 items double 2 0
execute_with_concurrency_limit-execute_with_chunks_and_delay_example =
    execute_with_concurrency_limit-execute_with_chunks_and_delay double items 2 9
