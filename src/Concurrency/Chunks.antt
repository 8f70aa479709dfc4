-- ===== src/Concurrency/Chunks.antt =====
-- What the chunked loops compute.
use mx_api_service.Base.{
  ℕ, zero, suc, ◌+◌, ◌-◌, ◌≤◌, ◌<◌, ◌≡◌, refl, sym, ap, ◌∙◌, false, List, [], ◌∷◌, ◌++◌,
  append_assoc, append-nil, Option, none, some, arith, ltb, length, drop, length-take,
  take-append-drop, flatten, All, Bool-cases, Option-cases, inl, inr,
}
use mx_api_service.Concurrency.{
  Outcome, resolved, rejected, unfinished, settle_all, slice, limit_loop, delay_loop,
  execute_with_concurrency_limit, execute_with_chunks_and_delay,
}

drop-add : {T : Type 0} → (i n : ℕ) (xs : List T) → drop (i + n) xs ≡ drop n (drop i xs)
drop-add zero n xs = ap (λ k. drop k xs) (omega arith)
drop-add (suc i) n [] = drop-nil (suc i + n) ∙ sym (drop-nil n)
  where
    drop-nil : {T : Type 0} (k : ℕ) → drop {A = T} k [] ≡ []
    drop-nil zero = refl
    drop-nil (suc k) = refl
drop-add (suc i) n (x ∷ xs) =
    ap (λ k. drop k (x ∷ xs)) (let e : suc i + n ≡ suc (i + n) = omega arith in e) ∙ drop-add i n xs

abbrev prepend : {R : Type 0} → List R → Option (List R) → Option (List R)
prepend rs none = none
prepend rs (some ss) = some (rs ++ ss)

prepend-nil : {R : Type 0} → (o : Option (List R)) → prepend [] o ≡ o
prepend-nil none = refl
prepend-nil (some rs) = refl

prepend-append :
    {R : Type 0}
    → (rs ss : List R) (o : Option (List R)) → prepend (rs ++ ss) o ≡ prepend rs (prepend ss o)
prepend-append rs ss none = refl
prepend-append rs ss (some ts) = ap some (append_assoc rs ss ts)

drop_all : {T : Type 0} → (i : ℕ) (xs : List T) → ltb i (length xs) ≡ false → drop i xs ≡ []
drop_all zero [] h = refl
drop_all zero (x ∷ xs) h = absurd (ground arith)
drop_all (suc i) [] h = refl
drop_all (suc i) (x ∷ xs) h = drop_all i xs (ground arith)

abbrev pub settled : {R : Type 0} → Option (List R) → Outcome R
settled none = rejected
settled (some rs) = resolved rs

module _ {T R : Type 0} (op : T → Option R) where
  settle_all-append_none :
      (xs ys : List T) → settle_all op xs ≡ none → settle_all op (xs ++ ys) ≡ none
  unfolding settle_all
  settle_all-append_none [] ys h = cc
  settle_all-append_none (x ∷ xs) ys h = ground (arith, settle_all-append_none xs ys)

  settle_all-append_some :
      (xs ys : List T) (rs : List R)
      → settle_all op xs ≡ some rs
      → settle_all op (xs ++ ys) ≡ prepend rs (settle_all op ys)
  unfolding settle_all
  settle_all-append_some [] ys rs h = ground arith
  settle_all-append_some (x ∷ xs) ys rs h = elim (Option-cases (settle_all op xs)) [
    | inl e ↦ ground (arith, settle_all-append_none xs ys e)
    | inr (ss, e) ↦ ground (arith, settle_all-append_some xs ys ss e)
  ]

  module _ (items : List T) (n : ℕ) where
    slice-none :
        (i : ℕ) → settle_all op (slice items i n) ≡ none → settle_all op (drop i items) ≡ none
    slice-none i h =
        let whole = settle_all-append_none (slice items i n) (drop n (drop i items)) h in
        rw (take-append-drop n (drop i items)) at whole

    slice-some :
        (i : ℕ) (rs : List R)
        → settle_all op (slice items i n) ≡ some rs
        → settle_all op (drop i items) ≡ prepend rs (settle_all op (drop (i + n) items))
    slice-some i rs h =
        let whole = settle_all-append_some (slice items i n) (drop n (drop i items)) rs h in
        rw (drop-add i n items) (rw (take-append-drop n (drop i items)) at whole)

    slice-size : (i : ℕ) → length (slice items i n) ≤ n
    slice-size i = omega (arith, length-take n (drop i items))

    module _ (delay_ms : ℕ) where
      -- With fuel for the items that are left, the loop adds their results to those it has.
      delay_loop-outcome :
          (fuel i : ℕ) (results : List R)
          → 0 < n
          → length items - i < fuel
          → (delay_loop items op n delay_ms fuel i results).outcome
            ≡ settled (prepend results (settle_all op (drop i items)))
      unfolding delay_loop settle_all
      delay_loop-outcome zero i results p b = absurd (omega arith)
      delay_loop-outcome (suc fuel) i results p b = elim (Bool-cases (ltb i (length items))) [
        | inl more ↦ elim (Option-cases (settle_all op (slice items i n))) [
          | inl e ↦ rw (more, e, slice-none i e) refl
          | inr (rs, e) ↦
              rw (more, e, slice-some i rs e, ← prepend-append results rs _)
                (delay_loop-outcome fuel (i + n) (results ++ rs) p (ground arith))
        ]
        | inr done ↦ rw (done, drop_all i items done) (ap resolved (sym (append-nil results)))
      ]

      delay_loop-size :
          (fuel i : ℕ) (results : List R)
          → All (λ chunk. length chunk ≤ n) (delay_loop items op n delay_ms fuel i results).chunks
      unfolding delay_loop
      delay_loop-size zero i results = tt
      delay_loop-size (suc fuel) i results = elim (Bool-cases (ltb i (length items))) [
        | inl more ↦ elim (Option-cases (settle_all op (slice items i n))) [
          | inl e ↦ rw (more, e) (slice-size i, tt)
          | inr (rs, e) ↦ rw (more, e) (slice-size i, delay_loop-size fuel (i + n) (results ++ rs))
        ]
        | inr done ↦ rw done tt
      ]

      -- The chunks that were started, in order, are a part of the items from `i` on that ends only
      -- where the loop ends.
      delay_loop-cover :
          (fuel i : ℕ) (results rs : List R)
          → (delay_loop items op n delay_ms fuel i results).outcome ≡ resolved rs
          → flatten (delay_loop items op n delay_ms fuel i results).chunks ≡ drop i items
      unfolding delay_loop flatten
      delay_loop-cover zero i results rs h = cc
      delay_loop-cover (suc fuel) i results rs h = elim (Bool-cases (ltb i (length items))) [
        | inl more ↦ elim (Option-cases (settle_all op (slice items i n))) [
          | inl e ↦ absurd (ground arith)
          | inr (ss, e) ↦
              let rest = delay_loop-cover fuel (i + n) (results ++ ss) rs (rw (more, e) at h) in
              rw (more, e, rest, drop-add i n items) (take-append-drop n (drop i items))
        ]
        | inr done ↦ rw (done, drop_all i items done) refl
      ]

      delay_loop-end :
          (fuel i : ℕ) (results rs : List R)
          → ltb i (length items) ≡ false
          → (delay_loop items op n delay_ms fuel i results).outcome ≡ resolved rs
          → (length (delay_loop items op n delay_ms fuel i results).chunks ≡ 0)
            × ((delay_loop items op n delay_ms fuel i results).delays ≡ 0)
      unfolding delay_loop
      delay_loop-end zero i results rs done h = cc
      delay_loop-end (suc fuel) i results rs done h = rw done (refl, refl)

      delay_loop-delays :
          (fuel i : ℕ) (results rs : List R)
          → 0 < delay_ms
          → i < length items
          → (delay_loop items op n delay_ms fuel i results).outcome ≡ resolved rs
          → (delay_loop items op n delay_ms fuel i results).delays + 1
            ≡ length (delay_loop items op n delay_ms fuel i results).chunks
      unfolding delay_loop
      delay_loop-delays zero i results rs p b h = cc
      delay_loop-delays (suc fuel) i results rs p b h =
          elim (Option-cases (settle_all op (slice items i n))) [
            | inl e ↦ absurd (ground arith)
            | inr (ss, e) ↦ elim (Bool-cases (ltb (i + n) (length items))) [
              | inl more ↦
                  ground (arith, e, more, delay_loop-delays fuel (i + n) (results ++ ss) rs p)
              | inr done ↦
                  ground (arith, e, done, delay_loop-end fuel (i + n) (results ++ ss) rs done)
            ]
          ]

    limit_loop-delay_loop :
        (fuel i : ℕ) (results : List R)
        → limit_loop items op n fuel i results ≡ delay_loop items op n 0 fuel i results
    unfolding limit_loop delay_loop
    limit_loop-delay_loop zero i results = refl
    limit_loop-delay_loop (suc fuel) i results =
        elim (Option-cases (settle_all op (slice items i n))) [
          | inl e ↦ rw e refl
          | inr (rs, e) ↦ rw (e, limit_loop-delay_loop fuel (i + n) (results ++ rs)) (ground arith)
        ]

module _ {T R : Type 0} (op : T → Option R) where
  -- With a positive chunk size and more fuel than items the loop ends, and its result is that of
  -- `Promise.all` over all items at once: the results in the order of the items, or a rejection if
  -- the operation rejects one.
  pub execute_with_chunks_and_delay-settle_all :
      (items : List T) (n fuel delay_ms : ℕ)
      → 0 < n
      → length items < fuel
      → (execute_with_chunks_and_delay fuel items op n delay_ms).outcome
        ≡ settled (settle_all op items)
  unfolding execute_with_chunks_and_delay settle_all
  execute_with_chunks_and_delay-settle_all [] n fuel delay_ms p b = refl
  execute_with_chunks_and_delay-settle_all (x ∷ xs) n fuel delay_ms p b =
      delay_loop-outcome op (x ∷ xs) n delay_ms fuel 0 [] p (omega arith)
      ∙ ap settled (prepend-nil (settle_all op (x ∷ xs)))

  -- The variant without pauses does the same as the one with a pause of 0 ms: it starts the same
  -- chunks and has the same result.
  pub execute_with_concurrency_limit-execute_with_chunks_and_delay :
      (items : List T) (n fuel : ℕ)
      → execute_with_concurrency_limit fuel items op n
        ≡ execute_with_chunks_and_delay fuel items op n 0
  unfolding execute_with_concurrency_limit execute_with_chunks_and_delay
  execute_with_concurrency_limit-execute_with_chunks_and_delay [] n fuel = refl
  execute_with_concurrency_limit-execute_with_chunks_and_delay (x ∷ xs) n fuel =
      limit_loop-delay_loop op (x ∷ xs) n fuel 0 []

  -- If the run resolves, no chunk is larger than the limit, and the chunks are the items in their
  -- order, each exactly once.
  pub execute_with_chunks_and_delay-chunks :
      (items : List T) (n fuel delay_ms : ℕ) (rs : List R)
      → (execute_with_chunks_and_delay fuel items op n delay_ms).outcome ≡ resolved rs
      → All
          (λ chunk. length chunk ≤ n)
          (execute_with_chunks_and_delay fuel items op n delay_ms).chunks
        × (flatten (execute_with_chunks_and_delay fuel items op n delay_ms).chunks ≡ items)
  unfolding execute_with_chunks_and_delay flatten
  execute_with_chunks_and_delay-chunks [] n fuel delay_ms rs h = (tt, refl)
  execute_with_chunks_and_delay-chunks (x ∷ xs) n fuel delay_ms rs h = (
    delay_loop-size op (x ∷ xs) n delay_ms fuel 0 [],
    delay_loop-cover op (x ∷ xs) n delay_ms fuel 0 [] rs h,
  )

  -- With a positive delay a run that resolves pauses between any two chunks, and not after the last.
  pub execute_with_chunks_and_delay-delays :
      (items : List T) (n fuel delay_ms : ℕ) (rs : List R)
      → 0 < delay_ms
      → 0 < length items
      → (execute_with_chunks_and_delay fuel items op n delay_ms).outcome ≡ resolved rs
      → (execute_with_chunks_and_delay fuel items op n delay_ms).delays + 1
        ≡ length (execute_with_chunks_and_delay fuel items op n delay_ms).chunks
  unfolding execute_with_chunks_and_delay
  execute_with_chunks_and_delay-delays [] n fuel delay_ms rs p b h = absurd (omega arith)
  execute_with_chunks_and_delay-delays (x ∷ xs) n fuel delay_ms rs p b h =
      delay_loop-delays op (x ∷ xs) n delay_ms fuel 0 [] rs p b h

  limit_loop_zero :
      (x : T) (xs : List T) (fuel : ℕ) (results : List R)
      → (limit_loop (x ∷ xs) op 0 fuel 0 results).outcome ≡ unfinished
  unfolding limit_loop settle_all
  limit_loop_zero x xs zero results = refl
  limit_loop_zero x xs (suc fuel) results =
      ground (arith, limit_loop_zero x xs fuel (results ++ []))

  -- A chunk size of 0 makes no progress: on a list with an item the loop never ends.
  pub execute_with_concurrency_limit_zero :
      (x : T) (xs : List T) (fuel : ℕ)
      → (execute_with_concurrency_limit fuel (x ∷ xs) op 0).outcome ≡ unfinished
  unfolding execute_with_concurrency_limit
  execute_with_concurrency_limit_zero x xs fuel = limit_loop_zero x xs fuel []
