-- ===== src/Processor/Success.antt =====
-- When a batch becomes successful.
use mx_api_service.Base.{
  ℕ, zero, suc, ◌+◌, ◌-◌, ◌<◌, ◌≡◌, ◌≢◌, refl, ap, ◌⊎◌, inl, inr, true, List, [], ◌∷◌, none, some,
  String, ◌==◌, text_comparable, length, length-set, leb, get_elem?, set, arith, Bool-cases,
  Option-cases,
}
use mathlib.Core.Option
use mx_api_service.Batch.{
  get_address, ItemStatus, BatchStatus, TransactionBatch, TransactionBatchItem,
  TransactionBatchGroup, is_item_success, is_item_invalid, is_batch_pending,
}
use mx_api_service.Batch.World.{as_batch, Environment, World, Ends-then_do, Ends-any, Ensures}
use mx_api_service.CacheInfo
use mx_api_service.Batch.Service.{start_transaction_group}
use mx_api_service.Processor.{
  group_items, set_item, set_group, all_success, invalid_items, hash_of, advance, start_next,
  after_start, process_item, process_transaction,
}
use mx_api_service.Processor.Steps.{process_transaction-Ends}

-- The items of the last group.
abbrev pub last_items : TransactionBatch → List TransactionBatchItem
last_items b = group_items b (length b.groups - 1)

all_success-set :
    (xs : List TransactionBatchItem) (j : ℕ) (item : TransactionBatchItem)
    → is_item_success item.status ≡ true
    → all_success xs ≡ true
    → all_success (set xs j item) ≡ true
all_success-set [] j item s h = refl
all_success-set (x ∷ xs) zero item s h = ground arith
all_success-set (x ∷ xs) (suc j) item s h = ground (arith, all_success-set xs j item s)

abbrev items_at : List TransactionBatchGroup → ℕ → List TransactionBatchItem
items_at groups i = elim (get_elem? groups i) [ none ↦ [] | some group ↦ group.items ]

-- A write to one item changes at most that item of a group.
items_at-set :
    (groups : List TransactionBatchGroup) (i j k : ℕ) (item : TransactionBatchItem)
    → let groups' = set groups i (record { items = set (items_at groups i) j item }) in
      (items_at groups' k ≡ items_at groups k)
      ⊎ (items_at groups' k ≡ set (items_at groups k) j item)
items_at-set [] i j k item = inl refl
items_at-set (g ∷ gs) zero j zero item = inr refl
items_at-set (g ∷ gs) zero j (suc k) item = inl refl
items_at-set (g ∷ gs) (suc i) j zero item = inl refl
items_at-set (g ∷ gs) (suc i) j (suc k) item = items_at-set gs i j k item

last_items-set_item :
    (b : TransactionBatch) (i j : ℕ) (item : TransactionBatchItem)
    → is_item_success item.status ≡ true
    → all_success (last_items b) ≡ true
    → all_success (last_items (set_item b i j item)) ≡ true
last_items-set_item b i j item s h =
    rw (length-set b.groups i (record { items = set (group_items b i) j item }))
      (elim (items_at-set b.groups i j (length b.groups - 1) item) [
        | inl e ↦ rw e h
        | inr e ↦ rw e (all_success-set _ j item s h)
      ])

get_elem?-lt :
    {A : Type 0} → (xs : List A) (i : ℕ) (a : A) → get_elem? xs i ≡ some a → i < length xs
get_elem?-lt [] i a e = cc
get_elem?-lt (x ∷ xs) zero a e = omega arith
get_elem?-lt (x ∷ xs) (suc i) a e = omega (arith, get_elem?-lt xs i a e)

items_at-lt :
    (groups : List TransactionBatchGroup) (i j : ℕ) (item : TransactionBatchItem)
    → get_elem? (items_at groups i) j ≡ some item
    → i < length groups
items_at-lt [] i j item e = cc
items_at-lt (g ∷ gs) zero j item e = omega arith
items_at-lt (g ∷ gs) (suc i) j item e = omega (arith, items_at-lt gs i j item e)

pending-ne-success : (s : BatchStatus) → is_batch_pending s ≡ true → s ≢ BatchStatus.success
pending-ne-success s h = ground arith

last_index : (n i : ℕ) → i < n → leb n (i + 1) ≡ true → i ≡ n - 1
last_index n i b h = ground arith

module _ {Store : Type 0} (env : Environment Store) (now tx_hash batch_id address : String)
    (status : ItemStatus) where
  -- Where the batch is successful, so are the transaction and all items of the last group.
  abbrev IsSound : TransactionBatch → World Store → Type 0
  IsSound b w =
      (b.status ≢ BatchStatus.success)
      ⊎ ((is_item_success status ≡ true) × (all_success (last_items b) ≡ true))

  after_start-IsSound :
      (batch : TransactionBatch) (w : World Store) (items : List TransactionBatchItem)
      → batch.status ≢ BatchStatus.success
      → Ensures (after_start env batch w items batch_id) IsSound
  unfolding after_start
  after_start-IsSound batch w [] p = inl p
  after_start-IsSound batch w (item ∷ items) p = elim (Option-cases (get_address batch)) [
    | inl e ↦ rw (e, after_start) tt
    | inr (a, e) ↦ rw (e, after_start) (inl (λ q. cc))
  ]

  start_next-IsSound :
      (i : ℕ) (batch : TransactionBatch) (w : World Store)
      → batch.status ≢ BatchStatus.success
      → Ensures (start_next env now batch_id i batch w) IsSound
  unfolding start_next
  start_next-IsSound i batch w p = elim (Option-cases (get_elem? batch.groups (i + 1))) [
    | inl e ↦ rw (e, start_next) tt
    | inr (group, e) ↦
        let run = start_transaction_group env now batch group w in
        rw (e, start_next)
          (Ends-then_do run _ (λ g w'. Unit {0}) IsSound (λ w'. Unit {0}) (Ends-any run)
            (λ g w' u.
              after_start-IsSound (set_group batch (i + 1) g) w' (invalid_items g.items) p))
  ]

  advance-IsSound :
      (i : ℕ) (batch : TransactionBatch) (w : World Store)
      → i < length batch.groups
      → IsSound batch w
      → Ensures (advance env now batch_id status i batch w) IsSound
  unfolding advance
  advance-IsSound i batch w b h = elim (Bool-cases (is_batch_pending batch.status)) [
    | inr f ↦ rw f h
    | inl f ↦ elim (Bool-cases (is_item_invalid status)) [
      | inl g ↦ rw (f, g) (inl (λ q. cc))
      | inr g ↦ elim (Bool-cases (is_item_success status)) [
        | inr s ↦ rw (f, g, s) h
        | inl s ↦ elim (Bool-cases (all_success (group_items batch i))) [
          | inr a ↦ rw (f, g, s, a) h
          | inl a ↦ elim (Bool-cases (leb (length batch.groups) (i + 1))) [
            | inl l ↦
                let last : i ≡ length batch.groups - 1 = last_index _ i b l in
                rw (f, g, s, a, l) (inr (s, rw last at a))
            | inr l ↦
                let p : batch.status ≢ BatchStatus.success = pending-ne-success _ f in
                rw (f, g, s, a, l) (start_next-IsSound i batch w p)
          ]
        ]
      ]
    ]
  ]

  set_item-IsSound :
      (i j : ℕ) (batch : TransactionBatch) (w : World Store) (item : TransactionBatchItem)
      → IsSound batch w
      → IsSound (set_item batch i j (record item { status = status })) w
  set_item-IsSound i j batch w item (inl p) = inl p
  set_item-IsSound i j batch w item (inr (s, h)) =
      inr (s, last_items-set_item batch i j (record item { status = status }) s h)

  process_item-IsSound :
      (i j : ℕ) (batch : TransactionBatch) (w : World Store)
      → IsSound batch w
      → Ensures (process_item env now tx_hash batch_id address status i j batch w) IsSound
  unfolding process_item
  process_item-IsSound i j batch w h = elim (Option-cases (get_elem? (group_items batch i) j)) [
    | inl e ↦ rw (e, process_item) h
    | inr (item, e) ↦ elim (Bool-cases (hash_of item == tx_hash)) [
      | inr other ↦ rw (e, process_item, other) h
      | inl same ↦
          let batch' = set_item batch i j (record item { status = status }) in
          let run = advance env now batch_id status i batch' w in
          let bound : i < length batch'.groups =
            rw (length-set batch.groups i _) (items_at-lt batch.groups i j item e) in
          rw (e, process_item, same)
            (Ends-then_do run _ IsSound IsSound (λ w'. Unit {0})
              (advance-IsSound i batch' w bound (set_item-IsSound i j batch w item h))
              (λ b w' s. s))
    ]
  ]

  -- A pending batch becomes successful only if the transaction that was processed succeeded and
  -- every transaction of the last group has succeeded.
  pub process_transaction-IsSound :
      (batch : TransactionBatch) (w : World Store)
      → as_batch (env.get w.store (CacheInfo.transaction_batch address batch_id).key) ≡ some batch
      → batch.status ≡ BatchStatus.pending
      → Ensures (process_transaction env now tx_hash batch_id address status w) (λ o w'.
        (Option.map (λ (b : TransactionBatch). b.status) o ≢ some BatchStatus.success)
        ⊎ ((is_item_success status ≡ true)
            × (Option.map (λ b. all_success (last_items b)) o ≡ some true)))
  process_transaction-IsSound batch w e p =
      process_transaction-Ends env now tx_hash batch_id address status IsSound (λ w'. Unit {0})
        process_item-IsSound _ _ batch w e (inl (λ q. cc)) some_IsSound (λ w' u. tt)
    where
      some_IsSound :
          (b : TransactionBatch) (w' : World Store)
          → IsSound b w'
          → (some b.status ≢ some BatchStatus.success)
            ⊎ ((is_item_success status ≡ true) × (some (all_success (last_items b)) ≡ some true))
      some_IsSound b w' (inl n) = inl (λ q. n (ground arith))
      some_IsSound b w' (inr (s, h)) = inr (s, ap some h)
