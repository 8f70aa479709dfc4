-- ===== src/Processor/Order.antt =====
-- Which transactions the processing sends, and when.
use mx_api_service.Base.{
  ℕ, ◌+◌, ◌≡◌, refl, ◌∙◌, ◌⊎◌, inl, inr, true, List, [], ◌∷◌, map, some, String, ◌==◌,
  text_comparable, length, leb, get_elem?, take, arith, Bool-cases, Option-cases,
}
use mx_api_service.Batch.{
  get_address, ItemStatus, BatchStatus, TransactionBatch, TransactionBatchItem,
  TransactionBatchGroup, TransactionDetails, is_item_success, is_item_invalid, is_batch_pending,
}
use mx_api_service.Batch.World.{Environment, World, Flow, ok, thrown, then_do, world_of}
use mx_api_service.Batch.Service.{
  start_transaction_group, execute_items, pending_value, pending_hashes,
}
use mx_api_service.Batch.Service.Sending.{
  send_all, tx_of, execute_items-reached, store_pending-sent,
}
use mx_api_service.Processor.{
  group_items, set_item, set_group, all_success, invalid_items, hash_of, advance, start_next,
  after_start, save, process_item,
}

module _ {Store : Type 0} (env : Environment Store) where
  start_transaction_group-sent :
      (now : String) (batch : TransactionBatch) (group : TransactionBatchGroup) (w : World Store)
      → (world_of (start_transaction_group env now batch group w)).sent
        ≡ (execute_items env group.items w).world.sent
  unfolding start_transaction_group
  start_transaction_group-sent now batch group w = elim (Option-cases (get_address batch)) [
    | inl e ↦ rw (e, start_transaction_group) refl
    | inr (address, e) ↦
        let x = execute_items env group.items w in
        rw (e, start_transaction_group)
          (store_pending-sent env (pending_value batch.id address now) (pending_hashes x.results)
            x.world).0
  ]

  after_start-sent :
      (batch : TransactionBatch) (w : World Store) (items : List TransactionBatchItem)
      (batch_id : String)
      → (world_of (after_start env batch w items batch_id)).sent ≡ w.sent
  unfolding after_start
  after_start-sent batch w [] batch_id = refl
  after_start-sent batch w (item ∷ items) batch_id = elim (Option-cases (get_address batch)) [
    | inl e ↦ rw (e, after_start) refl
    | inr (a, e) ↦ rw (e, after_start) refl
  ]

  world_of-then_do :
      {A B : Type 0}
      → (m : Flow Store A) (k : A → World Store → Flow Store B)
      → ((a : A) (w : World Store) → (world_of (k a w)).sent ≡ w.sent)
      → (world_of (then_do m k)).sent ≡ (world_of m).sent
  world_of-then_do (ok a w) k h = h a w
  world_of-then_do (thrown w) k h = refl

  module _ (now tx_hash batch_id address : String) (status : ItemStatus) where
    start_next-sent :
        (i : ℕ) (batch : TransactionBatch) (w : World Store)
        → ((world_of (start_next env now batch_id i batch w)).sent ≡ w.sent)
          ⊎ ((group : TransactionBatchGroup) × (get_elem? batch.groups (i + 1) ≡ some group)
              × ((world_of (start_next env now batch_id i batch w)).sent
                  ≡ (execute_items env group.items w).world.sent))
    unfolding start_next
    start_next-sent i batch w = elim (Option-cases (get_elem? batch.groups (i + 1))) [
      | inl e ↦ inl (rw (e, start_next) refl)
      | inr (group, e) ↦ inr (
        group,
        e,
        rw (e, start_next)
            (world_of-then_do (start_transaction_group env now batch group w) _ (λ g w'.
                after_start-sent (set_group batch (i + 1) g) w' (invalid_items g.items) batch_id)
              ∙ start_transaction_group-sent now batch group w),
      )
    ]

    -- The next group is sent only from a pending batch, on a success, when the group at hand has
    -- succeeded as a whole.
    pub data Advances (i : ℕ) (batch : TransactionBatch) (w : World Store)
        (sent' : List TransactionDetails) : Type 0 where
      nothing_sent : sent' ≡ w.sent → Advances i batch w sent'
      next_group_sent :
          (group : TransactionBatchGroup)
          → batch.status ≡ BatchStatus.pending
          → status ≡ ItemStatus.success
          → all_success (group_items batch i) ≡ true
          → get_elem? batch.groups (i + 1) ≡ some group
          → sent'
            ≡ send_all
                (map tx_of (take (length (execute_items env group.items w).results) group.items))
                w.sent
          → Advances i batch w sent'

    save-sent :
        (b : TransactionBatch) (w : World Store) → (save env address batch_id b w).sent ≡ w.sent
    unfolding save
    save-sent b w = refl

    advance-Advances :
        (i : ℕ) (batch : TransactionBatch) (w : World Store)
        → Advances i batch w (world_of (advance env now batch_id status i batch w)).sent
    unfolding advance
    advance-Advances i batch w = elim (Bool-cases (is_batch_pending batch.status)) [
      | inr f ↦ nothing_sent (rw f refl)
      | inl f ↦ elim (Bool-cases (is_item_invalid status)) [
        | inl g ↦ nothing_sent (rw (f, g) refl)
        | inr g ↦ elim (Bool-cases (is_item_success status)) [
          | inr s ↦ nothing_sent (rw (f, g, s) refl)
          | inl s ↦ elim (Bool-cases (all_success (group_items batch i))) [
            | inr a ↦ nothing_sent (rw (f, g, s, a) refl)
            | inl a ↦ elim (Bool-cases (leb (length batch.groups) (i + 1))) [
              | inl l ↦ nothing_sent (rw (f, g, s, a, l) refl)
              | inr l ↦ elim (start_next-sent i batch w) [
                | inl n ↦ nothing_sent (rw (f, g, s, a, l) n)
                | inr (group, e, n) ↦
                    next_group_sent group (ground arith) (ground arith) a e
                      (rw (f, g, s, a, l) (n ∙ (execute_items-reached env group.items w).1))
              ]
            ]
          ]
        ]
      ]
    ]

    -- One step of the processing sends nothing, or it sends the transactions of the next group, in
    -- order and up to the first that is refused; then the batch was pending, the transaction that is
    -- processed belongs to group `i` and succeeded, and with it all of group `i` has succeeded.
    pub process_item-Advances :
        (i j : ℕ) (batch : TransactionBatch) (w : World Store)
        → ((world_of (process_item env now tx_hash batch_id address status i j batch w)).sent
            ≡ w.sent)
          ⊎ ((item : TransactionBatchItem) × (get_elem? (group_items batch i) j ≡ some item)
              × (hash_of item ≡ tx_hash)
              × Advances i
                  (set_item batch i j (record item { status = status }))
                  w
                  (world_of
                    (process_item env now tx_hash batch_id address status i j batch w)).sent)
    unfolding process_item
    process_item-Advances i j batch w = elim (Option-cases (get_elem? (group_items batch i) j)) [
      | inl e ↦ inl (rw (e, process_item) refl)
      | inr (item, e) ↦ elim (Bool-cases (hash_of item == tx_hash)) [
        | inr other ↦ inl (rw (e, process_item, other) refl)
        | inl same ↦ inr (
          item,
          e,
          text_comparable.sound _ _ same,
          rw (e, process_item, same)
              (rw
                (world_of-then_do
                  (advance env now batch_id status i
                    (set_item batch i j (record item { status = status })) w)
                  _ (λ b w'. save-sent b w'))
                (advance-Advances i (set_item batch i j (record item { status = status })) w)),
        )
      ]
    ]
