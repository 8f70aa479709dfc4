-- ===== src/Processor/Saved.antt =====
-- The cache after a transaction was processed.
use mx_api_service.Base.{
  ℕ, ◌≡◌, refl, some, String, ◌==◌, text_comparable, get_elem?, Bool-cases, Option-cases, inl, inr,
}
use mx_api_service.CacheInfo
use mx_api_service.CacheInfo.{pending_transaction-ne-transaction_batch}
use mx_api_service.Batch.{ItemStatus, TransactionBatch}
use mx_api_service.Batch.World.{
  batch_value, as_batch, Environment, World, Ends-then_do, Ends-any, Ensures,
}
use mx_api_service.Processor.{
  group_items, set_item, hash_of, advance, process_item, process_transaction,
}
use mx_api_service.Processor.Steps.{process_transaction-Ends}

module _ {Store : Type 0} (env : Environment Store) (now tx_hash batch_id address : String)
    (status : ItemStatus) where
  abbrev IsSaved : TransactionBatch → World Store → Type 0
  IsSaved b w =
      as_batch (env.get w.store (CacheInfo.transaction_batch address batch_id).key) ≡ some b

  process_item-IsSaved :
      (i j : ℕ) (batch : TransactionBatch) (w : World Store)
      → IsSaved batch w
      → Ensures (process_item env now tx_hash batch_id address status i j batch w) IsSaved
  unfolding process_item
  process_item-IsSaved i j batch w h = elim (Option-cases (get_elem? (group_items batch i) j)) [
    | inl e ↦ rw (e, process_item) h
    | inr (item, e) ↦ elim (Bool-cases (hash_of item == tx_hash)) [
      | inl same ↦
          let run =
            advance env now batch_id status i (set_item batch i j (record item { status = status }))
              w in
          let info = CacheInfo.transaction_batch address batch_id in
          rw (e, process_item, same)
            (Ends-then_do run _ (λ b w'. Unit {0}) IsSaved (λ w'. Unit {0}) (Ends-any run)
              (λ b w' u. rw (env.get-set w'.store info.key (batch_value b) info.ttl) refl))
      | inr other ↦ rw (e, process_item, other) h
    ]
  ]

  -- If the processing of a transaction of a cached batch ends without an exception, the cache has
  -- the batch as the processing left it.
  pub process_transaction-IsSaved :
      (batch : TransactionBatch) (w : World Store)
      → as_batch (env.get w.store (CacheInfo.transaction_batch address batch_id).key) ≡ some batch
      → Ensures (process_transaction env now tx_hash batch_id address status w) (λ o w'.
        as_batch (env.get w'.store (CacheInfo.transaction_batch address batch_id).key) ≡ o)
  process_transaction-IsSaved batch w e =
      process_transaction-Ends env now tx_hash batch_id address status IsSaved (λ w'. Unit {0})
        process_item-IsSaved _ _ batch w e e
        (λ b w' h.
          rw
            (env.get-delete_ne w'.store _ _
              (pending_transaction-ne-transaction_batch tx_hash address batch_id))
            h)
        (λ w' u. tt)
