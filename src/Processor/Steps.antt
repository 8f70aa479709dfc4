-- ===== src/Processor/Steps.antt =====
-- What the processing of one transaction does to its batch.
use mx_api_service.Base.{
  ℕ, zero, suc, ◌+◌, ◌≡◌, refl, ap, inl, inr, false, Option, none, some, String, ◌==◌,
  text_comparable, length, get_elem?, Bool-cases, Option-cases,
}
use mathlib.Core.Option
use mx_api_service.CacheInfo
use mx_api_service.Batch.{ItemStatus, BatchStatus, TransactionBatch, is_batch_pending}
use mx_api_service.Batch.World.{
  as_batch, Environment, World, Flow, ok, thrown, world_of, Ends, Returns, Ends-then_do,
  Ends-finally, Ends-map, finally,
}
use mx_api_service.Processor.{
  group_items, hash_of, process_item, process_items, process_groups, process_transaction,
}

world_of-finally :
    {Store A : Type 0}
    → (m : Flow Store A) (f : World Store → World Store) (P : World Store → Type 0)
    → ((w : World Store) → P (f w))
    → P (world_of (finally m f))
world_of-finally (ok a w) f P h = h w
world_of-finally (thrown w) f P h = h w

module _ {Store : Type 0} (env : Environment Store) (now tx_hash batch_id address : String)
    (status : ItemStatus) where
  -- The loops keep what their body keeps.
  module _ (P : TransactionBatch → World Store → Type 0) (Q : World Store → Type 0)
      (step : (i j : ℕ) (batch : TransactionBatch) (w : World Store)
        → P batch w
        → Ends (process_item env now tx_hash batch_id address status i j batch w) P Q) where
    process_items-Ends :
        (n i j : ℕ) (batch : TransactionBatch) (w : World Store)
        → P batch w
        → Ends (process_items env now tx_hash batch_id address status n i j batch w) P Q
    unfolding process_items
    process_items-Ends zero i j batch w h = h
    process_items-Ends (suc n) i j batch w h =
        Ends-then_do (process_item env now tx_hash batch_id address status i j batch w) _ P P Q
          (step i j batch w h) (λ b w' h'. process_items-Ends n i (j + 1) b w' h')

    process_groups-Ends :
        (n i : ℕ) (batch : TransactionBatch) (w : World Store)
        → P batch w
        → Ends (process_groups env now tx_hash batch_id address status n i batch w) P Q
    unfolding process_groups
    process_groups-Ends zero i batch w h = h
    process_groups-Ends (suc n) i batch w h =
        Ends-then_do
          (process_items env now tx_hash batch_id address status (length (group_items batch i)) i 0
            batch w)
          _ P P Q (process_items-Ends (length (group_items batch i)) i 0 batch w h)
          (λ b w' h'. process_groups-Ends n (i + 1) b w' h')

    -- What holds of the batch that the cache has holds of the batch at the end.
    pub process_transaction-Ends :
        (R : Option TransactionBatch → World Store → Type 0) (S : World Store → Type 0)
        (batch : TransactionBatch) (w : World Store)
        → let forget = λ (w' : World Store). record w' {
          store = env.delete w'.store (CacheInfo.pending_transaction tx_hash).key;
        } in
          as_batch (env.get w.store (CacheInfo.transaction_batch address batch_id).key) ≡ some batch
          → P batch w
          → ((b : TransactionBatch) (w' : World Store) → P b w' → R (some b) (forget w'))
          → ((w' : World Store) → Q w' → S (forget w'))
          → Ends (process_transaction env now tx_hash batch_id address status w) R S
    unfolding process_transaction
    process_transaction-Ends R S batch w e h f g =
        let forget = λ (w' : World Store). record w' {
          store = env.delete w'.store (CacheInfo.pending_transaction tx_hash).key;
        } in
        let run =
          process_groups env now tx_hash batch_id address status (length batch.groups) 0 batch w in
        Ends-finally _ forget R S (
          rw e (
            Ends-then_do run _ (λ b w'. R (some b) (forget w')) (λ o w'. R o (forget w'))
              (λ w'. S (forget w'))
              (Ends-map run P (λ b w'. R (some b) (forget w')) Q (λ w'. S (forget w')) f g
                (process_groups-Ends (length batch.groups) 0 batch w h))
              (λ b w' r. r)))

  -- A batch whose status is `s`, in a world where nothing was sent or emitted since `w`.
  abbrev pub Same : BatchStatus → World Store → TransactionBatch → World Store → Type 0
  Same s w b w' = (b.status ≡ s) × (w'.sent ≡ w.sent) × (w'.emitted ≡ w.emitted)

  process_item-Same :
      (s : BatchStatus) (w₀ : World Store)
      → is_batch_pending s ≡ false
      → (i j : ℕ) (batch : TransactionBatch) (w : World Store) → Same s w₀ batch w
      → Returns (process_item env now tx_hash batch_id address status i j batch w) (Same s w₀)
  unfolding process_item
  process_item-Same s w₀ f i j batch w h = elim (Option-cases (get_elem? (group_items batch i) j)) [
    | inl e ↦ rw (e, process_item) h
    | inr (item, e) ↦ elim (Bool-cases (hash_of item == tx_hash)) [
      | inl same ↦
          let done : is_batch_pending batch.status ≡ false = rw h.0 f in
          rw (e, process_item, same, done) h
      | inr other ↦ rw (e, process_item, other) h
    ]
  ]

  -- A batch that is no longer pending keeps its status, whatever a transaction of it comes to: the
  -- processing ends without an exception, no transaction is sent and no event is emitted.
  pub process_transaction-final :
      (batch : TransactionBatch) (w : World Store)
      → as_batch (env.get w.store (CacheInfo.transaction_batch address batch_id).key) ≡ some batch
      → is_batch_pending batch.status ≡ false
      → Returns (process_transaction env now tx_hash batch_id address status w) (λ o w'.
        (Option.map (λ (b : TransactionBatch). b.status) o ≡ some batch.status)
        × (w'.sent ≡ w.sent)
        × (w'.emitted ≡ w.emitted))
  process_transaction-final batch w e f =
      process_transaction-Ends (Same batch.status w) (λ w'. ⊥) (process_item-Same batch.status w f)
        _ _ batch w e (refl, refl, refl) (λ b w' h. (ap some h.0, h.1, h.2)) (λ w' h. h)

  -- However the processing ends, the transaction is no longer pending in the cache.
  pub process_transaction-forgets :
      (w : World Store)
      → env.get
          (world_of (process_transaction env now tx_hash batch_id address status w)).store
          (CacheInfo.pending_transaction tx_hash).key
        ≡ none
  unfolding process_transaction
  process_transaction-forgets w =
      world_of-finally _ _
        (λ w'. env.get w'.store (CacheInfo.pending_transaction tx_hash).key ≡ none)
        (λ w'. env.get-delete w'.store (CacheInfo.pending_transaction tx_hash).key)
