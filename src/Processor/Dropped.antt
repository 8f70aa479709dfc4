-- ===== src/Processor/Dropped.antt =====
-- `handleDroppedTransactions` of the processor: a transaction that has been pending for more than ten
-- minutes and that the network does not know is dropped.
pub mod Laws
use Prim.Native.Char.{code}
use mx_api_service.Base.{
  ℕ, suc, ◌+◌, ◌-◌, Bool, true, false, ◌&&◌, List, [], ◌∷◌, ◌++◌, map, Option, none, some, String,
  ◌==◌, text_comparable, if◌then◌else◌, leb, nat_beq,
}
use mx_api_service.CacheInfo
use mx_api_service.Batch.{
  ItemStatus, BatchStatus, TransactionBatchItem, TransactionBatchGroup, TransactionBatch,
  is_item_pending,
}
use mx_api_service.Batch.World.{
  as_batch, Environment, World, Flow, ok, thrown, then_do, Lookup, found, missing, failed,
}
use mx_api_service.Processor.{hash_of, save}
use mx_api_service.Processor.Jobs.{Pending, Processed, read_pending, group_by_batch, emit_all}

-- The item waits for the transaction with this hash.
abbrev pub waits_for : String → TransactionBatchItem → Bool
waits_for hash item = hash_of item == hash && is_item_pending item.status

abbrev pub dropped_item : TransactionBatchItem → TransactionBatchItem
dropped_item item = record item { status = ItemStatus.dropped }

-- Where the loops stand: the status of the batch, the world, and how many items were dropped.
pub record Dropping (Store : Type 0) : Type 0 where
  pub status : BatchStatus
  pub world : World Store
  pub count : ℕ

module _ {Store : Type 0} (env : Environment Store) (hash batch_id address : String) where
  -- The statements for an item that is dropped; `batch` is the batch with the change made.
  unfoldable pub drop_item : TransactionBatch → Dropping Store → Dropping Store
  unfolding save
  drop_item batch d =
      let w = save env address batch_id batch d.world in
      record {
        status = BatchStatus.dropped;
        world = record w { store = env.delete w.store (CacheInfo.pending_transaction hash).key };
        count = d.count + 1;
      }

  -- The inner loop, over the items that follow `done`; `rebuild` gives the batch for the items of the
  -- group and the status.
  unfoldable pub drop_items :
      (List TransactionBatchItem → BatchStatus → TransactionBatch)
      → List TransactionBatchItem
      → List TransactionBatchItem
      → Dropping Store
      → List TransactionBatchItem × Dropping Store
  unfolding drop_item
  drop_items rebuild done [] d = (done, d)
  drop_items rebuild done (item ∷ items) d =
      let item' = if waits_for hash item then dropped_item item else item in
      drop_items rebuild (done ++ item' ∷ []) items (
        if waits_for hash item
        then drop_item (rebuild (done ++ item' ∷ items) BatchStatus.dropped) d
        else d)

  -- The outer loop, over the groups that follow `done`.
  unfoldable pub drop_groups :
      TransactionBatch
      → List TransactionBatchGroup
      → List TransactionBatchGroup
      → Dropping Store
      → Dropping Store
  unfolding drop_items
  drop_groups batch done [] d = d
  drop_groups batch done (group ∷ groups) d =
      let (items, d') =
        drop_items
          (λ items s. record batch {
            groups = done ++ record { items = items } ∷ groups;
            status = s;
          })
          [] group.items d in
      drop_groups batch (done ++ record { items = items } ∷ []) groups d'

  unfoldable pub drop_in_batch : World Store → Dropping Store
  unfolding drop_groups
  drop_in_batch w =
      elim (as_batch (env.get w.store (CacheInfo.transaction_batch address batch_id).key)) [
        | none ↦ record { status = BatchStatus.pending; world = w; count = 0 }
        | some batch ↦
            drop_groups batch [] batch.groups
              (record { status = batch.status; world = w; count = 0 })
      ]

abbrev copies : ℕ → Processed → List Processed
copies ℕ.zero p = []
copies (ℕ.suc n) p = p ∷ copies n p

-- Ten minutes, in milliseconds.
abbrev pub ten_minutes : ℕ
ten_minutes = 600_000

-- `key.replace(prefix, '')` for a key that begins with the prefix, as those of `getKeys` do.
unfoldable pub remove_prefix : String → String → String
remove_prefix String.[] t = t
remove_prefix (String.◌∷◌ c p) String.[] = String.[]
remove_prefix (String.◌∷◌ c p) (String.◌∷◌ d t) =
    if nat_beq (code c) (code d) then remove_prefix p t else String.◌∷◌ d t

module _ {Store : Type 0} (env : Environment Store) where
  -- One round of the loop. A date that cannot be read passes the test on the age, and its
  -- `toISOString()` then throws, outside of the `try`.
  unfoldable pub drop_one : ℕ → String → Pending → World Store → Flow Store (List Processed)
  unfolding drop_in_batch
  drop_one now hash p w = elim p.date [
    | none ↦ thrown w
    | some date ↦
        if leb (now - date) ten_minutes then ok [] w else elim (env.get_transaction hash) [
          | found ↦ ok [] w
          | failed ↦ ok [] w
          | missing ↦
              let d = drop_in_batch env hash p.batch_id p.address w in
              ok
                (copies d.count
                  (record { batch_id = p.batch_id; hash = hash; address = p.address }))
                d.world
        ]
  ]

  unfoldable pub drop_each : ℕ → List (String × Pending) → World Store → Flow Store (List Processed)
  unfolding drop_one
  drop_each now [] w = ok [] w
  drop_each now ((hash, p) ∷ pending) w =
      then_do (drop_one now hash p w)
        λ ps w'. then_do (drop_each now pending w') λ qs w''. ok (ps ++ qs) w''

  unfoldable pub handle_dropped_transactions : ℕ → World Store → Flow Store (Unit {0})
  unfolding drop_each read_pending group_by_batch emit_all remove_prefix
  handle_dropped_transactions now w =
      let keys = env.keys w.store (CacheInfo.pending_transaction "*").key in
      let pending = read_pending env (map (remove_prefix "pendingtransaction:") keys) w [] in
      then_do (drop_each now pending w)
        λ processed w'. ok tt (emit_all env (group_by_batch processed []) w')
