-- ===== src/Processor.antt =====
-- src/crons/transaction.processor/batch.transaction.processor.service.ts: the job that follows the
-- transactions of batches, from the blocks that it is handed and from the age of what is pending.
pub mod Steps
mod Examples
pub mod Success
pub mod Order
pub mod Saved
pub mod Jobs
pub mod Pending
pub mod Dropped
use mx_api_service.Base.{
  ℕ, zero, suc, ◌+◌, Bool, true, false, List, [], ◌∷◌, map, Option, none, some, String, ◌==◌,
  text_comparable, if◌then◌else◌, leb, length, get_elem?, set, select, every,
}
use mx_api_service.CacheInfo
use mx_api_service.Batch.{
  Transaction, ItemStatus, BatchStatus, TransactionBatchItem, TransactionBatchGroup,
  TransactionBatch, is_item_invalid, is_item_success, is_batch_pending, get_address,
}
use mx_api_service.Batch.World.{
  batch_value, as_batch, Environment, BatchUpdated, World, Flow, ok, thrown, then_do, finally,
}
use mx_api_service.Batch.Service.{start_transaction_group}

abbrev pub group_items : TransactionBatch → ℕ → List TransactionBatchItem
group_items batch i = elim (get_elem? batch.groups i) [ none ↦ [] | some group ↦ group.items ]

abbrev pub set_group : TransactionBatch → ℕ → TransactionBatchGroup → TransactionBatch
set_group batch i group = record batch { groups = set batch.groups i group }

-- A write to the item `j` of group `i`, in place.
abbrev pub set_item : TransactionBatch → ℕ → ℕ → TransactionBatchItem → TransactionBatch
set_item batch i j item = set_group batch i (record { items = set (group_items batch i) j item })

abbrev pub invalid_items : List TransactionBatchItem → List TransactionBatchItem
invalid_items = select (λ (item : TransactionBatchItem). is_item_invalid item.status)

abbrev pub all_success : List TransactionBatchItem → Bool
all_success = every (λ (item : TransactionBatchItem). is_item_success item.status)

abbrev pub hash_of : TransactionBatchItem → String
hash_of item = item.transaction.hash

module _ {Store : Type 0} (env : Environment Store) where
  open env use {get, delete}

  unfoldable pub emit : BatchUpdated → World Store → World Store
  emit event w = record w { emitted = event ∷ w.emitted }

  unfoldable pub save : String → String → TransactionBatch → World Store → World Store
  save address batch_id batch w =
      let info = CacheInfo.transaction_batch address batch_id in
      record w { store = env.set w.store info.key (batch_value batch) info.ttl }

  -- What follows the start of the next group: if a transaction was refused, the batch is invalid
  -- and its clients are told.
  unfoldable pub after_start :
      TransactionBatch
      → World Store
      → List TransactionBatchItem
      → String
      → Flow Store TransactionBatch
  unfolding emit get_address
  after_start batch w [] batch_id = ok batch w
  after_start batch w (item ∷ items) batch_id = elim (get_address batch) [
    | none ↦ thrown w
    | some address ↦
        ok (record batch { status = BatchStatus.invalid })
          (emit
            (record {
              address = address;
              batch_id = batch_id;
              tx_hashes = map hash_of (item ∷ items);
            })
            w)
  ]

  unfoldable pub start_next :
      String → String → ℕ → TransactionBatch → World Store → Flow Store TransactionBatch
  unfolding start_transaction_group after_start
  start_next now batch_id i batch w = elim (get_elem? batch.groups (i + 1)) [
    | none ↦ thrown w
    | some group ↦ then_do (start_transaction_group env now batch group w) λ group' w'.
        after_start (set_group batch (i + 1) group') w' (invalid_items group'.items) batch_id
  ]

  -- The decision on the status of the batch once an item of group `i` has its new status: only a
  -- pending batch is changed.
  unfoldable pub advance :
      String
      → String
      → ItemStatus
      → ℕ
      → TransactionBatch
      → World Store
      → Flow Store TransactionBatch
  unfolding start_next
  advance now batch_id status i batch w =
      if is_batch_pending batch.status
      then (if is_item_invalid status
          then ok (record batch { status = BatchStatus.invalid }) w
          else if is_item_success status
          then (if all_success (group_items batch i)
              then (if leb (length batch.groups) (i + 1)
                  then ok (record batch { status = BatchStatus.success }) w
                  else start_next now batch_id i batch w)
              else ok batch w)
          else ok batch w)
      else ok batch w

  module _ (now tx_hash batch_id address : String) (status : ItemStatus) where
    -- The body of the inner loop of `processTransaction`, for item `j` of group `i`.
    unfoldable pub process_item :
        ℕ → ℕ → TransactionBatch → World Store → Flow Store TransactionBatch
    unfolding advance save
    process_item i j batch w = elim (get_elem? (group_items batch i) j) [
      | none ↦ ok batch w
      | some item ↦
          if hash_of item == tx_hash
          then (then_do
              (advance now batch_id status i (set_item batch i j (record item { status = status }))
                w)
              λ batch' w'. ok batch' (save address batch_id batch' w'))
          else ok batch w
    ]

    unfoldable pub process_items :
        ℕ → ℕ → ℕ → TransactionBatch → World Store → Flow Store TransactionBatch
    unfolding process_item
    process_items zero i j batch w = ok batch w
    process_items (suc n) i j batch w =
        then_do (process_item i j batch w) λ batch' w'. process_items n i (j + 1) batch' w'

    -- The groups are counted from `i`; the number of items is read when a group is reached.
    unfoldable pub process_groups :
        ℕ → ℕ → TransactionBatch → World Store → Flow Store TransactionBatch
    unfolding process_items
    process_groups zero i batch w = ok batch w
    process_groups (suc n) i batch w =
        then_do (process_items (length (group_items batch i)) i 0 batch w)
          λ batch' w'. process_groups n (i + 1) batch' w'

    -- The result is the batch as it was left, if one was found.
    unfoldable pub process_transaction : World Store → Flow Store (Option TransactionBatch)
    unfolding process_groups
    process_transaction w =
        finally
          (elim (as_batch (get w.store (CacheInfo.transaction_batch address batch_id).key)) [
            | none ↦ ok none w
            | some batch ↦
                then_do (process_groups (length batch.groups) 0 batch w)
                  λ batch' w'. ok (some batch') w'
          ])
          (λ w'. record w' { store = delete w'.store (CacheInfo.pending_transaction tx_hash).key })
