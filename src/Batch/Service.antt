-- ===== src/Batch/Service.antt =====
-- src/endpoints/transactions.batch/transactions.batch.service.ts: sending the groups of a batch.
pub mod Sending
use mx_api_service.Base.{
  ℕ, Bool, true, false, List, [], ◌∷◌, map, Option, none, some, String, ◌<>◌, ◌==◌, text_comparable,
  if◌then◌else◌, select, exists,
}
use mx_api_service.CacheInfo
use mx_api_service.Batch.{
  TransactionDetails, Transaction, ItemStatus, BatchStatus, TransactionBatchItem,
  TransactionBatchGroup, TransactionBatch, is_item_pending, is_item_invalid, get_address,
}
use mx_api_service.Batch.World.{
  CacheValue, batch_value, text_value, as_batch, Created, returned, refused, threw, Environment,
  World, Flow, ok, thrown, then_do,
}

-- A group after its transactions were sent, and the items that were reached, in order.
pub record Executed (Store : Type 0) : Type 0 where
  pub items : List TransactionBatchItem
  pub results : List TransactionBatchItem
  pub world : World Store

-- What `executeTransaction` makes of the answer: an item whose transaction is refused becomes invalid, and keeps its error
-- where the refusal has no message.
abbrev settle : TransactionBatchItem → Created → TransactionBatchItem
settle item (threw none) = record item { status = ItemStatus.invalid }
settle item (threw (some message)) = record item {
  status = ItemStatus.invalid;
  error = some message;
}
settle item (refused text) = record item { status = ItemStatus.invalid }
settle item (returned none) = record item { status = ItemStatus.invalid }
settle item (returned (some tx_hash)) =
    if tx_hash == ""
    then record item { status = ItemStatus.invalid }
    else record item { transaction = record (item.transaction) { hash = tx_hash } }

-- The text that is stored for a pending transaction; `now` is the current time in ISO format.
unfoldable pub pending_value : String → String → String → String
pending_value batch_id address now = batch_id <> (";" <> (address <> (";" <> now)))

abbrev pub pending_hashes : List TransactionBatchItem → List String
pending_hashes results =
    map (λ (item : TransactionBatchItem). item.transaction.hash)
      (select (λ (item : TransactionBatchItem). is_item_pending item.status) results)

-- The second loop: every item becomes pending.
abbrev pub make_pending : TransactionBatchGroup → TransactionBatchGroup
make_pending group = record {
  items =
      map (λ (item : TransactionBatchItem). record item { status = ItemStatus.pending })
        group.items;
}

abbrev pub has_invalid : TransactionBatchGroup → Bool
has_invalid group =
    exists (λ (item : TransactionBatchItem). is_item_invalid item.status) group.items

module _ {Store : Type 0} (env : Environment Store) where
  open env use {get, set, create_transaction, compute_hash}

  -- `executeTransaction`.
  unfoldable pub execute_transaction :
      TransactionBatchItem → World Store → TransactionBatchItem × World Store
  execute_transaction item w = (
    settle item (create_transaction w.sent item.transaction.tx),
    record w { sent = item.transaction.tx ∷ w.sent },
  )

  -- The loop of `startTransactionGroup`: it stops at the first item that is invalid.
  unfoldable pub execute_items : List TransactionBatchItem → World Store → Executed Store
  unfolding execute_transaction
  execute_items [] w = record { items = []; results = []; world = w }
  execute_items (item ∷ rest) w =
      let (item', w') = execute_transaction item w in
      let later = execute_items rest w' in
      if is_item_invalid item'.status
      then record { items = item' ∷ rest; results = item' ∷ []; world = w' }
      else record {
        items = item' ∷ later.items;
        results = item' ∷ later.results;
        world = later.world;
      }

  unfoldable pub store_pending : String → List String → World Store → World Store
  store_pending value [] w = w
  store_pending value (hash ∷ hashes) w =
      let info = CacheInfo.pending_transaction hash in
      store_pending value hashes
        (record w { store = set w.store info.key (text_value value) info.ttl })

  -- The group comes back with the changes that the source makes to its items in place.
  unfoldable pub start_transaction_group :
      String
      → TransactionBatch
      → TransactionBatchGroup
      → World Store
      → Flow Store TransactionBatchGroup
  unfolding execute_items store_pending pending_value get_address
  start_transaction_group now batch group w =
      let e = execute_items group.items w in
      elim (get_address batch) [
        | none ↦ thrown e.world
        | some address ↦
            ok (record { items = e.items })
              (store_pending (pending_value batch.id address now) (pending_hashes e.results)
                e.world)
      ]

  -- The first loop of `startTransactionBatch`: each item gets the hash of its transaction.
  unfoldable pub hash_items : List TransactionBatchItem → Option (List TransactionBatchItem)
  hash_items [] = some []
  hash_items (item ∷ items) = elim (compute_hash item.transaction.tx) [
    | none ↦ none
    | some h ↦ elim (hash_items items) [
      | none ↦ none
      | some items' ↦
          some (record item { transaction = record (item.transaction) { hash = h } } ∷ items')
    ]
  ]

  unfoldable pub hash_groups : List TransactionBatchGroup → Option (List TransactionBatchGroup)
  unfolding hash_items
  hash_groups [] = some []
  hash_groups (group ∷ groups) = elim (hash_items group.items) [
    | none ↦ none
    | some items ↦ elim (hash_groups groups) [
      | none ↦ none
      | some groups' ↦ some (record { items = items } ∷ groups')
    ]
  ]

  unfoldable pub store_batch : TransactionBatch → World Store → Flow Store TransactionBatch
  unfolding get_address
  store_batch batch w = elim (get_address batch) [
    | none ↦ thrown w
    | some address ↦
        let info = CacheInfo.transaction_batch address batch.id in
        ok batch (record w { store = set w.store info.key (batch_value batch) info.ttl })
  ]

  -- `startTransactionBatch` from the point where `group` is the first group.
  unfoldable pub start_first_group :
      String
      → TransactionBatch
      → TransactionBatchGroup
      → List TransactionBatchGroup
      → World Store
      → Flow Store TransactionBatch
  unfolding start_transaction_group store_batch
  start_first_group now batch group rest w =
      then_do (start_transaction_group now batch group w) λ group' w'.
        let batch' = record batch { groups = group' ∷ rest } in
        if has_invalid group'
        then ok (record batch' { status = BatchStatus.invalid }) w'
        else store_batch batch' w'

  unfoldable pub start_transaction_batch :
      String → TransactionBatch → String → World Store → Flow Store TransactionBatch
  unfolding hash_groups start_first_group
  start_transaction_batch now batch source_ip w = elim batch.groups [
    | [] ↦ ok batch w
    | _ ∷ _ ↦ elim (hash_groups batch.groups) [
      | none ↦ thrown w
      | some groups ↦ elim (map make_pending groups) [
        | [] ↦ ok batch w
        | group ∷ rest ↦
            start_first_group now
              (record batch {
                groups = group ∷ rest;
                status = BatchStatus.pending;
                source_ip = source_ip;
              })
              group rest w
      ]
    ]
  ]

  -- `getTransactionBatch`.
  unfoldable pub get_transaction_batch : String → String → World Store → Option TransactionBatch
  get_transaction_batch address batch_id w =
      as_batch (get w.store (CacheInfo.transaction_batch address batch_id).key)
