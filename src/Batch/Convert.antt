-- ===== src/Batch/Convert.antt =====
-- `convertToTransactionBatch` and `convertFromTransactionBatch` of
-- src/endpoints/transactions.batch/transactions.batch.service.ts, and the controller's start of a batch.
use mx_api_service.Base.{
  ◌≡◌, refl, ◌≢◌, Bool, ◌&&◌, not, List, [], ◌∷◌, map, Option, none, some, String, ◌==◌,
  text_comparable, if◌then◌else◌, exists, All, arith, ap, ap₂,
}
use mx_api_service.Batch.{
  TransactionDetails, ItemStatus, BatchStatus, TransactionBatchItem, TransactionBatchGroup,
  TransactionBatch, is_item_pending, is_batch_invalid, get_address,
}
use mx_api_service.Batch.World.{Environment, World, Flow, ok, thrown}
use mx_api_service.Batch.Service.{start_transaction_batch, get_transaction_batch}

pub record TransactionBatchSimplified : Type 0 where
  pub id : String
  pub transactions : List (List TransactionDetails)

pub record TransactionDetailsWithResult : Type 0 where
  pub details : TransactionDetails
  pub hash : String
  pub status : ItemStatus
  pub error : Option String

pub record TransactionBatchSimplifiedResult : Type 0 where
  pub id : String
  pub status : BatchStatus
  pub transactions : List (List TransactionDetailsWithResult)

abbrev to_item : TransactionDetails → TransactionBatchItem
to_item tx = record {
  transaction = record { tx = tx; hash = ""; payload = "" };
  status = ItemStatus.pending;
  error = none;
}

unfoldable pub convert_to_transaction_batch : TransactionBatchSimplified → TransactionBatch
convert_to_transaction_batch batch = record {
  id = batch.id;
  groups = map (λ txs. record { items = map to_item txs }) batch.transactions;
  status = BatchStatus.pending;
  source_ip = "";
}

-- In an invalid batch a transaction that is still pending is shown as invalid.
unfoldable pub from_item : BatchStatus → TransactionBatchItem → TransactionDetailsWithResult
from_item status item = record {
  details = item.transaction.tx;
  hash = item.transaction.hash;
  status =
      if is_batch_invalid status && is_item_pending item.status
      then ItemStatus.invalid
      else item.status;
  error = item.error;
}

unfoldable pub convert_from_transaction_batch : TransactionBatch → TransactionBatchSimplifiedResult
unfolding from_item
convert_from_transaction_batch batch = record {
  id = batch.id;
  status = batch.status;
  transactions =
      map (λ (group : TransactionBatchGroup). map (from_item batch.status) group.items)
        batch.groups;
}

-- What a client gets from `POST /batch`.
pub data StartResponse : Type 0 where
  started : TransactionBatchSimplifiedResult → StartResponse
  bad_request : StartResponse
  internal_error : StartResponse

abbrev respond : {Store : Type 0} → Flow Store TransactionBatch → StartResponse × World Store
respond (ok batch w) = (started (convert_from_transaction_batch batch), w)
respond (thrown w) = (internal_error, w)

abbrev has_other_sender : String → TransactionBatch → Bool
has_other_sender address batch =
    exists
      (λ (group : TransactionBatchGroup).
        exists (λ (item : TransactionBatchItem). not (item.transaction.tx.sender == address))
          group.items)
      batch.groups

-- `TransactionsBatchController.startTransactionBatch`: a batch whose id is in use for its address, or
-- that mixes senders, is turned away before anything is sent.
unfoldable pub start_endpoint :
    {Store : Type 0}
    → Environment Store
    → String
    → TransactionBatchSimplified
    → String
    → World Store
    → StartResponse × World Store
unfolding get_address convert_to_transaction_batch get_transaction_batch
start_endpoint env now simplified source_ip w =
    let batch = convert_to_transaction_batch simplified in
    elim (get_address batch) [
      | none ↦ (internal_error, w)
      | some address ↦ elim (get_transaction_batch env address batch.id w) [
        | some existing ↦ (bad_request, w)
        | none ↦
            if has_other_sender address batch
            then (bad_request, w)
            else respond (start_transaction_batch env now batch source_ip w)
      ]
    ]

abbrev pub waiting : TransactionDetails → TransactionDetailsWithResult
waiting tx = record { details = tx; hash = ""; status = ItemStatus.pending; error = none }

items-waiting :
    (txs : List TransactionDetails)
    → map (from_item BatchStatus.pending) (map to_item txs) ≡ map waiting txs
unfolding from_item
items-waiting [] = refl
items-waiting (tx ∷ txs) = ap (λ r. waiting tx ∷ r) (items-waiting txs)

groups-waiting :
    (groups : List (List TransactionDetails))
    → map
        (λ (g : TransactionBatchGroup). map (from_item BatchStatus.pending) g.items)
        (map (λ txs. record { items = map to_item txs }) groups)
      ≡ map (map waiting) groups
groups-waiting [] = refl
groups-waiting (txs ∷ groups) = ap₂ (λ r s. r ∷ s) (items-waiting txs) (groups-waiting groups)

-- A batch that is shown to a client before it was started: the same transactions in the same groups,
-- all pending.
pub convert_from-convert_to :
    (simplified : TransactionBatchSimplified)
    → convert_from_transaction_batch (convert_to_transaction_batch simplified) ≡ record {
      id = simplified.id;
      status = BatchStatus.pending;
      transactions = map (map waiting) simplified.transactions;
    }
unfolding convert_from_transaction_batch convert_to_transaction_batch
convert_from-convert_to simplified =
    ap (λ t. record { id = simplified.id; status = BatchStatus.pending; transactions = t })
      (groups-waiting simplified.transactions)

items-not_pending :
    (items : List TransactionBatchItem)
    → All
        (λ (t : TransactionDetailsWithResult). t.status ≢ ItemStatus.pending)
        (map (from_item BatchStatus.invalid) items)
unfolding from_item
items-not_pending [] = tt
items-not_pending (item ∷ items) = (ground arith, items-not_pending items)

groups-not_pending :
    (groups : List TransactionBatchGroup)
    → All
        (All (λ (t : TransactionDetailsWithResult). t.status ≢ ItemStatus.pending))
        (map (λ (g : TransactionBatchGroup). map (from_item BatchStatus.invalid) g.items) groups)
groups-not_pending [] = tt
groups-not_pending (g ∷ groups) = (items-not_pending g.items, groups-not_pending groups)

-- An invalid batch shows no transaction as pending.
pub convert_from-not_pending :
    (batch : TransactionBatch)
    → batch.status ≡ BatchStatus.invalid
    → All
        (All (λ (t : TransactionDetailsWithResult). t.status ≢ ItemStatus.pending))
        (convert_from_transaction_batch batch).transactions
unfolding convert_from_transaction_batch
convert_from-not_pending batch h = rw h (groups-not_pending batch.groups)
