-- ===== src/Batch.antt =====
-- src/endpoints/transactions.batch/entities/: a batch is a list of groups of transactions. The
-- transactions of a group are sent together; a group is sent when all of the group before succeeded.
pub mod World
pub mod Service
pub mod Convert
use mx_api_service.Base.{ℕ, Bool, true, false, List, Option, none, some, [], ◌∷◌, String}

pub record TransactionDetails : Type 0 where
  pub chain_id : String
  pub payload : Option String
  pub gas_limit : ℕ
  pub gas_price : ℕ
  pub nonce : ℕ
  pub receiver : String
  pub sender : String
  pub signature : String
  pub value : String
  pub version : ℕ
  pub options : Option ℕ
  pub guardian : Option String
  pub guardian_signature : Option String

pub record Transaction : Type 0 where
  pub tx : TransactionDetails
  pub hash : String
  pub payload : String

-- The values of `BatchTransactionStatus`; the processor also stores here, unchecked, whatever status
-- text the shard reports for a transaction.
pub data ItemStatus : Type 0 where
  pending invalid dropped success : ItemStatus
  other : String → ItemStatus

-- `TransactionBatchStatus`.
pub data BatchStatus : Type 0 where
  pending success invalid dropped : BatchStatus

pub record TransactionBatchItem : Type 0 where
  pub transaction : Transaction
  pub status : ItemStatus
  pub error : Option String

pub record TransactionBatchGroup : Type 0 where
  pub items : List TransactionBatchItem

pub record TransactionBatch : Type 0 where
  pub id : String
  pub groups : List TransactionBatchGroup
  pub status : BatchStatus
  pub source_ip : String

abbrev pub is_item_pending : ItemStatus → Bool
is_item_pending ItemStatus.pending = true
is_item_pending _ = false

abbrev pub is_item_invalid : ItemStatus → Bool
is_item_invalid ItemStatus.invalid = true
is_item_invalid _ = false

abbrev pub is_item_success : ItemStatus → Bool
is_item_success ItemStatus.success = true
is_item_success _ = false

abbrev pub is_batch_pending : BatchStatus → Bool
is_batch_pending BatchStatus.pending = true
is_batch_pending _ = false

abbrev pub is_batch_invalid : BatchStatus → Bool
is_batch_invalid BatchStatus.invalid = true
is_batch_invalid _ = false

-- `TransactionBatch.getAddress`; `none` where the source reads a field of `undefined` and throws.
unfoldable pub get_address : TransactionBatch → Option String
get_address batch = elim batch.groups [
  | [] ↦ none
  | group ∷ _ ↦ elim group.items [ [] ↦ none | item ∷ _ ↦ some item.transaction.tx.sender ]
]
