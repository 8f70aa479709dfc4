-- ===== src/Pool/Types.antt =====
-- The types of the transactions in the pool (Pool).
use mx_api_service.Base.{none, some, ◌≡◌, List, All}
use mx_api_service.Action.{TransactionType}
use mx_api_service.Pool.{TransactionInPool, PoolFilter}

-- The filter that asks for a type only.
abbrev pub only : TransactionType → PoolFilter
only type = record {
  sender = none;
  receiver = none;
  transaction_type = some type;
  sender_shard = none;
  receiver_shard = none;
  functions = none;
}

-- Each of the transactions has the type.
abbrev pub IsOfType : TransactionType → List TransactionInPool → Type 0
IsOfType type ts = All (λ t. t.transaction_type ≡ type) ts
