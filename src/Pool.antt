-- ===== src/Pool.antt =====
-- src/endpoints/pool/pool.service.ts: the transactions that wait in the pool.
pub mod Types
mod Examples
use mx_api_service.Base.{
  ℕ, ◌*◌, Bool, true, false, ◌&&◌, String, Option, none, some, List, [], ◌∷◌, ◌++◌, exists, select,
  take, drop, ◌==◌, nat_comparable, text_comparable, if◌then◌else◌,
}
use mx_api_service.Action.{
  Outcome, returned, thrown, out_of_fuel, ◌>>=◌, or_throw, Sdk, ActionTransaction,
  TransactionMetadata, TransactionType, transaction, smart_contract_result, reward,
}
use mx_api_service.Action.Service.{get_transaction_metadata}
use mx_api_service.CacheInfo.{QueryPagination}

-- What the gateway says of a transaction; each field can be missing.
pub record TxInPoolFields : Type 0 where
  pub hash : Option String
  pub sender : Option String
  pub receiver : Option String
  pub receiver_username : Option String
  pub nonce : Option ℕ
  pub value : Option String
  pub gas_price : Option ℕ
  pub gas_limit : Option ℕ
  pub transaction_data : Option String
  pub guardian : Option String
  pub guardian_signature : Option String
  pub signature : Option String

pub record TransactionInPool : Type 0 where
  pub tx_hash : String
  pub sender : String
  pub receiver : String
  pub receiver_username : String
  pub nonce : ℕ
  pub value : String
  pub gas_price : ℕ
  pub gas_limit : ℕ
  pub transaction_data : String
  pub guardian : String
  pub guardian_signature : String
  pub signature : String
  pub sender_shard : ℕ
  pub receiver_shard : ℕ
  pub called_function : String
  pub transaction_type : TransactionType

-- `value ?? otherwise`
abbrev pub or_default : {A : Type 0} → Option A → A → A
or_default none d = d
or_default (some a) d = a

unfoldable pub transaction_in_pool : TxInPoolFields → TransactionType → TransactionInPool
transaction_in_pool tx type = record {
  tx_hash = or_default tx.hash "";
  sender = or_default tx.sender "";
  receiver = or_default tx.receiver "";
  receiver_username = or_default tx.receiver_username "";
  nonce = or_default tx.nonce 0;
  value = or_default tx.value "";
  gas_price = or_default tx.gas_price 0;
  gas_limit = or_default tx.gas_limit 0;
  transaction_data = or_default tx.transaction_data "";
  guardian = or_default tx.guardian "";
  guardian_signature = or_default tx.guardian_signature "";
  signature = or_default tx.signature "";
  sender_shard = 0;
  receiver_shard = 0;
  called_function = "";
  transaction_type = type;
}

unfoldable pub pool_transaction_to_transaction : TransactionInPool → ActionTransaction
pool_transaction_to_transaction t = record {
  sender = t.sender;
  receiver = t.receiver;
  value = t.value;
  timestamp = some 0;
  transaction_data = some t.transaction_data;
  transaction_type = some t.transaction_type;
}

-- `shard` is AddressUtils.computeShard for the number of shards.
module _ {P : Type 0} (sdk : Sdk P) (shard : String → ℕ) (fuel : ℕ) where
  -- An address that is "" leaves the shard at 0.
  unfoldable pub shard_of : String → Outcome ℕ
  shard_of address =
      if address == ""
      then returned 0
      else do hex ← or_throw (sdk.bech32_decode address); returned (shard hex)

  unfoldable pub parse_transaction : TxInPoolFields → TransactionType → Outcome TransactionInPool
  unfolding transaction_in_pool pool_transaction_to_transaction shard_of get_transaction_metadata
  parse_transaction tx type = do
    let t = transaction_in_pool tx type
    sender_shard ← shard_of t.sender
    receiver_shard ← shard_of t.receiver
    m ←
        get_transaction_metadata sdk fuel
          (pool_transaction_to_transaction
            (record t { sender_shard = sender_shard; receiver_shard = receiver_shard }))
          false
    returned (record t {
      sender_shard = sender_shard;
      receiver_shard = receiver_shard;
      called_function = or_default m.function_name "";
    })

  -- `Promise.all` is rejected if one of its promises is.
  unfoldable pub process_transactions_with_type :
      List TxInPoolFields → TransactionType → Outcome (List TransactionInPool)
  unfolding parse_transaction
  process_transactions_with_type [] type = returned []
  process_transactions_with_type (tx ∷ txs) type = do
    t ← parse_transaction tx type
    ts ← process_transactions_with_type txs type
    returned (t ∷ ts)

  unfoldable pub parse_transactions :
      List TxInPoolFields
      → List TxInPoolFields
      → List TxInPoolFields
      → Outcome (List TransactionInPool)
  unfolding process_transactions_with_type
  parse_transactions regular results rewards = do
    a ← process_transactions_with_type regular transaction
    b ← process_transactions_with_type results smart_contract_result
    c ← process_transactions_with_type rewards reward
    returned (a ++ b ++ c)

pub record PoolFilter : Type 0 where
  pub sender : Option String
  pub receiver : Option String
  pub transaction_type : Option TransactionType
  pub sender_shard : Option ℕ
  pub receiver_shard : Option ℕ
  pub functions : Option (List String)

abbrev pub same_type : TransactionType → TransactionType → Bool
same_type transaction transaction = true
same_type smart_contract_result smart_contract_result = true
same_type reward reward = true
same_type _ _ = false

-- `!filter || value === filter`, where "" is as if it was not given.
abbrev pub text_allows : Option String → String → Bool
text_allows none value = true
text_allows (some f) value = if f == "" then true else value == f

abbrev pub shard_allows : Option ℕ → ℕ → Bool
shard_allows none value = true
shard_allows (some f) value = value == f

unfoldable pub matches : PoolFilter → TransactionInPool → Bool
matches f t =
    text_allows f.sender t.sender
    && text_allows f.receiver t.receiver
    && elim f.transaction_type [ none ↦ true | some x ↦ same_type t.transaction_type x ]
    && shard_allows f.sender_shard t.sender_shard
    && shard_allows f.receiver_shard t.receiver_shard
    && elim f.functions [ none ↦ true | some xs ↦ exists (λ x. x == t.called_function) xs ]

unfoldable pub apply_filters : List TransactionInPool → Option PoolFilter → List TransactionInPool
unfolding matches
apply_filters pool none = pool
apply_filters pool (some f) = select (matches f) pool

-- getPool for the pool that getPoolWithFilters filters; it is empty if the feature is off.
unfoldable pub get_pool :
    Bool → List TransactionInPool → QueryPagination → Option PoolFilter → List TransactionInPool
unfolding apply_filters
get_pool enabled pool page filter =
    if enabled then take page.size (drop page.start (apply_filters pool filter)) else []
