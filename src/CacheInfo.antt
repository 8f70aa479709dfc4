-- ===== src/CacheInfo.antt =====
-- src/utils/cache.info.ts: the keys and the lifetimes of cache entries.
pub mod Chain
pub mod Token
pub mod Market
pub mod Endpoint
pub mod Service
pub mod Family
pub mod ChainKeys
pub mod TokenKeys
pub mod MarketKeys
pub mod EndpointKeys
pub mod ServiceKeys
pub mod Entries
pub mod Lifetimes
mod Examples
use mx_api_service.Base.{
  ℕ, ◌*◌, ◌≢◌, ap, Bool, true, false, Option, none, some, String, ◌<>◌, head_code, ◌==◌,
  text_comparable, leb, nat_beq, if◌then◌else◌, arith,
}

-- `Constants.oneMinute() * 10` is `minutes 10`: how long the SDK's constants are is not in the source.
pub data Duration : Type 0 where
  seconds minutes hours days weeks : ℕ → Duration
  max_safe_integer : Duration
  -- a number that is computed
  number : ℕ → Duration

pub record CacheInfo : Type 0 where
  pub key : String
  pub ttl : Duration

-- `from` and `size` of the source.
pub record QueryPagination : Type 0 where
  pub start : ℕ
  pub size : ℕ

-- The lifetime of a price of the day `date`, where `today` is the current day.
unfoldable pub price_ttl : String → String → Duration
price_ttl date today = if date == today then minutes 5 else weeks 1

-- The day of a price: `day_of` is `toISODateString` of a time in milliseconds, `now` the current
-- time; a timestamp of 0 is as if it was not given.
unfoldable pub price_day : (ℕ → String) → ℕ → Option ℕ → String
price_day day_of now none = day_of now
price_day day_of now (some timestamp) =
    if nat_beq timestamp 0 then day_of now else day_of (timestamp * 1000)

-- `value` is how long a lifetime is, by the constants of the SDK.
unfoldable pub compute_blocks_latest_ttl : (Duration → ℕ) → Option ℕ → Duration
compute_blocks_latest_ttl value none = seconds 12
compute_blocks_latest_ttl value (some ttl) =
    if leb ttl (value (minutes 5))
    then seconds 12
    else if leb ttl (value (hours 1))
    then minutes 5
    else if leb ttl (value (hours 6))
    then minutes 15
    else if leb ttl (value (days 1))
    then minutes 30
    else hours 1

unfoldable pub transaction_batch : String → String → CacheInfo
transaction_batch sender batch_id = record {
  key = "transactionbatch:" <> (sender <> (":" <> batch_id));
  ttl = minutes 20;
}

unfoldable pub pending_transaction : String → CacheInfo
pending_transaction hash = record { key = "pendingtransaction:" <> hash; ttl = minutes 15 }

-- The entry of a pending transaction is never that of a batch.
pub pending_transaction-ne-transaction_batch :
    (hash sender batch_id : String)
    → (pending_transaction hash).key ≢ (transaction_batch sender batch_id).key
unfolding pending_transaction transaction_batch ◌<>◌
pending_transaction-ne-transaction_batch hash sender batch_id e = omega (arith, ap head_code e)
