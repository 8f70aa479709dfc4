-- ===== src/CacheInfo/Examples.antt =====
-- Tests of src/utils/cache.info.ts.
use mx_api_service.Base.{
  ℕ, ◌≡◌, ◌*◌, ◌/◌, refl, none, some, String, decimal, decimal_by, ◌<>◌, digit_text,
}
use mx_api_service.CacheInfo.{
  Duration, price_day, minutes, weeks, number, max_safe_integer, seconds, hours, days,
}
use mx_api_service.CacheInfo.Chain.{ChainEntry, chain_info}
use mx_api_service.CacheInfo.Service.{ServiceEntry, service_info}
use mx_api_service.CacheInfo.Service
use mx_api_service.CacheInfo.Chain
use mx_api_service.CacheInfo.Entries.{info, kind, service, kind-key}
use mx_api_service.CacheInfo.Lifetimes.{CountsSeconds}

in_seconds : Duration → ℕ
in_seconds (seconds n) = n
in_seconds (minutes n) = n * 60
in_seconds (hours n) = n * 3600
in_seconds (days n) = n * 86400
in_seconds (weeks n) = n * 604800
in_seconds max_safe_integer = 9007199254740991
in_seconds (number n) = n

in_seconds-CountsSeconds : CountsSeconds in_seconds
unfolding in_seconds
in_seconds-CountsSeconds = record {
  of_seconds = λ n. refl;
  of_minutes = λ n. refl;
  of_hours = λ n. refl;
  of_days = λ n. refl;
}

-- The day of a time in milliseconds, as a number.
abbrev day : ℕ → String
day t = decimal (t / 86400000)

shard_key : (chain_info (Chain.shard_and_epoch_blses 2 1203)).key ≡ "2_1203"
unfolding chain_info decimal decimal_by ◌<>◌ digit_text
shard_key = refl

same_price :
    (info (service (Service.data_api_token_price "WEGLD-bd4d79" day 86400000 none))).key
    ≡ (info (service (Service.data_api_token_price "WEGLD-bd4d79" day 86400000 (some 0)))).key
unfolding info service_info price_day
same_price = refl

kind-key_example :
    kind (service (Service.data_api_token_price "WEGLD-bd4d79" day 86400000 none))
    ≡ kind (service (Service.data_api_token_price "WEGLD-bd4d79" day 86400000 (some 0)))
kind-key_example =
    kind-key (service (Service.data_api_token_price "WEGLD-bd4d79" day 86400000 none))
      (service (Service.data_api_token_price "WEGLD-bd4d79" day 86400000 (some 0))) same_price
