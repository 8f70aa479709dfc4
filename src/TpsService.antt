-- ===== src/TpsService.antt =====
-- src/endpoints/tps/tps.service.ts, src/utils/tps.utils.ts and refreshTpsHistory of
-- src/crons/tps/tps-warmer.service.ts: what is read of the counts that TpsWarmer keeps.
pub mod Window
mod Examples
use mx_api_service.Base.{
  ℕ, zero, suc, ◌+◌, ◌-◌, ◌*◌, Option, none, some, List, [], ◌∷◌, map, Bool, true, false, leb,
  if◌then◌else◌,
}
use mx_api_service.TpsWarmer.{TpsEntries, Tps, get_timestamp_by_frequency, refresh_max}

pub data TpsFrequency : Type 0 where
  every_5s every_30s every_10m : TpsFrequency

pub data TpsInterval : Type 0 where
  last_10m last_1h last_1d : TpsInterval

abbrev pub get_frequency_by_enum : TpsFrequency → ℕ
get_frequency_by_enum every_5s = 5
get_frequency_by_enum every_30s = 30
get_frequency_by_enum every_10m = 600

abbrev pub get_frequency_by_interval : TpsInterval → ℕ
get_frequency_by_interval last_10m = 5
get_frequency_by_interval last_1h = 30
get_frequency_by_interval last_1d = 600

-- The lengths in seconds that the SDK names.
pub record Lengths : Type 0 where
  pub one_minute : ℕ
  pub one_hour : ℕ
  pub one_day : ℕ

abbrev pub get_interval_by_enum : Lengths → TpsInterval → ℕ
get_interval_by_enum l last_10m = l.one_minute * 10
get_interval_by_enum l last_1h = l.one_hour
get_interval_by_enum l last_1d = l.one_day

-- The loop from a time to the end, for as many rounds as there is fuel.
unfoldable pub timestamps_from : ℕ → ℕ → ℕ → ℕ → List ℕ
timestamps_from zero timestamp end_timestamp frequency = []
timestamps_from (suc fuel) timestamp end_timestamp frequency =
    let rest = timestamps_from fuel (timestamp + frequency) end_timestamp frequency in
    if leb timestamp end_timestamp then timestamp ∷ rest else []

abbrev pub point : TpsEntries → ℕ → ℕ → Tps
point s frequency timestamp = record {
  timestamp = timestamp;
  tps = s.transactions timestamp frequency;
}

-- One round for each second of the interval is enough, as a frequency is a second at least. The
-- time of the call is `now`, later than the interval is long.
unfoldable pub get_tps_history_raw : Lengths → ℕ → TpsEntries → TpsInterval → List Tps
unfolding timestamps_from get_timestamp_by_frequency
get_tps_history_raw l now s interval =
    let frequency = get_frequency_by_interval interval in
    let end_timestamp = get_timestamp_by_frequency now frequency in
    let length = get_interval_by_enum l interval in
    map (point s frequency)
      (timestamps_from (suc length) (end_timestamp - length) end_timestamp frequency)

unfoldable pub get_tps_latest : ℕ → TpsEntries → TpsFrequency → Tps
unfolding get_timestamp_by_frequency
get_tps_latest now s frequency =
    let f = get_frequency_by_enum frequency in point s f (get_timestamp_by_frequency (now - f) f)

unfoldable pub get_tps_max : Option Tps → Tps
get_tps_max none = record { timestamp = 0; tps = 0 }
get_tps_max (some t) = t

-- The entries of the shards, `none` where there is none.
unfoldable pub get_transaction_count : List (Option ℕ) → ℕ
get_transaction_count [] = 0
get_transaction_count (none ∷ counts) = 0 + get_transaction_count counts
get_transaction_count (some n ∷ counts) = n + get_transaction_count counts

-- The entries of an interval in the remote cache.
pub record HistoryEntries : Type 0 where
  pub history : Option (List Tps)
  pub max : Option Tps

-- One round of the loop of refreshTpsHistory.
unfoldable pub refresh_interval :
    Lengths → ℕ → TpsEntries → TpsInterval → HistoryEntries → HistoryEntries
unfolding get_tps_history_raw refresh_max
refresh_interval l now s interval h =
    let history = get_tps_history_raw l now s interval in
    record { history = some history; max = refresh_max history h.max }
