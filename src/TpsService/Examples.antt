-- ===== src/TpsService/Examples.antt =====
-- Tests of the history of counts.
use mx_api_service.Base.{◌+◌, ◌≡◌, refl, arith, [], ◌∷◌, some, none}
use mx_api_service.TpsWarmer.{TpsEntries, save_tps}
use mx_api_service.TpsService.{
  last_1h, Lengths, timestamps_from, get_tps_history_raw, get_transaction_count,
}
use mx_api_service.TpsService.Window.{total, get_tps_history_raw-save_tps}

abbrev lengths : Lengths
lengths = record { one_minute = 60; one_hour = 3600; one_day = 86400 }

abbrev entries : TpsEntries
entries = record { transactions = λ t f. 0; current_nonce = 0; transaction_count = 0 }

slots : timestamps_from 20 100 120 5 ≡ 100 ∷ 105 ∷ 110 ∷ 115 ∷ 120 ∷ []
unfolding timestamps_from
slots = refl

counted : get_transaction_count (some 3 ∷ none ∷ some 4 ∷ []) ≡ 7
unfolding get_transaction_count
counted = refl

get_tps_history_raw-save_tps_example :
    total (get_tps_history_raw lengths 10000 (save_tps 9990 30 12 entries) last_1h)
    ≡ total (get_tps_history_raw lengths 10000 entries last_1h) + 12
get_tps_history_raw-save_tps_example =
    get_tps_history_raw-save_tps lengths 10000 120 last_1h entries 9990 12 refl (omega arith)
      (omega arith) (omega arith)
