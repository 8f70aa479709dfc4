-- ===== src/TpsWarmer/Examples.antt =====
-- Tests of the counting of transactions.
use mx_api_service.Base.{
  ℕ, zero, suc, ◌+◌, ◌-◌, ◌*◌, ◌≡◌, ◌≤◌, ◌<◌, refl, some, inr, arith, [], ◌∷◌, ◌⊎◌,
}
use mx_api_service.TpsWarmer.{
  Shard, TpsEntries, Tps, refresh_max, get_timestamp_by_frequency, get_start_nonce,
  process_tps_for_shard, process_nonces, process_nonce, save_each, save_tps,
  increment_total_transactions,
}
use mx_api_service.TpsWarmer.Counts.{shares, five, process_tps_for_shard-shares}
use mx_api_service.TpsWarmer.Maximum.{Bounds, IsIn, refresh_max-Bounds}
use mx_api_service.TpsWarmer.Totals.{transactions_from, process_nonces-transaction_count}

-- A block every six seconds, with as many transactions as its nonce says.
before : ℕ → ℕ
before zero = 0
before (suc n) = before n + n

test_shard : Shard
unfolding before
test_shard = record {
  block = λ nonce. record { num_txs = nonce; timestamp = nonce * 6 };
  transfers_before = λ nonce. some (before nonce);
  max_look_behind = 10;
}

no_entries : TpsEntries
no_entries = record { transactions = λ t f. 0; current_nonce = 0; transaction_count = 0 }

started : get_start_nonce test_shard 12 no_entries ≡ 2
unfolding get_start_nonce no_entries test_shard
started = refl

counted_blocks : (process_tps_for_shard test_shard 12 no_entries).transactions 60 30 ≡ 33
unfolding process_tps_for_shard get_start_nonce process_nonces process_nonce save_each save_tps
    increment_total_transactions test_shard no_entries before get_timestamp_by_frequency
counted_blocks = refl

all_counted : (process_tps_for_shard test_shard 12 no_entries).transaction_count ≡ 78
unfolding process_tps_for_shard get_start_nonce process_nonces process_nonce save_each save_tps
    increment_total_transactions test_shard no_entries before get_timestamp_by_frequency
all_counted = refl

new_blocks : get_start_nonce test_shard 12 no_entries < 12
new_blocks = omega (arith, started)

looks_back : 15 ≤ 12 + test_shard.max_look_behind
unfolding test_shard
looks_back = omega arith

process_tps_for_shard-shares_example :
    (process_tps_for_shard test_shard 15
        (process_tps_for_shard test_shard 12 no_entries)).transactions
      60 5
    ≡ no_entries.transactions 60 5
      + shares test_shard
          (15 - get_start_nonce test_shard 12 no_entries)
          (suc (get_start_nonce test_shard 12 no_entries))
          60
          5
process_tps_for_shard-shares_example =
    process_tps_for_shard-shares test_shard 12 15 no_entries 60 5 five new_blocks (omega arith)
      looks_back

nothing : no_entries.transaction_count ≡ 0
unfolding no_entries
nothing = refl

found : test_shard.transfers_before 7 ≡ some 21
unfolding test_shard before
found = refl

process_nonces-transaction_count_example :
    (process_nonces test_shard 4 7 no_entries).transaction_count
    ≡ 21 + transactions_from test_shard 4 7
process_nonces-transaction_count_example =
    process_nonces-transaction_count test_shard 3 7 no_entries 21
      (inr (nothing, found, omega arith))

peak : Tps
peak = record { timestamp = 600; tps = 40 }

low : Tps
low = record { timestamp = 605; tps = 12 }

refresh_max-Bounds_example :
    (kept : Tps) × (refresh_max (low ∷ peak ∷ []) (some low) ≡ some kept)
    × Bounds kept (low ∷ peak ∷ [])
    × ((r : Tps) → some low ≡ some r → r.tps ≤ kept.tps)
    × (IsIn kept (low ∷ peak ∷ []) ⊎ (some low ≡ some kept))
refresh_max-Bounds_example = refresh_max-Bounds low (peak ∷ []) (some low)
