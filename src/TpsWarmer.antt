-- ===== src/TpsWarmer.antt =====
-- src/crons/tps/tps-warmer.service.ts and src/utils/tps.utils.ts: the transactions of a shard,
-- counted by time.
pub mod Counts
pub mod Totals
pub mod Maximum
mod Examples
use mx_api_service.Base.{
  ℕ, zero, suc, ◌+◌, ◌-◌, ◌*◌, ◌/◌, Bool, true, false, ◌&&◌, Option, none, some, List, [], ◌∷◌,
  nat_beq, ltb, if◌then◌else◌,
}

unfoldable pub get_timestamp_by_frequency : ℕ → ℕ → ℕ
get_timestamp_by_frequency timestamp frequency = timestamp / frequency * frequency

abbrev pub frequencies : List ℕ
frequencies = 5 ∷ 30 ∷ 600 ∷ []

-- What the gateway says of a block.
pub record Block : Type 0 where
  pub num_txs : ℕ
  pub timestamp : ℕ

-- What the warmer of one shard reads: the blocks by their nonces, the number of transfers before the
-- block of a nonce (`none` if no block is found), and how far back it looks.
pub record Shard : Type 0 where
  pub block : ℕ → Block
  pub transfers_before : ℕ → Option ℕ
  pub max_look_behind : ℕ

-- The entries of one shard in the remote cache: the counts by time and frequency, the last nonce
-- and the total. An entry that is missing counts as 0, as `incrby` and the code take it.
pub record TpsEntries : Type 0 where
  pub transactions : ℕ → ℕ → ℕ
  pub current_nonce : ℕ
  pub transaction_count : ℕ

unfoldable pub save_tps : ℕ → ℕ → ℕ → TpsEntries → TpsEntries
unfolding get_timestamp_by_frequency
save_tps timestamp frequency transaction_count s = record s {
  transactions = λ t f.
      if nat_beq t (get_timestamp_by_frequency timestamp frequency) && nat_beq f frequency
      then s.transactions t f + transaction_count
      else s.transactions t f;
}

unfoldable pub save_each : List ℕ → Block → TpsEntries → TpsEntries
unfolding save_tps
save_each [] b s = s
save_each (f ∷ fs) b s = save_each fs b (save_tps b.timestamp f b.num_txs s)

-- A total that is the increment itself was 0 before, and gets what came before the nonce.
unfoldable pub increment_total_transactions : Shard → ℕ → ℕ → TpsEntries → TpsEntries
increment_total_transactions shard total_transactions start_nonce s =
    let result = s.transaction_count + total_transactions in
    if nat_beq result total_transactions
    then elim (shard.transfers_before start_nonce) [
      | none ↦ record s { transaction_count = result }
      | some before ↦ record s { transaction_count = result + before }
    ]
    else record s { transaction_count = result }

-- One round of the loop of processTpsForShard.
unfoldable pub process_nonce : Shard → ℕ → TpsEntries → TpsEntries
unfolding save_each increment_total_transactions
process_nonce shard nonce s =
    let saved = save_each frequencies (shard.block nonce) s in
    increment_total_transactions shard (shard.block nonce).num_txs nonce
      (record saved { current_nonce = nonce })

-- The loop, for `n` nonces from `nonce` on.
unfoldable pub process_nonces : Shard → ℕ → ℕ → TpsEntries → TpsEntries
unfolding process_nonce
process_nonces shard zero nonce s = s
process_nonces shard (suc n) nonce s =
    process_nonces shard n (suc nonce) (process_nonce shard nonce s)

-- Where the source goes below 0, in a shard with fewer blocks than it looks back, this stops at 0.
unfoldable pub get_start_nonce : Shard → ℕ → TpsEntries → ℕ
get_start_nonce shard end_nonce s =
    if nat_beq s.current_nonce 0
    then end_nonce - shard.max_look_behind
    else if ltb s.current_nonce (end_nonce - shard.max_look_behind)
    then end_nonce - shard.max_look_behind
    else s.current_nonce

unfoldable pub process_tps_for_shard : Shard → ℕ → TpsEntries → TpsEntries
unfolding process_nonces get_start_nonce
process_tps_for_shard shard end_nonce s =
    let start_nonce = get_start_nonce shard end_nonce s in
    process_nonces shard (end_nonce - start_nonce) (suc start_nonce) s

-- A point of the history. Within one history the rates have the same frequency, so the number of
-- transactions stands for the rate.
pub record Tps : Type 0 where
  pub timestamp : ℕ
  pub tps : ℕ

abbrev pub larger : Tps → Tps → Tps
larger prev current = if ltb current.tps prev.tps then prev else current

abbrev pub reduce_tps : Tps → List Tps → Tps
reduce_tps prev [] = prev
reduce_tps prev (t ∷ ts) = reduce_tps (larger prev t) ts

-- `none` where the source throws.
unfoldable pub get_max_tps : List Tps → Option Tps
get_max_tps [] = none
get_max_tps (t ∷ ts) = some (reduce_tps t ts)

-- The maximum of an interval that is kept, after refreshTpsHistory.
unfoldable pub refresh_max : List Tps → Option Tps → Option Tps
unfolding get_max_tps
refresh_max history retrieved = elim (get_max_tps history) [
  | none ↦ retrieved
  | some calculated ↦ elim retrieved [
    | none ↦ some calculated
    | some r ↦ if ltb r.tps calculated.tps then some calculated else some r
  ]
]
