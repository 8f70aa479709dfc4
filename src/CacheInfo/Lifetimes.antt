-- ===== src/CacheInfo/Lifetimes.antt =====
-- The lifetime of the latest blocks (src/utils/cache.info.ts), by how long the constants are.
use mx_api_service.Base.{ℕ, ◌≡◌, ◌≤◌, ◌*◌, some, arith}
use mx_api_service.CacheInfo.{Duration, seconds, minutes, hours, days, compute_blocks_latest_ttl}

-- The SDK's constants count seconds.
pub record CountsSeconds (value : Duration → ℕ) : Type 0 where
  pub of_seconds : (n : ℕ) → value (seconds n) ≡ n
  pub of_minutes : (n : ℕ) → value (minutes n) ≡ n * 60
  pub of_hours : (n : ℕ) → value (hours n) ≡ n * 3600
  pub of_days : (n : ℕ) → value (days n) ≡ n * 86400

module _ (value : Duration → ℕ) (c : CountsSeconds value) where
  -- When the constants count seconds, a longer requested lifetime of the latest blocks never gives a
  -- shorter one, and what it gives is between 12 seconds and an hour.
  pub compute_blocks_latest_ttl_monotone :
      (s t : ℕ)
      → s ≤ t
      → (12 ≤ value (compute_blocks_latest_ttl value (some s)))
        × (value (compute_blocks_latest_ttl value (some s))
            ≤ value (compute_blocks_latest_ttl value (some t)))
        × (value (compute_blocks_latest_ttl value (some t)) ≤ 3600)
  unfolding compute_blocks_latest_ttl
  compute_blocks_latest_ttl_monotone s t h =
      let twelve = c.of_seconds 12 in
      let five = c.of_minutes 5 in
      let fifteen = c.of_minutes 15 in
      let thirty = c.of_minutes 30 in
      let one_hour = c.of_hours 1 in
      let six = c.of_hours 6 in
      let one_day = c.of_days 1 in (ground arith, ground arith, ground arith)
