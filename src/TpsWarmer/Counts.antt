-- ===== src/TpsWarmer/Counts.antt =====
-- What the counts by time hold after some nonces of a shard (TpsWarmer).
use mx_api_service.Base.{
  ℕ, zero, suc, ◌+◌, ◌-◌, ◌≡◌, ◌≤◌, ◌<◌, refl, ap, nat_beq, if◌then◌else◌, arith, Bool-cases,
  Option-cases, inl, inr,
}
use mx_api_service.TpsWarmer.{
  Block, Shard, TpsEntries, get_timestamp_by_frequency, frequencies, save_tps, save_each,
  increment_total_transactions, process_nonce, process_nonces, get_start_nonce,
  process_tps_for_shard,
}

-- The transactions of a block that belong to the count of `time` at `frequency`.
abbrev pub share : Block → ℕ → ℕ → ℕ
share b time frequency =
    if nat_beq time (get_timestamp_by_frequency b.timestamp frequency) then b.num_txs else 0

-- Their sum over `n` nonces from `nonce` on.
abbrev pub shares : Shard → ℕ → ℕ → ℕ → ℕ → ℕ
shares shard zero nonce time frequency = 0
shares shard (suc n) nonce time frequency =
    share (shard.block nonce) time frequency + shares shard n (suc nonce) time frequency

-- The frequencies that are counted.
pub data IsFrequency : ℕ → Type 0 where
  five : IsFrequency 5
  thirty : IsFrequency 30
  six_hundred : IsFrequency 600

save_each-frequencies :
    (b : Block) (s : TpsEntries) (time frequency : ℕ)
    → IsFrequency frequency
    → (save_each frequencies b s).transactions time frequency
      ≡ s.transactions time frequency + share b time frequency
unfolding save_each save_tps
save_each-frequencies b s time _ five = ground arith
save_each-frequencies b s time _ thirty = ground arith
save_each-frequencies b s time _ six_hundred = ground arith

increment_total_transactions-transactions :
    (shard : Shard) (n nonce : ℕ) (s : TpsEntries) (time frequency : ℕ)
    → (increment_total_transactions shard n nonce s).transactions time frequency
      ≡ s.transactions time frequency
unfolding increment_total_transactions
increment_total_transactions-transactions shard n nonce s time frequency =
    elim (Bool-cases (nat_beq (s.transaction_count + n) n)) [
      | inl e ↦ elim (Option-cases (shard.transfers_before nonce)) [
        | inl f ↦ rw (e, f) refl
        | inr (x, f) ↦ rw (e, f) refl
      ]
      | inr e ↦ rw (e) refl
    ]

process_nonces-shares :
    (shard : Shard) (n nonce : ℕ) (s : TpsEntries) (time frequency : ℕ)
    → IsFrequency frequency
    → (process_nonces shard n nonce s).transactions time frequency
      ≡ s.transactions time frequency + shares shard n nonce time frequency
unfolding process_nonces process_nonce
process_nonces-shares shard zero nonce s time frequency h = omega arith
process_nonces-shares shard (suc n) nonce s time frequency h =
    let b = shard.block nonce in
    let saved = save_each frequencies b s in
    omega (
      arith,
      process_nonces-shares shard n (suc nonce) (process_nonce shard nonce s) time frequency h,
      increment_total_transactions-transactions shard b.num_txs nonce
          (record saved { current_nonce = nonce }) time frequency,
      save_each-frequencies b s time frequency h,
    )

shares-plus :
    (shard : Shard) (m n nonce time frequency : ℕ)
    → shares shard (m + n) nonce time frequency
      ≡ shares shard m nonce time frequency + shares shard n (m + nonce) time frequency
shares-plus shard zero n nonce time frequency =
    let a : 0 + n ≡ n = omega arith in
    let b : 0 + nonce ≡ nonce = omega arith in rw (a, b) (omega arith)
shares-plus shard (suc m) n nonce time frequency =
    let e : m + suc nonce ≡ suc m + nonce = omega arith in
    let f : suc m + n ≡ suc (m + n) = omega arith in
    rw⁻¹ e (rw (f) (omega (arith, shares-plus shard m n (suc nonce) time frequency)))

increment_total_transactions-current_nonce :
    (shard : Shard) (n nonce : ℕ) (s : TpsEntries)
    → (increment_total_transactions shard n nonce s).current_nonce ≡ s.current_nonce
unfolding increment_total_transactions
increment_total_transactions-current_nonce shard n nonce s =
    elim (Bool-cases (nat_beq (s.transaction_count + n) n)) [
      | inl e ↦ elim (Option-cases (shard.transfers_before nonce)) [
        | inl f ↦ rw (e, f) refl
        | inr (x, f) ↦ rw (e, f) refl
      ]
      | inr e ↦ rw (e) refl
    ]

process_nonces-current_nonce :
    (shard : Shard) (n nonce : ℕ) (s : TpsEntries)
    → (process_nonces shard (suc n) nonce s).current_nonce ≡ n + nonce
unfolding process_nonces process_nonce
process_nonces-current_nonce shard zero nonce s =
    let e : 0 + nonce ≡ nonce = omega arith in
    rw (e) (increment_total_transactions-current_nonce shard (shard.block nonce).num_txs nonce _)
process_nonces-current_nonce shard (suc n) nonce s =
    omega (arith, process_nonces-current_nonce shard n (suc nonce) (process_nonce shard nonce s))

process_tps_for_shard-current_nonce :
    (shard : Shard) (end_nonce : ℕ) (s : TpsEntries)
    → get_start_nonce shard end_nonce s < end_nonce
    → (process_tps_for_shard shard end_nonce s).current_nonce ≡ end_nonce
unfolding process_tps_for_shard
process_tps_for_shard-current_nonce shard end_nonce s h =
    let start = get_start_nonce shard end_nonce s in
    let n = end_nonce - suc start in
    let e : end_nonce - start ≡ suc n = omega (arith, h) in
    rw (e) (omega (arith, process_nonces-current_nonce shard n (suc start) s, h))

get_start_nonce-current_nonce :
    (shard : Shard) (first last : ℕ) (s : TpsEntries)
    → s.current_nonce ≡ first
    → 0 < first
    → last ≤ first + shard.max_look_behind
    → get_start_nonce shard last s ≡ first
unfolding get_start_nonce
get_start_nonce-current_nonce shard first last s e a b = ground arith

process_tps_for_shard-start :
    (shard : Shard) (start end_nonce : ℕ) (s : TpsEntries) (time frequency : ℕ)
    → IsFrequency frequency
    → get_start_nonce shard end_nonce s ≡ start
    → (process_tps_for_shard shard end_nonce s).transactions time frequency
      ≡ s.transactions time frequency + shares shard (end_nonce - start) (suc start) time frequency
unfolding process_tps_for_shard
process_tps_for_shard-start shard start end_nonce s time frequency h e =
    rw (e) (process_nonces-shares shard (end_nonce - start) (suc start) s time frequency h)

-- A run that finds new blocks, followed by one before the shard has moved on by more blocks than
-- the warmer looks back, counts each block from the first start to the last end once, at each
-- frequency.
pub process_tps_for_shard-shares :
    (shard : Shard) (first last : ℕ) (s : TpsEntries) (time frequency : ℕ)
    → IsFrequency frequency
    → get_start_nonce shard first s < first
    → first ≤ last
    → last ≤ first + shard.max_look_behind
    → let start = get_start_nonce shard first s in
      (process_tps_for_shard shard last (process_tps_for_shard shard first s)).transactions time
        frequency
      ≡ s.transactions time frequency + shares shard (last - start) (suc start) time frequency
process_tps_for_shard-shares shard first last s time frequency h a b c =
    let start = get_start_nonce shard first s in
    let s' = process_tps_for_shard shard first s in
    let again =
      get_start_nonce-current_nonce shard first last s'
        (process_tps_for_shard-current_nonce shard first s a) (omega (arith, a)) c in
    let both = shares-plus shard (first - start) (last - first) (suc start) time frequency in
    let whole : (first - start) + (last - first) ≡ last - start = omega (arith, a, b) in
    let middle : (first - start) + suc start ≡ suc first = omega (arith, a) in
    rw⁻¹ whole (
      omega (
        arith,
        process_tps_for_shard-start shard first last s' time frequency h again,
        process_tps_for_shard-start shard start first s time frequency h refl,
        both,
        ap (λ x. shares shard (last - first) x time frequency) middle,
      ))
