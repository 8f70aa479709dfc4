-- ===== src/TpsWarmer/Totals.antt =====
-- The total of a shard (TpsWarmer): the transfers before the first nonce are added once.
use mx_api_service.Base.{
  ℕ, zero, suc, ◌+◌, ◌≡◌, ◌<◌, ◌∙◌, refl, true, false, some, ◌⊎◌, inl, inr, nat_beq, arith, List,
  [], ◌∷◌,
}
use mx_api_service.TpsWarmer.{
  Block, Shard, TpsEntries, frequencies, save_tps, save_each, increment_total_transactions,
  process_nonce, process_nonces,
}

-- The transactions of some blocks, from a nonce on.
abbrev pub transactions_from : Shard → ℕ → ℕ → ℕ
transactions_from shard zero nonce = 0
transactions_from shard (suc n) nonce =
    (shard.block nonce).num_txs + transactions_from shard n (suc nonce)

save_each-transaction_count :
    (fs : List ℕ) (b : Block) (s : TpsEntries)
    → (save_each fs b s).transaction_count ≡ s.transaction_count
unfolding save_each save_tps
save_each-transaction_count [] b s = refl
save_each-transaction_count (f ∷ fs) b s =
    save_each-transaction_count fs b (save_tps b.timestamp f b.num_txs s)

module _ (shard : Shard) where
  -- What the total counts before the block of a nonce: the total that is kept, if there is one, and
  -- else the transfers that are found before the block. A total of 0 is as if none was kept.
  abbrev pub StartsAt : ℕ → TpsEntries → ℕ → Type 0
  StartsAt nonce s before =
      ((0 < s.transaction_count) × (s.transaction_count ≡ before))
      ⊎ ((s.transaction_count ≡ 0)
          × (shard.transfers_before nonce ≡ some before)
          × (0 < (shard.block nonce).num_txs + before))

  process_nonce-transaction_count :
      (nonce : ℕ) (s : TpsEntries) (before : ℕ)
      → StartsAt nonce s before
      → (process_nonce shard nonce s).transaction_count ≡ before + (shard.block nonce).num_txs
  unfolding process_nonce increment_total_transactions
  process_nonce-transaction_count nonce s before h =
      let b = shard.block nonce in
      let kept = save_each-transaction_count frequencies b s in
      rw (kept) (elim h [
        | inl p ↦
            let e : nat_beq (s.transaction_count + b.num_txs) b.num_txs ≡ false =
              ground (arith, p.0) in
            rw (e) (ground (arith, p.1))
        | inr q ↦
            let e : nat_beq (s.transaction_count + b.num_txs) b.num_txs ≡ true =
              ground (arith, q.0) in
            rw (e, q.1) (ground (arith, q.0))
      ])

  process_nonce-StartsAt :
      (nonce : ℕ) (s : TpsEntries) (before : ℕ)
      → StartsAt nonce s before
      → StartsAt (suc nonce) (process_nonce shard nonce s) (before + (shard.block nonce).num_txs)
  process_nonce-StartsAt nonce s before h =
      let e = process_nonce-transaction_count nonce s before h in
      inl (elim h [ inl p ↦ ground (arith, p.0, p.1, e) | inr q ↦ ground (arith, q.2, e) ], e)

  -- After a run over the blocks from a nonce on, the total is what it counted before them and the
  -- transactions of these blocks: a total that was kept grows by them, and where none was kept the
  -- transfers that are found before the first block are added, once. This holds if the total that
  -- was kept is not 0, or it is 0 and the transfers before the first block are found and are, with
  -- those of the block, not 0.
  pub process_nonces-transaction_count :
      (n nonce : ℕ) (s : TpsEntries) (before : ℕ)
      → StartsAt nonce s before
      → (process_nonces shard (suc n) nonce s).transaction_count
        ≡ before + transactions_from shard (suc n) nonce
  unfolding process_nonces
  process_nonces-transaction_count zero nonce s before h =
      process_nonce-transaction_count nonce s before h ∙ omega arith
  process_nonces-transaction_count (suc n) nonce s before h =
      process_nonces-transaction_count n (suc nonce) (process_nonce shard nonce s)
        (before + (shard.block nonce).num_txs) (process_nonce-StartsAt nonce s before h)
      ∙ omega arith
