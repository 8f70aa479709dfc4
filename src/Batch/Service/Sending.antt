-- ===== src/Batch/Service/Sending.antt =====
-- What sending the items of a group does.
use mx_api_service.Base.{
  ◌≡◌, ◌≢◌, refl, ap, ◌∙◌, ◌⊎◌, inl, inr, true, false, List, [], ◌∷◌, ◌++◌, map, length, drop, take,
  All, some, String, arith, Bool-cases, Option-cases, List-cases, ◌==◌, text_comparable,
}
use text.Mathlib.TextEquality.{eq_iff}
use mx_api_service.CacheInfo
use mx_api_service.Batch.{
  TransactionDetails, BatchStatus, TransactionBatchItem, TransactionBatchGroup, TransactionBatch,
  is_item_invalid, get_address,
}
use mx_api_service.Batch.World.{
  text_value, batch_value, as_text, as_batch, Environment, World, Ensures, Ends-then_do, Ends-any,
}
use mx_api_service.Batch.Service.{
  execute_transaction, execute_items, store_pending, pending_hashes, pending_value,
  start_transaction_group, store_batch, start_first_group, start_transaction_batch, has_invalid,
  make_pending, hash_groups,
}

abbrev pub tx_of : TransactionBatchItem → TransactionDetails
tx_of item = item.transaction.tx

-- Transactions put on the record of what was sent, the last one on top.
abbrev pub send_all : List TransactionDetails → List TransactionDetails → List TransactionDetails
send_all [] sent = sent
send_all (tx ∷ txs) sent = send_all txs (tx ∷ sent)

-- The results of a run that stops at the first invalid item: only the last can be invalid, and it is
-- unless nothing is left.
abbrev pub StopsAtInvalid : List TransactionBatchItem → List TransactionBatchItem → Type 0
StopsAtInvalid [] rest = rest ≡ []
StopsAtInvalid (item ∷ []) rest = (is_item_invalid item.status ≡ true) ⊎ (rest ≡ [])
StopsAtInvalid (item ∷ item' ∷ results) rest =
    (is_item_invalid item.status ≡ false) × StopsAtInvalid (item' ∷ results) rest

cons-StopsAtInvalid :
    (item : TransactionBatchItem) (results rest : List TransactionBatchItem)
    → is_item_invalid item.status ≡ false
    → StopsAtInvalid results rest
    → StopsAtInvalid (item ∷ results) rest
cons-StopsAtInvalid item [] rest good h = inr h
cons-StopsAtInvalid item (item' ∷ results) rest good h = (good, h)

module _ {Store : Type 0} (env : Environment Store) where
  -- When the items of a group are sent, its items afterwards are those that were reached, followed by
  -- the others as they were; exactly the transactions of the items reached are sent, in order; and no
  -- event is emitted.
  pub execute_items-reached :
      (items : List TransactionBatchItem) (w : World Store)
      → let e = execute_items env items w in
        (e.items ≡ e.results ++ drop (length e.results) items)
        × (e.world.sent ≡ send_all (map tx_of (take (length e.results) items)) w.sent)
        × (e.world.emitted ≡ w.emitted)
  unfolding execute_items
  execute_items-reached [] w = (refl, refl, refl)
  execute_items-reached (item ∷ items) w =
      elim (Bool-cases (is_item_invalid (execute_transaction env item w).0.status)) [
        | inl bad ↦ rw bad (refl, refl, refl)
        | inr good ↦
            let rest = execute_items-reached items (execute_transaction env item w).1 in
            rw good (ap (λ r. (execute_transaction env item w).0 ∷ r) rest.0, rest.1, rest.2)
      ]

  -- Sending stops at the first transaction that is refused: every item that was reached but the last
  -- is not invalid, and the last is invalid unless every item of the group was reached.
  pub execute_items-StopsAtInvalid :
      (items : List TransactionBatchItem) (w : World Store)
      → StopsAtInvalid
          (execute_items env items w).results
          (drop (length (execute_items env items w).results) items)
  unfolding execute_items
  execute_items-StopsAtInvalid [] w = refl
  execute_items-StopsAtInvalid (item ∷ items) w =
      elim (Bool-cases (is_item_invalid (execute_transaction env item w).0.status)) [
        | inl bad ↦ rw bad (inl bad)
        | inr good ↦ rw good (
            cons-StopsAtInvalid (execute_transaction env item w).0 _ _ good
              (execute_items-StopsAtInvalid items (execute_transaction env item w).1))
      ]

  -- Entries for pending transactions.
  store_pending-keeps :
      (value : String) (hashes : List String) (w : World Store) (k : String)
      → as_text (env.get w.store k) ≡ some value
      → as_text (env.get (store_pending env value hashes w).store k) ≡ some value
  unfolding store_pending
  store_pending-keeps value [] w k h = h
  store_pending-keeps value (hash ∷ hashes) w k h =
      let info = CacheInfo.pending_transaction hash in
      store_pending-keeps value hashes
        (record w { store = env.set w.store info.key (text_value value) info.ttl }) k
        (elim (Bool-cases (info.key == k)) [
          | inl same ↦
              rw (← (eq_iff _ _).0 same)
                (rw (env.get-set w.store info.key (text_value value) info.ttl) refl)
          | inr other ↦
              rw
                (env.get-set_ne w.store info.key (text_value value) info.ttl k
                  (λ e. cc ((eq_iff _ _).1 e)))
                h
        ])

  store_pending-tracks :
      (value : String) (hashes : List String) (w : World Store)
      → All
          (λ hash.
            as_text (
              env.get
                (store_pending env value hashes w).store
                (CacheInfo.pending_transaction hash).key)
            ≡ some value)
          hashes
  unfolding store_pending
  store_pending-tracks value [] w = tt
  store_pending-tracks value (hash ∷ hashes) w =
      let info = CacheInfo.pending_transaction hash in
      let w' = record w { store = env.set w.store info.key (text_value value) info.ttl } in
      (
        store_pending-keeps value hashes w' info.key
            (rw (env.get-set w.store info.key (text_value value) info.ttl) refl),
        store_pending-tracks value hashes w',
      )

  pub store_pending-sent :
      (value : String) (hashes : List String) (w : World Store)
      → ((store_pending env value hashes w).sent ≡ w.sent)
        × ((store_pending env value hashes w).emitted ≡ w.emitted)
  unfolding store_pending
  store_pending-sent value [] w = (refl, refl)
  store_pending-sent value (hash ∷ hashes) w =
      let info = CacheInfo.pending_transaction hash in
      store_pending-sent value hashes
        (record w { store = env.set w.store info.key (text_value value) info.ttl })

  -- After a group was started, every transaction of it that was reached and is pending has the entry
  -- by which the processor finds its batch; nothing is sent but the transactions of the items
  -- reached, and no event is emitted.
  pub start_transaction_group-tracks :
      (now : String) (batch : TransactionBatch) (group : TransactionBatchGroup) (w : World Store)
      (address : String)
      → get_address batch ≡ some address
      → let e = execute_items env group.items w in
        Ensures (start_transaction_group env now batch group w) (λ group' w'.
          (group'.items ≡ e.items)
          × (w'.sent ≡ e.world.sent)
          × (w'.emitted ≡ w.emitted)
          × All
              (λ hash.
                as_text (env.get w'.store (CacheInfo.pending_transaction hash).key)
                ≡ some (pending_value batch.id address now))
              (pending_hashes e.results))
  unfolding start_transaction_group
  start_transaction_group-tracks now batch group w address h =
      let e = execute_items env group.items w in
      let value = pending_value batch.id address now in
      rw (h, start_transaction_group)
        (
          refl,
          (store_pending-sent value (pending_hashes e.results) e.world).0,
          (store_pending-sent value (pending_hashes e.results) e.world).1
              ∙ (execute_items-reached group.items w).2,
          store_pending-tracks value (pending_hashes e.results) e.world,
        )

  -- The batch is either invalid, with an invalid transaction in its first group, or pending with
  -- none, and then it is in the cache under its address and id.
  pub data Started (batch : TransactionBatch) (w : World Store) : Type 0 where
    turned_down :
        (group : TransactionBatchGroup) (rest : List TransactionBatchGroup)
        → batch.groups ≡ group ∷ rest
        → has_invalid group ≡ true
        → batch.status ≡ BatchStatus.invalid
        → Started batch w
    under_way :
        (group : TransactionBatchGroup) (rest : List TransactionBatchGroup) (address : String)
        → batch.groups ≡ group ∷ rest
        → has_invalid group ≡ false
        → batch.status ≡ BatchStatus.pending
        → get_address batch ≡ some address
        → as_batch (env.get w.store (CacheInfo.transaction_batch address batch.id).key) ≡ some batch
        → Started batch w

  store_batch-Started :
      (batch : TransactionBatch) (group : TransactionBatchGroup) (rest : List TransactionBatchGroup)
      (w : World Store)
      → batch.groups ≡ group ∷ rest
      → has_invalid group ≡ false
      → batch.status ≡ BatchStatus.pending
      → Ensures (store_batch env batch w) Started
  unfolding store_batch
  store_batch-Started batch group rest w g good p = elim (Option-cases (get_address batch)) [
    | inl e ↦ rw (e, store_batch) tt
    | inr (address, e) ↦
        let info = CacheInfo.transaction_batch address batch.id in
        rw (e, store_batch)
          (under_way group rest address g good p e
            (rw (env.get-set w.store info.key (batch_value batch) info.ttl) refl))
  ]

  start_first_group-Started :
      (now : String) (batch : TransactionBatch) (group : TransactionBatchGroup)
      (rest : List TransactionBatchGroup) (w : World Store)
      → batch.status ≡ BatchStatus.pending
      → Ensures (start_first_group env now batch group rest w) Started
  unfolding start_first_group
  start_first_group-Started now batch group rest w p =
      Ends-then_do (start_transaction_group env now batch group w) _ (λ g w'. Unit {0}) Started
        (λ w'. Unit {0}) (Ends-any (start_transaction_group env now batch group w))
        (λ group' w' _. elim (Bool-cases (has_invalid group')) [
          | inl bad ↦ rw bad (turned_down group' rest refl bad refl)
          | inr good ↦ rw good (
              store_batch-Started (record batch { groups = group' ∷ rest }) group' rest w' refl good
                p)
        ])

  hash_groups-ne-nil :
      (group : TransactionBatchGroup) (groups : List TransactionBatchGroup)
      → hash_groups env (group ∷ groups) ≢ some []
  unfolding hash_groups
  hash_groups-ne-nil group groups h = ground arith

  -- Starting a batch that has a group, if no exception is thrown: the batch comes back invalid
  -- because a transaction of its first group was refused, or it comes back pending, with no invalid
  -- transaction in its first group, and it is then in the cache under its address and id.
  pub start_transaction_batch-Started :
      (now : String) (batch : TransactionBatch) (source_ip : String) (w : World Store)
      → batch.groups ≢ []
      → Ensures (start_transaction_batch env now batch source_ip w) Started
  unfolding start_transaction_batch
  start_transaction_batch-Started now batch source_ip w h = elim (List-cases batch.groups) [
    | inl e ↦ absurd (h e)
    | inr (group, groups, e) ↦ elim (Option-cases (hash_groups env batch.groups)) [
      | inl e' ↦ rw (e, start_transaction_batch, e') tt
      | inr (hashed, e') ↦ elim (List-cases hashed) [
        | inl n ↦ absurd (hash_groups-ne-nil group groups (rw (e, n) at e'))
        | inr (group', rest, n) ↦
            rw (e, start_transaction_batch, e', n)
              (start_first_group-Started now
                (record batch {
                  groups = make_pending group' ∷ map make_pending rest;
                  status = BatchStatus.pending;
                  source_ip = source_ip;
                })
                (make_pending group') (map make_pending rest) w refl)
      ]
    ]
  ]
