-- ===== src/Processor/Dropped/Laws.antt =====
-- What dropping a transaction does to its batch.
use mx_api_service.Base.{
  ◌≡◌, refl, sym, ◌∙◌, Bool, true, false, ◌||◌, List, [], ◌∷◌, ◌++◌, map, exists, append_assoc,
  append-nil, some, String, text_comparable, if◌then◌else◌, Bool-cases, inl, inr,
}
use mx_api_service.CacheInfo
use mx_api_service.CacheInfo.{pending_transaction-ne-transaction_batch}
use mx_api_service.Batch.{
  BatchStatus, TransactionBatchItem, TransactionBatchGroup, TransactionBatch,
}
use mx_api_service.Batch.World.{batch_value, as_batch, Environment, World}
use mx_api_service.Processor.Dropped.{
  waits_for, dropped_item, Dropping, drop_item, drop_items, drop_groups, drop_in_batch,
}

-- The items of a group once `hash` was dropped.
abbrev pub drop_waiting : String → List TransactionBatchItem → List TransactionBatchItem
drop_waiting hash = map (λ item. if waits_for hash item then dropped_item item else item)

abbrev pub any_waits : String → List TransactionBatchItem → Bool
any_waits hash = exists (waits_for hash)

abbrev pub drop_all : String → List TransactionBatchGroup → List TransactionBatchGroup
drop_all hash = map (λ group. record { items = drop_waiting hash group.items })

abbrev pub any_group_waits : String → List TransactionBatchGroup → Bool
any_group_waits hash = exists (λ group. any_waits hash group.items)

if_same : {A : Type 0} → (b : Bool) (a : A) → (if b then a else a) ≡ a
if_same true a = refl
if_same false a = refl

if_or :
    {A : Type 0}
    → (a b : Bool) (x y : A) → (if b then x else if a then x else y) ≡ (if a || b then x else y)
if_or true b x y = if_same b x
if_or false b x y = refl

module _ {Store : Type 0} (env : Environment Store) (hash batch_id address : String) where
  abbrev Cached : TransactionBatch → World Store → Type 0
  Cached b w =
      as_batch (env.get w.store (CacheInfo.transaction_batch address batch_id).key) ≡ some b

  drop_item-Cached :
      (batch : TransactionBatch) (d : Dropping Store)
      → Cached batch (drop_item env hash batch_id address batch d).world
  unfolding drop_item
  drop_item-Cached batch d =
      let info = CacheInfo.transaction_batch address batch_id in
      let s = env.set d.world.store info.key (batch_value batch) info.ttl in
      rw (env.get-delete_ne s _ _ (pending_transaction-ne-transaction_batch hash address batch_id))
        (rw (env.get-set d.world.store info.key (batch_value batch) info.ttl) refl)

  module _ (rebuild : List TransactionBatchItem → BatchStatus → TransactionBatch)
      (done : List TransactionBatchItem) (item : TransactionBatchItem)
      (items : List TransactionBatchItem) (d : Dropping Store) where
    drop_items-waits :
        waits_for hash item ≡ true
        → drop_items env hash batch_id address rebuild done (item ∷ items) d
          ≡ drop_items env hash batch_id address rebuild (done ++ dropped_item item ∷ []) items (
              drop_item env hash batch_id address
                (rebuild (done ++ dropped_item item ∷ items) BatchStatus.dropped)
                d)
    unfolding drop_items
    drop_items-waits h = rw (h, drop_items) refl

    drop_items-passes :
        waits_for hash item ≡ false
        → drop_items env hash batch_id address rebuild done (item ∷ items) d
          ≡ drop_items env hash batch_id address rebuild (done ++ item ∷ []) items d
    unfolding drop_items
    drop_items-passes h = rw (h, drop_items) refl

  -- The inner loop, while the cache has the batch as it stands.
  drop_items-Cached :
      (rebuild : List TransactionBatchItem → BatchStatus → TransactionBatch)
      (done items : List TransactionBatchItem) (d : Dropping Store)
      → Cached (rebuild (done ++ items) d.status) d.world
      → let r = drop_items env hash batch_id address rebuild done items d in
        (r.0 ≡ done ++ drop_waiting hash items)
        × Cached (rebuild r.0 r.1.status) r.1.world
        × (r.1.status ≡ (if any_waits hash items then BatchStatus.dropped else d.status))
  unfolding drop_item
  drop_items-Cached rebuild done [] d h =
      unfold drop_items in (sym (append-nil done), rw (append-nil done) at h, refl)
  drop_items-Cached rebuild done (item ∷ items) d h = elim (Bool-cases (waits_for hash item)) [
    | inl waits ↦
        let item' = dropped_item item in
        let d' =
          drop_item env hash batch_id address (rebuild (done ++ item' ∷ items) BatchStatus.dropped)
            d in
        let now : Cached (rebuild ((done ++ item' ∷ []) ++ items) BatchStatus.dropped) d'.world =
          rw (append_assoc done (item' ∷ []) items)
            (drop_item-Cached (rebuild (done ++ item' ∷ items) BatchStatus.dropped) d) in
        let ih = drop_items-Cached rebuild (done ++ item' ∷ []) items d' now in
        rw (drop_items-waits rebuild done item items d waits, waits)
          (
            ih.0 ∙ append_assoc done (item' ∷ []) (drop_waiting hash items),
            ih.1,
            ih.2 ∙ if_same (any_waits hash items) BatchStatus.dropped,
          )
    | inr other ↦
        let now : Cached (rebuild ((done ++ item ∷ []) ++ items) d.status) d.world =
          rw (append_assoc done (item ∷ []) items) h in
        let ih = drop_items-Cached rebuild (done ++ item ∷ []) items d now in
        rw (drop_items-passes rebuild done item items d other, other)
          (ih.0 ∙ append_assoc done (item ∷ []) (drop_waiting hash items), ih.1, ih.2)
  ]

  -- The items of one group, within its batch.
  abbrev in_group :
      TransactionBatch
      → List TransactionBatchGroup
      → List TransactionBatchItem
      → List TransactionBatchGroup
      → Dropping Store
      → List TransactionBatchItem × Dropping Store
  in_group batch done items groups d =
      drop_items env hash batch_id address
        (λ items s. record batch { groups = done ++ record { items = items } ∷ groups; status = s })
        [] items d

  drop_groups-cons :
      (batch : TransactionBatch) (done groups : List TransactionBatchGroup)
      (group : TransactionBatchGroup) (d : Dropping Store)
      → drop_groups env hash batch_id address batch done (group ∷ groups) d
        ≡ drop_groups env hash batch_id address batch
            (done ++ record { items = (in_group batch done group.items groups d).0 } ∷ [])
            groups
            (in_group batch done group.items groups d).1
  unfolding drop_groups
  drop_groups-cons batch done groups group d = refl

  drop_groups-Cached :
      (batch : TransactionBatch) (done groups : List TransactionBatchGroup) (d : Dropping Store)
      → Cached (record batch { groups = done ++ groups; status = d.status }) d.world
      → let r = drop_groups env hash batch_id address batch done groups d in
        Cached
          (record batch {
            groups = done ++ drop_all hash groups;
            status = if any_group_waits hash groups then BatchStatus.dropped else d.status;
          })
          r.world
  drop_groups-Cached batch done [] d h = unfold drop_groups in h
  drop_groups-Cached batch done (group ∷ groups) d h =
      let rebuild = λ (items : List TransactionBatchItem) (s : BatchStatus). record batch {
        groups = done ++ record { items = items } ∷ groups;
        status = s;
      } in
      let inner = drop_items-Cached rebuild [] group.items d h in
      let d' = (drop_items env hash batch_id address rebuild [] group.items d).1 in
      let group' : TransactionBatchGroup = record { items = drop_waiting hash group.items } in
      let here : Cached
          (record batch { groups = (done ++ group' ∷ []) ++ groups; status = d'.status }) d'.world =
        rw (append_assoc done (group' ∷ []) groups) (rw inner.0 at (inner.1)) in
      let ih = drop_groups-Cached batch (done ++ group' ∷ []) groups d' here in
      rw
        (
          drop_groups-cons batch done groups group d,
          inner.0,
          ← append_assoc done (group' ∷ []) (drop_all hash groups),
          ← if_or (any_waits hash group.items) (any_group_waits hash groups) BatchStatus.dropped
              d.status,
          ← inner.2,
        )
        ih

  -- A cached batch is found in the cache with the transaction dropped wherever it was pending, and
  -- with nothing else changed but its own status: that is dropped if there was such a place, and
  -- otherwise as it was.
  pub drop_in_batch-drop_all :
      (batch : TransactionBatch) (w : World Store)
      → as_batch (env.get w.store (CacheInfo.transaction_batch address batch_id).key) ≡ some batch
      → as_batch (
          env.get
            (drop_in_batch env hash batch_id address w).world.store
            (CacheInfo.transaction_batch address batch_id).key)
        ≡ some (record batch {
          groups = drop_all hash batch.groups;
          status = if any_group_waits hash batch.groups then BatchStatus.dropped else batch.status;
        })
  unfolding drop_in_batch
  drop_in_batch-drop_all batch w h =
      rw (h, drop_in_batch)
        (drop_groups-Cached batch [] batch.groups
          (record { status = batch.status; world = w; count = 0 }) h)
