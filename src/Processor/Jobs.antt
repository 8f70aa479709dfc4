-- ===== src/Processor/Jobs.antt =====
-- `handleTransactionBatches` of the processor, for the transactions of a block, and the reading and
-- the grouping that it shares with the job for dropped transactions.
use mx_api_service.Base.{
  ℕ, List, [], ◌∷◌, ◌++◌, map, Option, none, some, String, ◌==◌, text_comparable, if◌then◌else◌,
  split,
}
use mx_api_service.CacheInfo
use mx_api_service.Batch.{ItemStatus}
use mx_api_service.Batch.World.{as_text, Environment, BatchUpdated, World, Flow, ok, then_do}
use mx_api_service.Processor.{emit, process_transaction}

-- What the text of a pending transaction says.
pub record Pending : Type 0 where
  pub batch_id : String
  pub address : String
  -- `none` is an invalid date
  pub date : Option ℕ

-- A transaction whose batch was changed.
pub record Processed : Type 0 where
  pub batch_id : String
  pub hash : String
  pub address : String

-- A transaction as the blocks show it.
pub record ShardTransaction : Type 0 where
  pub hash : String
  pub sender : String
  pub status : ItemStatus

-- An object with the keys in the order of insertion (hashes are no array indices).
module _ {V : Type 0} where
  unfoldable pub put : String → V → List (String × V) → List (String × V)
  put k v [] = (k, v) ∷ []
  put k v ((j, u) ∷ m) = if j == k then (j, v) ∷ m else (j, u) ∷ put k v m

  unfoldable pub look : String → List (String × V) → Option V
  look k [] = none
  look k ((j, u) ∷ m) = if j == k then some u else look k m

-- `new Date('2021-01-01')`.
abbrev pub default_date : ℕ
default_date = 1_609_459_200_000

unfoldable pub second_or_empty : List String → String
second_or_empty (a ∷ b ∷ rest) = b
second_or_empty _ = ""

unfoldable pub first_or_empty : List String → String
first_or_empty (a ∷ rest) = a
first_or_empty [] = ""

unfoldable pub third_date : (String → Option ℕ) → List String → Option ℕ
third_date parse_date (a ∷ b ∷ c ∷ rest) = parse_date c
third_date parse_date _ = some default_date

-- Reading the text that `startTransactionGroup` stores: its parts stand between semicolons.
unfoldable pub parse_pending : (String → Option ℕ) → String → Pending
unfolding second_or_empty first_or_empty third_date split
parse_pending parse_date text =
    let components = split b';' text in
    record {
      batch_id = first_or_empty components;
      address = second_or_empty components;
      date = third_date parse_date components;
    }

-- `processedTransactions.groupBy(x => x.batchId)` followed by one event for each group, in
-- the order in which the ids came up (ids that are array indices apart).
unfoldable pub add_processed :
    Processed → List (String × List Processed) → List (String × List Processed)
unfolding put look
add_processed p groups = elim (look p.batch_id groups) [
  | none ↦ put p.batch_id (p ∷ []) groups
  | some ps ↦ put p.batch_id (ps ++ p ∷ []) groups
]

unfoldable pub group_by_batch :
    List Processed → List (String × List Processed) → List (String × List Processed)
unfolding add_processed
group_by_batch [] groups = groups
group_by_batch (p ∷ ps) groups = group_by_batch ps (add_processed p groups)

abbrev event_of : String → List Processed → BatchUpdated
event_of batch_id [] = record { address = ""; batch_id = batch_id; tx_hashes = [] }
event_of batch_id (p ∷ ps) = record {
  address = p.address;
  batch_id = batch_id;
  tx_hashes = map (λ (q : Processed). q.hash) (p ∷ ps);
}

module _ {Store : Type 0} (env : Environment Store) where
  unfoldable pub emit_all : List (String × List Processed) → World Store → World Store
  unfolding emit
  emit_all [] w = w
  emit_all ((batch_id, ps) ∷ groups) w = emit_all groups (emit env (event_of batch_id ps) w)

  -- The pending transactions among the given ones, with what the cache knows of them; a text that is
  -- missing or empty is passed over.
  unfoldable pub read_pending :
      List String → World Store → List (String × Pending) → List (String × Pending)
  unfolding put parse_pending
  read_pending [] w m = m
  read_pending (hash ∷ hashes) w m =
      read_pending hashes w
        (elim (as_text (env.get w.store (CacheInfo.pending_transaction hash).key)) [
          | none ↦ m
          | some text ↦ if text == "" then m else put hash (parse_pending env.parse_date text) m
        ])

  -- `transactionsIndexed`: of two transactions with one hash the later counts.
  unfoldable pub index_transactions :
      List ShardTransaction → List (String × ShardTransaction) → List (String × ShardTransaction)
  unfolding put
  index_transactions [] m = m
  index_transactions (t ∷ ts) m = index_transactions ts (put t.hash t m)

  unfoldable pub process_pending :
      String
      → List (String × ShardTransaction)
      → List (String × Pending)
      → World Store
      → Flow Store (List Processed)
  unfolding look process_transaction
  process_pending now indexed [] w = ok [] w
  process_pending now indexed ((hash, p) ∷ pending) w = elim (look hash indexed) [
    | none ↦ process_pending now indexed pending w
    | some t ↦ then_do (process_transaction env now hash p.batch_id t.sender t.status w) λ _ w'.
        then_do (process_pending now indexed pending w')
          λ ps w''. ok (record { batch_id = p.batch_id; hash = hash; address = t.sender } ∷ ps) w''
  ]

  unfoldable pub handle_transaction_batches :
      String → List ShardTransaction → World Store → Flow Store (Unit {0})
  unfolding index_transactions read_pending process_pending group_by_batch emit_all
  handle_transaction_batches now transactions w =
      let indexed = index_transactions transactions [] in
      let pending = read_pending (map (λ (t : ShardTransaction). t.hash) transactions) w [] in
      then_do (process_pending now indexed pending w)
        λ processed w'. ok tt (emit_all (group_by_batch processed []) w')
