-- ===== src/Processor/Examples.antt =====
-- A small environment and a batch of two groups: tests of the batch services, and their theorems at
-- concrete inputs.
use mathlib.Core.Option
use mx_api_service.Base.{
  ◌≡◌, ◌≢◌, ◌⊎◌, inl, inr, refl, ◌==◌, text_comparable, true, List, [], ◌∷◌, map, drop, take, ◌++◌,
  length, Option, none, some, String, if◌then◌else◌, Bool-cases, arith, ◌<>◌, get_elem?,
}
use text.Mathlib.TextEquality.{eq_iff}
use mx_api_service.CacheInfo
use mx_api_service.CacheInfo.{Duration}
use mx_api_service.Batch.{
  TransactionDetails, ItemStatus, BatchStatus, TransactionBatchItem, TransactionBatchGroup,
  TransactionBatch, is_item_success,
}
use mx_api_service.Batch.World.{
  CacheValue, batch_value, as_batch, Created, returned, refused, Environment, World, Ensures,
  Returns, world_of, missing,
}
use mx_api_service.Batch.Service.{execute_items, start_transaction_batch, pending_value}
use mx_api_service.Batch.Service.Sending.{
  Started, StopsAtInvalid, execute_items-reached, send_all, tx_of, execute_items-StopsAtInvalid,
  start_transaction_batch-Started,
}
use mx_api_service.Batch.Convert.{
  TransactionBatchSimplified, convert_to_transaction_batch, convert_from_transaction_batch,
  convert_from-convert_to, waiting,
}
use mx_api_service.Processor.{
  process_item, process_transaction, group_items, set_item, hash_of, all_success,
}
use mx_api_service.Processor.Steps.{process_transaction-final, process_transaction-forgets}
use mx_api_service.Processor.Saved.{process_transaction-IsSaved}
use mx_api_service.Processor.Success.{last_items, process_transaction-IsSound}
use mx_api_service.Processor.Order.{Advances, process_item-Advances}
use mx_api_service.Processor.Pending.{parse_pending-pending_value}
use mx_api_service.Processor.Jobs.{parse_pending}
use mx_api_service.Processor.Dropped.{drop_in_batch}
use mx_api_service.Processor.Dropped.Laws.{drop_all, any_group_waits, drop_in_batch-drop_all}

abbrev Store : Type 0
Store = String → Option CacheValue

abbrev put : Store → String → Option CacheValue → Store
put s k v j = if k == j then v else s j

put_self : (s : Store) (k : String) (v : Option CacheValue) → put s k v k ≡ v
put_self s k v = rw (text_comparable.reflexive k) refl

put-ne : (s : Store) (k : String) (v : Option CacheValue) (j : String) → k ≢ j → put s k v j ≡ s j
put-ne s k v j n = elim (Bool-cases (k == j)) [
  | inl e ↦ absurd (n ((eq_iff k j).0 e))
  | inr e ↦ rw e refl
]

-- The network accepts what is sent to `bob` and refuses the rest.
abbrev answer : List TransactionDetails → TransactionDetails → Created
answer sent tx =
    if tx.receiver == "bob" then returned (some (tx.signature <> "-hash")) else refused "no"

abbrev env : Environment Store
env = record {
  get = λ s k. s k;
  set = λ s k v ttl. put s k (some v);
  delete = λ s k. put s k none;
  keys = λ s pattern. [];
  create_transaction = answer;
  compute_hash = λ tx. some (tx.signature <> "-hash");
  get_transaction = λ hash. missing;
  parse_date = λ text. some 7;
  get-set = λ s k v ttl. put_self s k (some v);
  get-set_ne = λ s k v ttl j n. put-ne s k (some v) j n;
  get-delete = λ s k. put_self s k none;
  get-delete_ne = λ s k j n. put-ne s k none j n;
}

abbrev tx : String → String → TransactionDetails
tx signature receiver = record {
  chain_id = "1";
  payload = none;
  gas_limit = 50000;
  gas_price = 1;
  nonce = 0;
  receiver = receiver;
  sender = "alice";
  signature = signature;
  value = "1";
  version = 1;
  options = none;
  guardian = none;
  guardian_signature = none;
}

abbrev item : String → String → ItemStatus → TransactionBatchItem
item signature receiver status = record {
  transaction = record { tx = tx signature receiver; hash = signature <> "-hash"; payload = "" };
  status = status;
  error = none;
}

abbrev first : TransactionBatchGroup
first = record {
  items = item "a" "bob" ItemStatus.pending ∷ item "b" "bob" ItemStatus.success ∷ [];
}

abbrev second : TransactionBatchGroup
second = record {
  items = item "c" "carol" ItemStatus.pending ∷ item "d" "bob" ItemStatus.pending ∷ [];
}

abbrev batch : BatchStatus → TransactionBatch
batch status = record { id = "7"; groups = first ∷ second ∷ []; status = status; source_ip = "" }

abbrev empty : World Store
empty = record { store = λ k. none; sent = []; emitted = [] }

abbrev key : String
key = "transactionbatch:alice:7"

abbrev holding : TransactionBatch → World Store
holding b = record empty { store = put (λ k. none) key (some (batch_value b)) }

is_held :
    (b : TransactionBatch)
    → as_batch (env.get (holding b).store (CacheInfo.transaction_batch "alice" "7").key) ≡ some b
unfolding CacheInfo.transaction_batch ◌<>◌
is_held b = refl

execute_items-StopsAtInvalid_example :
    StopsAtInvalid
      (execute_items env second.items empty).results
      (drop (length (execute_items env second.items empty).results) second.items)
execute_items-StopsAtInvalid_example = execute_items-StopsAtInvalid env second.items empty

execute_items-reached_example :
    ((execute_items env second.items empty).items
      ≡ (execute_items env second.items empty).results
        ++ drop (length (execute_items env second.items empty).results) second.items)
    × ((execute_items env second.items empty).world.sent
        ≡ send_all
            (map tx_of (take (length (execute_items env second.items empty).results) second.items))
            empty.sent)
    × ((execute_items env second.items empty).world.emitted ≡ empty.emitted)
execute_items-reached_example = execute_items-reached env second.items empty

start_transaction_batch-Started_example :
    Ensures
      (start_transaction_batch env "now" (batch BatchStatus.pending) "::1" empty)
      (Started env)
start_transaction_batch-Started_example =
    start_transaction_batch-Started env "now" (batch BatchStatus.pending) "::1" empty (λ e. cc)

abbrev simplified : TransactionBatchSimplified
simplified = record { id = "7"; transactions = (tx "a" "bob" ∷ []) ∷ (tx "b" "bob" ∷ []) ∷ [] }

convert_from-convert_to_example :
    convert_from_transaction_batch (convert_to_transaction_batch simplified) ≡ record {
      id = "7";
      status = BatchStatus.pending;
      transactions = map (map waiting) simplified.transactions;
    }
convert_from-convert_to_example = convert_from-convert_to simplified

process_transaction-final_example :
    Returns
      (process_transaction env "now" "a-hash" "7" "alice" ItemStatus.success
        (holding (batch BatchStatus.invalid)))
      (λ o w'.
        (Option.map (λ (b : TransactionBatch). b.status) o ≡ some BatchStatus.invalid)
        × (w'.sent ≡ [])
        × (w'.emitted ≡ []))
process_transaction-final_example =
    process_transaction-final env "now" "a-hash" "7" "alice" ItemStatus.success
      (batch BatchStatus.invalid) (holding (batch BatchStatus.invalid))
      (is_held (batch BatchStatus.invalid)) refl

process_transaction-forgets_example :
    env.get
      (world_of (process_transaction env "now" "a-hash" "7" "alice" ItemStatus.success empty)).store
      (CacheInfo.pending_transaction "a-hash").key
    ≡ none
process_transaction-forgets_example =
    process_transaction-forgets env "now" "a-hash" "7" "alice" ItemStatus.success empty

process_transaction-IsSaved_example :
    Ensures
      (process_transaction env "now" "a-hash" "7" "alice" ItemStatus.success
        (holding (batch BatchStatus.pending)))
      (λ o w'. as_batch (env.get w'.store (CacheInfo.transaction_batch "alice" "7").key) ≡ o)
process_transaction-IsSaved_example =
    process_transaction-IsSaved env "now" "a-hash" "7" "alice" ItemStatus.success
      (batch BatchStatus.pending) (holding (batch BatchStatus.pending))
      (is_held (batch BatchStatus.pending))

process_transaction-IsSound_example :
    Ensures
      (process_transaction env "now" "a-hash" "7" "alice" ItemStatus.success
        (holding (batch BatchStatus.pending)))
      (λ o w'.
        (Option.map (λ (b : TransactionBatch). b.status) o ≢ some BatchStatus.success)
        ⊎ ((is_item_success ItemStatus.success ≡ true)
            × (Option.map (λ b. all_success (last_items b)) o ≡ some true)))
process_transaction-IsSound_example =
    process_transaction-IsSound env "now" "a-hash" "7" "alice" ItemStatus.success
      (batch BatchStatus.pending) (holding (batch BatchStatus.pending))
      (is_held (batch BatchStatus.pending)) refl

process_item-Advances_example :
    ((world_of (
        process_item env "now" "a-hash" "7" "alice" ItemStatus.success 0 0
          (batch BatchStatus.pending)
          empty)).sent
      ≡ [])
    ⊎ ((found : TransactionBatchItem) × (get_elem? (group_items (batch BatchStatus.pending) 0) 0
          ≡ some found)
        × (hash_of found ≡ "a-hash")
        × Advances env "now" "a-hash" "7" "alice" ItemStatus.success 0
            (set_item
              (batch BatchStatus.pending)
              0
              0
              (record found { status = ItemStatus.success }))
            empty
            (world_of (
              process_item env "now" "a-hash" "7" "alice" ItemStatus.success 0 0
                (batch BatchStatus.pending)
                empty)).sent)
process_item-Advances_example =
    process_item-Advances env "now" "a-hash" "7" "alice" ItemStatus.success 0 0
      (batch BatchStatus.pending) empty

parse_pending-pending_value_example :
    parse_pending (λ text. some 7) (pending_value "7" "alice" "2024")
    ≡ record { batch_id = "7"; address = "alice"; date = some 7 }
parse_pending-pending_value_example =
    parse_pending-pending_value (λ text. some 7) "7" "alice" "2024" (omega arith) (omega arith)
      (omega arith)

drop_in_batch-drop_all_example :
    as_batch (
      env.get
        (drop_in_batch env "a-hash" "7" "alice" (holding (batch BatchStatus.pending))).world.store
        (CacheInfo.transaction_batch "alice" "7").key)
    ≡ some (record (batch BatchStatus.pending) {
      groups = drop_all "a-hash" (batch BatchStatus.pending).groups;
      status =
          if any_group_waits "a-hash" (batch BatchStatus.pending).groups
          then BatchStatus.dropped
          else BatchStatus.pending;
    })
drop_in_batch-drop_all_example =
    drop_in_batch-drop_all env "a-hash" "7" "alice" (batch BatchStatus.pending)
      (holding (batch BatchStatus.pending)) (is_held (batch BatchStatus.pending))
