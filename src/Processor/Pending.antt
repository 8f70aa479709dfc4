-- ===== src/Processor/Pending.antt =====
-- The text of a pending transaction, from where it is written to where it is read.
use mx_api_service.Base.{ℕ, ◌≡◌, refl, Option, String, Lacks, split-<>, split-single, ◌<>◌}
use mx_api_service.Batch.Service.{pending_value}
use mx_api_service.Processor.Jobs.{parse_pending}

-- What `startTransactionGroup` stores, the processor reads back: the batch, the address and the date,
-- if none of the three texts has a semicolon in it.
pub parse_pending-pending_value :
    (parse_date : String → Option ℕ) (batch_id address now : String)
    → Lacks b';' batch_id
    → Lacks b';' address
    → Lacks b';' now
    → parse_pending parse_date (pending_value batch_id address now)
      ≡ record { batch_id = batch_id; address = address; date = parse_date now }
unfolding parse_pending pending_value ◌<>◌
parse_pending-pending_value parse_date batch_id address now h k l =
    rw
      (
        split-<> b';' batch_id (address <> (";" <> now)) ";" h refl,
        split-<> b';' address now ";" k refl,
        split-single b';' now l,
      )
      refl
