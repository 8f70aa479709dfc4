-- ===== src/Batch/World.antt =====
-- What the batch services act on. The remote cache, the service that sends a transaction to the
-- network, the hash of a transaction and the reading of dates are not part of these components:
-- they are the fields of `Environment`, with the laws of the cache that the proofs rely on.
use mx_api_service.Base.{ℕ, ◌≡◌, ◌≢◌, List, Option, none, some, String}
use mx_api_service.CacheInfo.{Duration}
use mx_api_service.Batch.{TransactionDetails, TransactionBatch}

-- A value of the remote cache: a batch, or the text that stands for a pending transaction.
pub data CacheValue : Type 0 where
  batch_value : TransactionBatch → CacheValue
  text_value : String → CacheValue

abbrev pub as_batch : Option CacheValue → Option TransactionBatch
as_batch (some (batch_value b)) = some b
as_batch _ = none

abbrev pub as_text : Option CacheValue → Option String
as_text (some (text_value t)) = some t
as_text _ = none

-- What `TransactionService.createTransaction` (transaction.service.ts) comes to: it returns an object,
-- with the field `txHash` or without; it returns a text, the gateway's error; or it throws an error,
-- of which a message can be read or not.
pub data Created : Type 0 where
  returned : Option String → Created
  refused : String → Created
  threw : Option String → Created

-- What `TransactionService.getTransaction` comes to.
pub data Lookup : Type 0 where
  found missing failed : Lookup

pub record Environment (Store : Type 0) : Type 0 where
  pub get : Store → String → Option CacheValue
  pub set : Store → String → CacheValue → Duration → Store
  pub delete : Store → String → Store
  -- the keys of the store that fit a pattern
  pub keys : Store → String → List String
  -- the answer to a transaction, after the transactions that were sent before it
  pub create_transaction : List TransactionDetails → TransactionDetails → Created
  -- `none` where building the transaction object throws
  pub compute_hash : TransactionDetails → Option String
  pub get_transaction : String → Lookup
  -- `new Date(text)` in milliseconds; `none` is an invalid date
  pub parse_date : String → Option ℕ
  pub get-set :
      (s : Store) (k : String) (v : CacheValue) (ttl : Duration) → get (set s k v ttl) k ≡ some v
  pub get-set_ne :
      (s : Store) (k : String) (v : CacheValue) (ttl : Duration) (j : String)
      → k ≢ j
      → get (set s k v ttl) j ≡ get s j
  pub get-delete : (s : Store) (k : String) → get (delete s k) k ≡ none
  pub get-delete_ne : (s : Store) (k j : String) → k ≢ j → get (delete s k) j ≡ get s j

-- The event `onBatchUpdated`.
pub record BatchUpdated : Type 0 where
  pub address : String
  pub batch_id : String
  pub tx_hashes : List String

-- The cache, the transactions sent so far (the latest first) and the events emitted (likewise).
pub record World (Store : Type 0) : Type 0 where
  pub store : Store
  pub sent : List TransactionDetails
  pub emitted : List BatchUpdated

-- A run of asynchronous code ends with a value or with an exception.
pub data Flow (Store : Type 0) (A : Type 0) : Type 0 where
  ok : A → World Store → Flow Store A
  thrown : World Store → Flow Store A

abbrev pub then_do :
    {Store A B : Type 0} → Flow Store A → (A → World Store → Flow Store B) → Flow Store B
then_do (ok a w) k = k a w
then_do (thrown w) k = thrown w

-- The world that is left, whichever way the run ends.
abbrev pub world_of : {Store A : Type 0} → Flow Store A → World Store
world_of (ok a w) = w
world_of (thrown w) = w

-- `try { … } finally { … }` for a final block that does not throw.
abbrev pub finally : {Store A : Type 0} → Flow Store A → (World Store → World Store) → Flow Store A
finally (ok a w) f = ok a (f w)
finally (thrown w) f = thrown (f w)

-- The run ends with a value for which `P` holds, or with an exception in a world for which `Q` does.
abbrev pub Ends :
    {Store A : Type 0} → Flow Store A → (A → World Store → Type 0) → (World Store → Type 0) → Type 0
Ends (ok a w) P Q = P a w
Ends (thrown w) P Q = Q w

-- If the run ends with a value, `P` holds for it.
abbrev pub Ensures : {Store A : Type 0} → Flow Store A → (A → World Store → Type 0) → Type 0
Ensures m P = Ends m P (λ w. Unit {0})

-- The run ends with a value, and `P` holds for it.
abbrev pub Returns : {Store A : Type 0} → Flow Store A → (A → World Store → Type 0) → Type 0
Returns m P = Ends m P (λ w. ⊥)

pub Ends-then_do :
    {Store A B : Type 0}
    → (m : Flow Store A) (k : A → World Store → Flow Store B) (P : A → World Store → Type 0)
      (R : B → World Store → Type 0) (Q : World Store → Type 0)
    → Ends m P Q
    → ((a : A) (w : World Store) → P a w → Ends (k a w) R Q)
    → Ends (then_do m k) R Q
Ends-then_do (ok a w) k P R Q h f = f a w h
Ends-then_do (thrown w) k P R Q h f = h

pub Ends-map :
    {Store A : Type 0}
    → (m : Flow Store A) (P P' : A → World Store → Type 0) (Q Q' : World Store → Type 0)
    → ((a : A) (w : World Store) → P a w → P' a w)
    → ((w : World Store) → Q w → Q' w)
    → Ends m P Q
    → Ends m P' Q'
Ends-map (ok a w) P P' Q Q' f g h = f a w h
Ends-map (thrown w) P P' Q Q' f g h = g w h

pub Ends-any : {Store A : Type 0} → (m : Flow Store A) → Ensures m (λ a w. Unit {0})
Ends-any (ok a w) = tt
Ends-any (thrown w) = tt

-- A final block that keeps what is said of the end of a run.
pub Ends-finally :
    {Store A : Type 0}
    → (m : Flow Store A) (f : World Store → World Store) (P : A → World Store → Type 0)
      (Q : World Store → Type 0)
    → Ends m (λ a w. P a (f w)) (λ w. Q (f w))
    → Ends (finally m f) P Q
Ends-finally (ok a w) f P Q h = h
Ends-finally (thrown w) f P Q h = h
