-- ===== src/Action/Service.antt =====
-- getTransactionMetadata, getRecognizers and getTransactionAction of TransactionActionService.
use mx_api_service.Base.{ℕ, Option, none, some, List, [], ◌∷◌, ◌++◌, Bool, if◌then◌else◌}
use mx_api_service.Action.{
  Outcome, returned, ◌>>=◌, Sdk, ActionTransaction, TransactionMetadata, TransactionAction,
}
use mx_api_service.Action.Normal.{get_normal_transaction_metadata}
use mx_api_service.Action.Transfers.{
  get_esdt_transaction_metadata, get_nft_transfer_metadata, get_multi_transfer_metadata,
}

module _ {P : Type 0} (sdk : Sdk P) where
  -- Each kind of transfer is tried, and the metadata is used as it is if there is none.
  unfoldable pub transfer_metadata : TransactionMetadata P → Bool → Outcome (TransactionMetadata P)
  unfolding get_esdt_transaction_metadata get_nft_transfer_metadata get_multi_transfer_metadata
  transfer_metadata m apply_value = do
    esdt ← get_esdt_transaction_metadata sdk m apply_value
    elim esdt [
      | some r ↦ returned r
      | none ↦ do
        nft ← get_nft_transfer_metadata sdk m
        elim nft [
          | some r ↦ returned r
          | none ↦ do
            multi ← get_multi_transfer_metadata sdk m apply_value
            elim multi [ some r ↦ returned r | none ↦ returned m ]
        ]
    ]

  unfoldable pub get_transaction_metadata :
      ℕ → ActionTransaction → Bool → Outcome (TransactionMetadata P)
  unfolding get_normal_transaction_metadata transfer_metadata
  get_transaction_metadata fuel t apply_value = do
    m ← get_normal_transaction_metadata sdk fuel t
    transfer_metadata m apply_value

-- What `recognize` gives: its answer, and the metadata after it, which the code passes by reference.
abbrev pub Answer : Type 0 → Type 0 → Type 0
Answer P A = Outcome (Option (TransactionAction A) × TransactionMetadata P)

abbrev pub Recognizer : Type 0 → Type 0 → Type 0
Recognizer P A = TransactionMetadata P → Answer P A

-- A recognizer that does not write the metadata.
abbrev pub reading :
    {P A : Type 0}
    → (TransactionMetadata P → Outcome (Option (TransactionAction A)))
    → Recognizer P A
reading r m = r m >>= (λ action. returned (action, m))

-- The services that the constructor takes.
pub record Recognizers (P A : Type 0) : Type 0 where
  pub mex : Recognizer P A
  pub metabonding : Recognizer P A
  pub esdt_nft : Recognizer P A
  pub stake : Recognizer P A
  pub sc_call : Recognizer P A

module _ {P A : Type 0} (r : Recognizers P A) where
  -- What getRecognizers does once it knows whether the exchange is active.
  unfoldable pub push_recognizers : Bool → List (Recognizer P A) → List (Recognizer P A)
  push_recognizers is_mex_active rs =
      (if is_mex_active then rs ++ r.mex ∷ [] else rs)
      ++ r.metabonding ∷ r.esdt_nft ∷ r.stake ∷ r.sc_call ∷ []

  unfoldable pub get_recognizers : Bool → List (Recognizer P A) → List (Recognizer P A)
  unfolding push_recognizers
  get_recognizers is_mex_active [] = push_recognizers is_mex_active []
  get_recognizers is_mex_active (x ∷ rs) = x ∷ rs

module _ {P A : Type 0} where
  -- The action is returned if it is not `undefined`; else the loop goes on.
  abbrev pub answer_or :
      Recognizer P A → Option (TransactionAction A) × TransactionMetadata P → Answer P A
  answer_or next (some a, m) = returned (some a, m)
  answer_or next (none, m) = next m

  unfoldable pub first_action : List (Recognizer P A) → Recognizer P A
  first_action [] m = returned (none, m)
  first_action (r ∷ rs) m = r m >>= answer_or (first_action rs)

  unfoldable pub get_transaction_action :
      Sdk P
      → ℕ
      → List (Recognizer P A)
      → ActionTransaction
      → Bool
      → Outcome (Option (TransactionAction A))
  unfolding get_transaction_metadata first_action
  get_transaction_action sdk fuel rs t apply_value = do
    m ← get_transaction_metadata sdk fuel t apply_value
    (action, m') ← first_action rs m
    returned action
