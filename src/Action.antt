-- ===== src/Action.antt =====
-- src/endpoints/transactions/transaction-action: what a transaction does, read from
-- its data.
pub mod Normal
pub mod Transfers
pub mod Service
pub mod ScCalls
pub mod Termination
pub mod Layout
pub mod Results
pub mod Recognized
pub mod Arguments
pub mod Esdt
pub mod Stake
pub mod Mex
pub mod Installed
pub mod TestSdk
mod TransferExamples
mod ServiceExamples
mod RecognizerExamples
use mx_api_service.Base.{ℕ, String, Option, none, some, List, [], Bool}

-- What a call gives: a value, or an exception; `out_of_fuel` is of the model only.
pub data Outcome (A : Type 0) : Type 0 where
  returned : A → Outcome A
  thrown out_of_fuel : Outcome A

infixl 5 ◌>>=◌
abbrev pub ◌>>=◌ : {A B : Type 0} → Outcome A → (A → Outcome B) → Outcome B
returned a >>= f = f a
thrown >>= f = thrown
out_of_fuel >>= f = out_of_fuel

-- A call of code outside the repository that can throw.
abbrev pub or_throw : {A : Type 0} → Option A → Outcome A
or_throw none = thrown
or_throw (some a) = returned a

pub data TransactionType : Type 0 where
  transaction smart_contract_result reward : TransactionType

-- The fields that the recognition reads. Those of a relayed transaction come from a JSON text,
-- where the time and the data can be missing.
pub record ActionTransaction : Type 0 where
  pub sender : String
  pub receiver : String
  pub value : String
  pub timestamp : Option ℕ
  pub transaction_data : Option String
  pub transaction_type : Option TransactionType

pub record TransactionMetadataTransfer (P : Type 0) : Type 0 where
  pub properties : P
  pub value : ℕ

pub record TransactionMetadata (P : Type 0) : Type 0 where
  pub sender : String
  pub receiver : String
  pub value : ℕ
  pub function_name : Option String
  pub function_args : List String
  pub timestamp : Option ℕ
  pub transfers : Option (List (TransactionMetadataTransfer P))

-- `new TransactionMetadata()`
unfoldable pub new_metadata : (P : Type 0) → TransactionMetadata P
new_metadata P = record {
  sender = "";
  receiver = "";
  value = 0;
  function_name = none;
  function_args = [];
  timestamp = some 0;
  transfers = none;
}

pub data TransactionActionCategory : Type 0 where
  esdt_nft mex stake sc_call sc_deploy : TransactionActionCategory

pub record TransactionAction (A : Type 0) : Type 0 where
  pub category : TransactionActionCategory
  pub name : String
  pub description : String
  pub arguments : Option A

-- What getTokenTransferProperties is asked: with a nonce, or with a time, a value and whether to
-- apply it, or with the identifier alone.
pub data TransferQuery : Type 0 where
  with_identifier : String → TransferQuery
  with_nonce : String → String → TransferQuery
  with_value : String → Option ℕ → ℕ → Bool → TransferQuery

-- What the code calls outside of its file. An option is a call that can throw, but for
-- `transfer_properties`, where `none` is `undefined`. `hex_to_number` is 0 where it is not a number,
-- which the code cannot tell apart. `parse_json` is JSON.parse, with the value printed and no
-- change to the other fields; a text that lacks one of the fields that the code reads throws.
pub record Sdk (P : Type 0) : Type 0 where
  pub base64_decode : String → String
  pub base64_encode : String → String
  pub base64_to_hex : String → String
  pub hex_to_string : String → String
  pub hex_to_number : String → ℕ
  pub hex_to_big_int : String → Option ℕ
  pub big_int : String → Option ℕ
  pub is_hex : String → Bool
  pub is_valid_hex_address : String → Bool
  pub is_smart_contract_address : String → Bool
  pub bech32_encode : String → Option String
  pub bech32_decode : String → Option String
  pub parse_json : String → Option ActionTransaction
  pub transfer_properties : TransferQuery → Option P
