-- ===== src/Action/TestSdk.antt =====
-- For the tests of src/endpoints/transactions/transaction-action: functions in place of the SDK that leave texts as
-- they are and read a number as the length of its text.
use mx_api_service.Base.{String, Option, none, some, List, true, false, units}
use mx_api_service.Action.{
  Sdk, ActionTransaction, TransactionMetadata, TransferQuery, with_identifier, with_nonce,
  with_value, new_metadata,
}

unfoldable pub known : TransferQuery → Option String
known (with_identifier identifier) = some identifier
known (with_nonce identifier nonce) = some identifier
known (with_value identifier timestamp value apply) = none

unfoldable pub inner : String → ActionTransaction
inner s = record {
  sender = "erd1inner";
  receiver = "erd1other";
  value = "0";
  timestamp = none;
  transaction_data = some s;
  transaction_type = none;
}

unfoldable pub test_sdk : Sdk String
test_sdk = record {
  base64_decode = λ s. s;
  base64_encode = λ s. s;
  base64_to_hex = λ s. s;
  hex_to_string = λ s. s;
  hex_to_number = units;
  hex_to_big_int = λ s. some (units s);
  big_int = λ s. some (units s);
  is_hex = λ s. true;
  is_valid_hex_address = λ s. true;
  is_smart_contract_address = λ s. false;
  bech32_encode = λ s. some s;
  bech32_decode = λ s. some s;
  parse_json = λ s. some (inner s);
  transfer_properties = known;
}

unfoldable pub wallet : String → String → List String → TransactionMetadata String
unfolding new_metadata
wallet receiver name args = record (new_metadata String) {
  sender = "erd1a";
  receiver = receiver;
  function_name = some name;
  function_args = args;
}
