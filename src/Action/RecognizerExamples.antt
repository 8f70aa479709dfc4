-- ===== src/Action/RecognizerExamples.antt =====
-- Tests of the recognizers of the exchange and of the staking providers.
use mx_api_service.Base.{
  ℕ, ◌≡◌, refl, String, Option, none, some, List, [], ◌∷◌, true, false, ◌==◌, if◌then◌else◌, units,
  decimal, text_comparable, arith,
}
use mx_api_service.Action.{returned, Sdk}
use mx_api_service.Action.Service.{first_action, get_recognizers}
use mx_api_service.Action.Arguments.{
  fungible_esdt, TokenTransferProperties, Metadata, Transfer, Calls,
}
use mx_api_service.Action.Stake.{
  Provider, Identity, get_providers, add_providers, provider_details, matching_identity, details_of,
  recognize_stake, provider_action, get_delegate_action,
}
use mx_api_service.Action.Stake.Laws.{IsStaking, last_provider, recognize_stake-IsStaking}
use mx_api_service.Action.Mex.Settings.{MexSettings, get_transfers, get_mex_contracts_raw}
use mx_api_service.Action.Mex.Recognizer.{recognize_interaction, recognize_mex}
use mx_api_service.Action.Mex.Guard.{recognize_mex-recognize_interaction}
use mx_api_service.Action.Mex.Pair.{number_of_swaps}
use mx_api_service.Action.Mex.Swaps.{push_all, transfer_of}
use mx_api_service.Action.Installed.{installed}
use mx_api_service.Action.Installed.Leftover.{transfer_action, first_action-transfer_action}

abbrev token : String → TokenTransferProperties
token t = record {
  esdt_type = fungible_esdt;
  token = some t;
  collection = none;
  identifier = some t;
  ticker = t;
  decimals = some 18;
  token_name = t;
  svg_url = "";
}

abbrev text_units : Option String → Option ℕ
text_units none = some 0
text_units (some s) = some (units s)

abbrev calls : Calls
calls = record {
  hex_to_string = λ o. o;
  hex_to_number = text_units;
  hex_to_big_int = text_units;
  is_valid_hex_address = λ o. some true;
  bech32_encode = λ o. o;
  is_function_name = λ s. true;
  is_hex = λ s. true;
  to_denominated_string = λ n d. decimal n;
  token_properties = λ t. returned (if t == "LOST" then none else some (token t));
  split_array_into_chunks = λ args n. args ∷ [];
  esdt_contract_address = "erd1esdt";
  metabonding_contract_address = none;
}

abbrev call : String → String → List String → Option (List Transfer) → Metadata
call receiver name args transfers = record {
  sender = "erd1a";
  receiver = receiver;
  value = 7;
  function_name = some name;
  function_args = args;
  timestamp = some 0;
  transfers = transfers;
}

abbrev settings : MexSettings
settings = record {
  pair_contracts = "erd1pair" ∷ [];
  farm_contracts = "erd1farm" ∷ [];
  wrap_contracts = [];
  router_factory_contract = "erd1router";
  distribution_contract = "erd1distribution";
  locked_asset_contract = "erd1locked";
  wegld_id = "WEGLD-abcdef";
}

abbrev sent : Transfer
sent = transfer_of (token "USDC", 5)

abbrev swap : Metadata
swap =
    call "erd1pair" "multiPairSwap"
      ("p1" ∷ "swap" ∷ "WEGLD" ∷ "123" ∷ "p2" ∷ "swap" ∷ "LOST" ∷ "1" ∷ []) (some (sent ∷ []))

abbrev providers : List Provider
providers = record { provider = "erd1p"; identity = some "p" } ∷ []

abbrev identities : List Identity
identities = record { identity = some "p"; name = some "Provider"; avatar = none } ∷ []

abbrev delegating : Metadata
delegating = call "erd1p" "delegate" [] none

test_sdk : Sdk (Option TokenTransferProperties)
test_sdk = record {
  base64_decode = λ s. s;
  base64_encode = λ s. s;
  base64_to_hex = λ s. s;
  hex_to_string = λ s. s;
  hex_to_number = units;
  hex_to_big_int = λ s. some (units s);
  big_int = λ s. some (units s);
  is_hex = λ s. true;
  is_valid_hex_address = λ s. true;
  is_smart_contract_address = λ s. false;
  bech32_encode = λ s. some s;
  bech32_decode = λ s. some s;
  parse_json = λ s. none;
  transfer_properties = λ q. none;
}

first_action-transfer_action_example :
    first_action (get_recognizers (installed test_sdk calls (some settings) none []) true []) swap
    ≡ returned (
      some (transfer_action calls swap (sent ∷ transfer_of (token "WEGLD", 3) ∷ [])),
      push_all swap ((token "WEGLD", 3) ∷ []),
    )
unfolding units get_transfers number_of_swaps
first_action-transfer_action_example =
    first_action-transfer_action test_sdk calls settings none [] swap (sent ∷ [])
      ((token "WEGLD", 3) ∷ []) (token "USDC", 5) refl refl refl refl (omega arith)
      (("WEGLD", (refl, refl), refl), ("LOST", 1, (refl, refl), refl))

recognize_mex-recognize_interaction_example :
    recognize_mex calls (some settings) (get_mex_contracts_raw (some settings)) none delegating
    ≡ recognize_interaction calls none settings delegating
recognize_mex-recognize_interaction_example =
    recognize_mex-recognize_interaction calls none settings delegating

delegated :
    recognize_stake calls (get_providers none providers identities) delegating
    ≡ returned (
        some (
          get_delegate_action calls delegating
            (provider_details identities (record { provider = "erd1p"; identity = some "p" }))))
unfolding recognize_stake get_providers add_providers details_of provider_action provider_details
    matching_identity
delegated = refl

recognize_stake-IsStaking_example :
    IsStaking calls delegating (last_provider identities "erd1p" providers none) (
      get_delegate_action calls delegating
        (provider_details identities (record { provider = "erd1p"; identity = some "p" })))
recognize_stake-IsStaking_example =
    recognize_stake-IsStaking calls providers identities delegating _ delegated
