-- ===== src/Action/Arguments.antt =====
-- What an action says of the tokens, and what the recognizers call outside of their files.
use mx_api_service.Base.{ℕ, String, Option, List, Bool}
use mx_api_service.Action.{
  Outcome, TransactionMetadata, TransactionMetadataTransfer, TransactionAction,
}
use mx_api_service.Action.Service.{Recognizer}

pub data EsdtType : Type 0 where
  fungible_esdt non_fungible_esdt semi_fungible_esdt meta_esdt : EsdtType

-- The prices of the source are copied and never read.
pub record TokenTransferProperties : Type 0 where
  pub esdt_type : EsdtType
  pub token : Option String
  pub collection : Option String
  pub identifier : Option String
  pub ticker : String
  pub decimals : Option ℕ
  pub token_name : String
  pub svg_url : String

-- The properties of a transfer are optional.
abbrev pub Transfer : Type 0
Transfer = TransactionMetadataTransfer (Option TokenTransferProperties)

abbrev pub Metadata : Type 0
Metadata = TransactionMetadata (Option TokenTransferProperties)

-- The properties of a token with the amount, as text.
pub record TransferDetails : Type 0 where
  pub properties : TokenTransferProperties
  pub value : String

pub record MetabondingWeek : Type 0 where
  pub week : Option ℕ
  pub egld_staked : String
  pub lkmex_staked : String

pub record ProviderDetails : Type 0 where
  pub provider_name : String
  pub provider_avatar : String

-- `arguments` of an action, in the shapes that the recognizers give it. The number of a burn is
-- `none` where it is NaN.
pub data ActionArguments : Type 0 where
  transfer_arguments :
      List TransferDetails → String → Option String → Option (List String) → ActionArguments
  freeze_arguments : String → TokenTransferProperties → ActionArguments
  burn_arguments : TokenTransferProperties → Option ℕ → ActionArguments
  wrap_arguments : String → String → String → String → ActionArguments
  week_arguments : List MetabondingWeek → Option String → List String → ActionArguments
  stake_arguments : Option String → ProviderDetails → ActionArguments

abbrev pub Action : Type 0
Action = TransactionAction ActionArguments

abbrev pub ActionRecognizer : Type 0
ActionRecognizer = Recognizer (Option TokenTransferProperties) ActionArguments

-- An argument that is missing is `undefined`, the `none` on the left. On the right, `none` is an
-- exception, but NaN for `hex_to_number`. `token_properties` is getTokenTransferProperties with an
-- identifier, which answers with `undefined` for a token that it does not find.
pub record Calls : Type 0 where
  pub hex_to_string : Option String → Option String
  pub hex_to_number : Option String → Option ℕ
  pub hex_to_big_int : Option String → Option ℕ
  pub is_valid_hex_address : Option String → Option Bool
  pub bech32_encode : Option String → Option String
  pub is_function_name : String → Bool
  pub is_hex : String → Bool
  pub to_denominated_string : ℕ → Option ℕ → String
  pub token_properties : String → Outcome (Option TokenTransferProperties)
  pub split_array_into_chunks : List String → ℕ → List (List String)
  pub esdt_contract_address : String
  pub metabonding_contract_address : Option String
