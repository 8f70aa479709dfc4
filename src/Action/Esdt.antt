-- ===== src/Action/Esdt.antt =====
-- TransactionActionEsdtNftRecognizerService: transfers, freezes and burns of tokens.
use mx_api_service.Base.{
  ℕ, String, ◌<>◌, decimal, join, text_or_undefined, Option, none, some, List, [], ◌∷◌, map, Bool,
  true, false, ◌&&◌, ◌==◌, if◌then◌else◌, every, get_elem?, text_comparable, option_comparable,
}
use mx_api_service.Action.{Outcome, returned, ◌>>=◌, or_throw, TransactionActionCategory, esdt_nft}
use mx_api_service.Action.Service.{reading}
use mx_api_service.Action.Arguments.{
  fungible_esdt, non_fungible_esdt, semi_fungible_esdt, meta_esdt, TokenTransferProperties,
  Transfer, Metadata, TransferDetails, transfer_arguments, freeze_arguments, burn_arguments, Action,
  ActionRecognizer, Calls,
}

unfoldable pub get_nft_transfer_details : Transfer → Option TransferDetails
unfolding decimal
get_nft_transfer_details t = elim t.properties [
  | none ↦ none
  | some p ↦ some (record { properties = p; value = decimal t.value })
]

-- `filter(x => x !== undefined)`
abbrev pub defined : {A : Type 0} → List (Option A) → List A
defined [] = []
defined (none ∷ os) = defined os
defined (some a ∷ os) = a ∷ defined os

abbrev pub ticker_or_undefined : Option TokenTransferProperties → String
ticker_or_undefined none = "undefined"
ticker_or_undefined (some p) = p.ticker

abbrev pub decimals_or_undefined : Option TokenTransferProperties → Option ℕ
decimals_or_undefined none = none
decimals_or_undefined (some p) = p.decimals

module _ (c : Calls) where
  abbrev pub function_name_or_undefined : Option String → Option String
  function_name_or_undefined none = none
  function_name_or_undefined (some name) =
      if name == "" then none else if c.is_function_name name then some name else none

  unfoldable pub get_multi_transfer_action :
      Metadata → TransactionActionCategory → String → String → Option Action
  unfolding get_nft_transfer_details
  get_multi_transfer_action m category name description = elim m.transfers [
    | none ↦ none
    | some ts ↦ some (record {
      category = category;
      name = name;
      description = description;
      arguments = some (
          transfer_arguments (defined (map get_nft_transfer_details ts)) m.receiver
            (function_name_or_undefined m.function_name)
            (if every c.is_hex m.function_args then some m.function_args else none));
    })
  ]

  unfoldable pub ticker_part : Transfer → String
  ticker_part t =
      c.to_denominated_string t.value (decimals_or_undefined t.properties)
      <> " "
      <> ticker_or_undefined t.properties

  unfoldable pub get_multi_transfer_action_with_ticker :
      Metadata → TransactionActionCategory → String → String → Option Action
  unfolding ticker_part get_multi_transfer_action ◌<>◌ join
  get_multi_transfer_action_with_ticker m category name action = elim m.transfers [
    | none ↦ none
    | some ts ↦
        get_multi_transfer_action m category name (action <> " " <> join ", " (map ticker_part ts))
  ]

  unfoldable pub get_token_transfer_description : TokenTransferProperties → ℕ → String
  unfolding ◌<>◌
  get_token_transfer_description p value =
      c.to_denominated_string value p.decimals <> " " <> p.token_name <> " (" <> p.ticker <> ")"

  unfoldable pub get_nft_transfer_description : TokenTransferProperties → ℕ → String
  unfolding ◌<>◌ decimal
  get_nft_transfer_description p value = elim p.esdt_type [
    | meta_esdt ↦
        c.to_denominated_string value p.decimals
        <> " "
        <> p.token_name
        <> " ("
        <> text_or_undefined p.identifier
        <> ")"
    | non_fungible_esdt ↦
        "NFT of collection " <> p.token_name <> " (" <> text_or_undefined p.identifier <> ")"
    | semi_fungible_esdt ↦
        "quantity "
        <> decimal value
        <> " for NFT of collection "
        <> p.token_name
        <> " ("
        <> text_or_undefined p.identifier
        <> ")"
    | fungible_esdt ↦ "Unknown"
  ]

  unfoldable pub description_of : TokenTransferProperties → ℕ → String
  unfolding get_token_transfer_description get_nft_transfer_description
  description_of p value = elim p.esdt_type [
    | fungible_esdt ↦ get_token_transfer_description p value
    | other ↦ get_nft_transfer_description p value
  ]

  unfoldable pub get_multi_transfer_description : Transfer → Option String
  unfolding description_of
  get_multi_transfer_description t = elim t.properties [
    | none ↦ none
    | some p ↦ some (description_of p t.value)
  ]

  unfoldable pub get_multi_transfer_action_with_full_description :
      Metadata → TransactionActionCategory → String → String → Option Action
  unfolding get_multi_transfer_description get_multi_transfer_action ◌<>◌ join
  get_multi_transfer_action_with_full_description m category name action = elim m.transfers [
    | none ↦ none
    | some ts ↦ get_multi_transfer_action m category name (
        action
        <> " "
        <> join ", " (defined (map get_multi_transfer_description ts))
        <> " to "
        <> m.receiver)
  ]

  unfoldable pub recognize_transfer : Metadata → Option Action
  unfolding get_multi_transfer_action
  recognize_transfer m = get_multi_transfer_action m esdt_nft "transfer" "Transfer"

  -- What is left of recognizeFreeze once the token is known.
  unfoldable pub freeze_token :
      String → TokenTransferProperties → List String → Outcome (Option Action)
  unfolding ◌<>◌
  freeze_token identifier p args = do
    valid ← or_throw (c.is_valid_hex_address (get_elem? args 1))
    elim valid [
      | false ↦ returned none
      | true ↦ do
        address ← or_throw (c.bech32_encode (get_elem? args 1))
        returned (
            some (record {
              category = esdt_nft;
              name = "freeze";
              description = "Freezed token " <> identifier <> " balance for address " <> address;
              arguments = some (freeze_arguments address p);
            }))
    ]

  unfoldable pub is_freeze : Metadata → Bool
  is_freeze m = (m.function_name == some "freeze") && (m.receiver == c.esdt_contract_address)

  unfoldable pub recognize_freeze : Metadata → Outcome (Option Action)
  unfolding is_freeze freeze_token
  recognize_freeze m = elim (is_freeze m) [
    | false ↦ returned none
    | true ↦ do
      identifier ← or_throw (c.hex_to_string (get_elem? m.function_args 0))
      properties ← c.token_properties identifier
      elim properties [ none ↦ returned none | some p ↦ freeze_token identifier p m.function_args ]
  ]

  unfoldable pub recognize_burn : Metadata → Outcome (Option Action)
  unfolding ◌<>◌
  recognize_burn m = elim (m.function_name == some "ESDTNFTBurn") [
    | false ↦ returned none
    | true ↦ do
      identifier ← or_throw (c.hex_to_string (get_elem? m.function_args 0))
      let value = c.hex_to_number (get_elem? m.function_args 2)
      let nonce = text_or_undefined (get_elem? m.function_args 1)
      properties ← c.token_properties identifier
      elim properties [
        | none ↦ returned none
        | some p ↦ returned (
            some (record {
              category = esdt_nft;
              name = "burn";
              description = "Burned token " <> identifier;
              arguments = some (
                  burn_arguments (record p { identifier = some (identifier <> "-" <> nonce) })
                    value);
            }))
      ]
  ]

  -- `??` on the answers of three calls, the next made if the one before gives `undefined`.
  unfoldable pub recognize_esdt_nft : Metadata → Outcome (Option Action)
  unfolding recognize_transfer recognize_freeze recognize_burn
  recognize_esdt_nft m = elim (recognize_transfer m) [
    | some a ↦ returned (some a)
    | none ↦ do
      frozen ← recognize_freeze m
      elim frozen [ some a ↦ returned (some a) | none ↦ recognize_burn m ]
  ]

  unfoldable pub esdt_nft_recognizer : ActionRecognizer
  unfolding recognize_esdt_nft
  esdt_nft_recognizer = reading recognize_esdt_nft
