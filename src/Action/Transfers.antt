-- ===== src/Action/Transfers.antt =====
-- The transfers of tokens that TransactionActionService reads from the arguments of a call.
use mx_api_service.Base.{
  ℕ, zero, suc, ◌+◌, ◌-◌, ◌*◌, String, Option, none, some, List, [], ◌∷◌, Bool, not, ◌==◌, ltb,
  if◌then◌else◌, text_comparable, option_comparable, units,
}
use mx_api_service.Action.{
  Outcome, returned, thrown, ◌>>=◌, or_throw, Sdk, TransactionMetadata, TransactionMetadataTransfer,
  TransferQuery, with_nonce, with_value, new_metadata,
}

abbrev drop_text : ℕ → String → String
drop_text zero s = s
drop_text (suc n) String.[] = String.[]
drop_text (suc n) (String.◌∷◌ c s) = drop_text n s

abbrev take_text : ℕ → String → String
take_text zero s = String.[]
take_text (suc n) String.[] = String.[]
take_text (suc n) (String.◌∷◌ c s) = String.◌∷◌ c (take_text n s)

-- `s.slice(from, to)` of a text of hexadecimal digits.
unfoldable pub slice_text : String → ℕ → ℕ → String
slice_text s from to = take_text (to - from) (drop_text from s)

module _ {P : Type 0} (sdk : Sdk P) where
  unfoldable pub parse_value : String → Option ℕ
  unfolding slice_text
  parse_value raw =
      if ltb 64 (units raw)
      then sdk.hex_to_big_int (slice_text raw 8 (8 + sdk.hex_to_number (slice_text raw 6 8) * 2))
      else sdk.hex_to_big_int raw

  -- The query for one transfer; a nonce of "" is as if it was not given.
  unfoldable pub transfer_query : Bool → Option ℕ → String → String → ℕ → TransferQuery
  transfer_query apply_value timestamp identifier nonce value =
      if nonce == ""
      then with_value identifier timestamp value apply_value
      else if nonce == "00"
      then with_value identifier timestamp value apply_value
      else with_nonce identifier nonce

  abbrev pub push_transfer :
      Option P → ℕ → List (TransactionMetadataTransfer P) → List (TransactionMetadataTransfer P)
  push_transfer none value ts = ts
  push_transfer (some properties) value ts = record { properties = properties; value = value } ∷ ts

  -- The loop over `transferCount`, on the arguments from `index` on. A transfer that lacks an
  -- argument throws, as the value of one that is missing has no length.
  unfoldable pub read_transfers :
      Bool
      → Option ℕ
      → ℕ
      → List String
      → Outcome (List (TransactionMetadataTransfer P) × List String)
  unfolding parse_value transfer_query
  read_transfers apply_value timestamp zero args = returned ([], args)
  read_transfers apply_value timestamp (suc n) (identifier ∷ nonce ∷ raw ∷ args) = do
    value ← or_throw (parse_value raw)
    (ts, left) ← read_transfers apply_value timestamp n args
    let query = transfer_query apply_value timestamp (sdk.hex_to_string identifier) nonce value
    returned (push_transfer (sdk.transfer_properties query) value ts, left)
  read_transfers apply_value timestamp (suc n) _ = thrown

  -- The call that follows the transfers, if any.
  unfoldable pub inner_call : List String → TransactionMetadata P → TransactionMetadata P
  inner_call [] m = m
  inner_call (name ∷ args) m = record m {
    function_name = some (sdk.hex_to_string name);
    function_args = args;
  }

  unfoldable pub get_multi_transfer_metadata :
      TransactionMetadata P → Bool → Outcome (Option (TransactionMetadata P))
  unfolding read_transfers inner_call new_metadata
  get_multi_transfer_metadata m apply_value =
      if not (m.sender == m.receiver)
      then returned none
      else if not (m.function_name == some "MultiESDTNFTTransfer")
      then returned none
      else elim m.function_args [
        | arg_0 ∷ arg_1 ∷ arg_2 ∷ args ↦
            if not (sdk.is_valid_hex_address arg_0) then returned none else do
              receiver ← or_throw (sdk.bech32_encode arg_0)
              (ts, left) ←
                  read_transfers apply_value m.timestamp (sdk.hex_to_number arg_1) (arg_2 ∷ args)
              returned (
                  some (
                    inner_call left (record (new_metadata P) {
                      sender = m.sender;
                      receiver = receiver;
                      transfers = some ts;
                    })))
        | _ ↦ returned none
      ]

  unfoldable pub get_nft_transfer_metadata :
      TransactionMetadata P → Outcome (Option (TransactionMetadata P))
  unfolding inner_call new_metadata
  get_nft_transfer_metadata m =
      if not (m.sender == m.receiver)
      then returned none
      else if not (m.function_name == some "ESDTNFTTransfer")
      then returned none
      else elim m.function_args [
        | arg_0 ∷ nonce ∷ arg_2 ∷ arg_3 ∷ args ↦
            if not (sdk.is_valid_hex_address arg_3) then returned none else do
              value ← or_throw (sdk.hex_to_big_int arg_2)
              receiver ← or_throw (sdk.bech32_encode arg_3)
              elim (sdk.transfer_properties (with_nonce (sdk.hex_to_string arg_0) nonce)) [
                | none ↦ returned none
                | some properties ↦ returned (
                    some (
                      inner_call args (record (new_metadata P) {
                        sender = m.sender;
                        receiver = receiver;
                        value = value;
                        transfers = some (record { properties = properties; value = value } ∷ []);
                      })))
              ]
        | _ ↦ returned none
      ]

  unfoldable pub get_esdt_transaction_metadata :
      TransactionMetadata P → Bool → Outcome (Option (TransactionMetadata P))
  unfolding inner_call new_metadata
  get_esdt_transaction_metadata m apply_value =
      if not (m.function_name == some "ESDTTransfer") then returned none else elim m.function_args [
        | arg_0 ∷ arg_1 ∷ args ↦ do
          value ← or_throw (sdk.hex_to_big_int arg_1)
          let query = with_value (sdk.hex_to_string arg_0) m.timestamp value apply_value
          elim (sdk.transfer_properties query) [
            | none ↦ returned none
            | some properties ↦ returned (
                some (
                  inner_call args (record (new_metadata P) {
                    sender = m.sender;
                    receiver = m.receiver;
                    value = m.value;
                    transfers = some (record { properties = properties; value = value } ∷ []);
                  })))
          ]
        | _ ↦ returned none
      ]
