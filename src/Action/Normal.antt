-- ===== src/Action/Normal.antt =====
-- getNormalTransactionMetadata of TransactionActionService.
use mx_api_service.Base.{
  ℕ, zero, suc, ◌%◌, String, Option, none, some, List, [], ◌∷◌, Bool, true, false, not, ◌&&◌, ◌==◌,
  nat_beq, ltb, leb, if◌then◌else◌, text_comparable, option_comparable, length, set, every, split,
  units,
}
use mx_api_service.Action.{
  Outcome, returned, thrown, out_of_fuel, ◌>>=◌, or_throw, Sdk, ActionTransaction,
  TransactionMetadata, new_metadata, TransactionType, smart_contract_result,
}

module _ {P : Type 0} (sdk : Sdk P) where
  unfoldable pub is_smart_contract_argument : String → Bool
  is_smart_contract_argument arg =
      if not (sdk.is_hex arg)
      then false
      else if not (nat_beq (units arg % 2) 0)
      then false
      else true

  -- The function and the arguments of a decoded call, where 64 is `@`.
  unfoldable pub read_call : List String → TransactionMetadata P → TransactionMetadata P
  unfolding is_smart_contract_argument
  read_call [] m = m
  read_call (name ∷ args) m =
      if every is_smart_contract_argument args
      then record m { function_name = some name; function_args = args }
      else m

  unfoldable pub read_data : Option String → TransactionMetadata P → TransactionMetadata P
  unfolding read_call
  read_data none m = m
  read_data (some encoded) m =
      if encoded == "" then m else read_call (split 64 (sdk.base64_decode encoded)) m

  -- The transaction inside a relayed one; `none` where it throws.
  unfoldable pub relayed_v1 : String → Option ActionTransaction
  relayed_v1 arg = elim (sdk.parse_json (sdk.hex_to_string arg)) [
    | none ↦ none
    | some t ↦ elim (sdk.bech32_encode (sdk.base64_to_hex t.sender)) [
      | none ↦ none
      | some sender ↦ elim (sdk.bech32_encode (sdk.base64_to_hex t.receiver)) [
        | none ↦ none
        | some receiver ↦ some (record t { sender = sender; receiver = receiver })
      ]
    ]
  ]

  unfoldable pub relayed_v2 : ActionTransaction → String → String → Option ActionTransaction
  relayed_v2 t arg_0 arg_2 = elim (sdk.bech32_encode arg_0) [
    | none ↦ none
    | some receiver ↦ some (record {
      sender = t.receiver;
      receiver = receiver;
      value = "0";
      timestamp = some 0;
      transaction_data = some (sdk.base64_encode (sdk.hex_to_string arg_2));
      transaction_type = none;
    })
  ]

  -- The arguments decide by their number, so the lists are matched on.
  unfoldable pub relayed :
      ActionTransaction → Option String → List String → Option ActionTransaction
  unfolding relayed_v1 relayed_v2
  relayed t name (arg ∷ []) = if name == some "relayedTx" then relayed_v1 arg else none
  relayed t name (arg_0 ∷ arg_1 ∷ arg_2 ∷ arg_3 ∷ []) =
      if name == some "relayedTxV2" then relayed_v2 t arg_0 arg_2 else none
  relayed t name _ = none

  -- The transfers of a smart contract result get the address of the receiver as an argument.
  unfoldable pub redirect : TransactionMetadata P → TransactionMetadata P
  redirect m =
      if m.function_name == some "MultiESDTNFTTransfer"
      then elim m.function_args [
        | [] ↦ m
        | arg ∷ _ ↦
            if leb (units arg) 4
            then elim (sdk.bech32_decode m.receiver) [
              | none ↦ m
              | some address ↦ record m {
                function_args = address ∷ m.function_args;
                receiver = m.sender;
              }
            ]
            else record m { receiver = m.sender }
      ]
      else if (m.function_name == some "ESDTNFTTransfer") && ltb 3 (length m.function_args)
      then elim (sdk.bech32_decode m.receiver) [
        | none ↦ m
        | some address ↦ record m {
          function_args = set m.function_args 3 address;
          receiver = m.sender;
        }
      ]
      else m

  unfoldable pub redirect_result :
      Option TransactionType → TransactionMetadata P → TransactionMetadata P
  unfolding redirect
  redirect_result (some smart_contract_result) m = redirect m
  redirect_result _ m = m

  -- The `catch` around the call for a relayed transaction.
  abbrev pub or_else :
      Outcome (TransactionMetadata P) → TransactionMetadata P → Outcome (TransactionMetadata P)
  or_else (returned r) m = returned r
  or_else thrown m = returned m
  or_else out_of_fuel m = out_of_fuel

  unfoldable pub start_metadata : ActionTransaction → ℕ → TransactionMetadata P
  unfolding new_metadata
  start_metadata t value = record (new_metadata P) {
    sender = t.sender;
    receiver = t.receiver;
    timestamp = t.timestamp;
    value = value;
  }

  -- A relayed transaction is read in its place, one unit of fuel for each.
  unfoldable pub get_normal_transaction_metadata :
      ℕ → ActionTransaction → Outcome (TransactionMetadata P)
  unfolding start_metadata read_data relayed redirect_result
  get_normal_transaction_metadata zero t = out_of_fuel
  get_normal_transaction_metadata (suc fuel) t = do
    value ← or_throw (sdk.big_int t.value)
    let m = read_data t.transaction_data (start_metadata t value)
    elim (relayed t m.function_name m.function_args) [
      | none ↦ returned (redirect_result t.transaction_type m)
      | some inner ↦
          or_else (get_normal_transaction_metadata fuel inner)
            (redirect_result t.transaction_type m)
    ]
