-- ===== src/Action/ScCalls.antt =====
-- SCCallActionRecognizerService: calls and deployments of smart contracts.
use mx_api_service.Base.{
  String, Option, none, some, List, [], ◌∷◌, Bool, not, ◌&&◌, ◌||◌, ◌==◌, if◌then◌else◌, exists,
  text_comparable,
}
use mx_api_service.Action.{Outcome, returned, Sdk, TransactionMetadata, TransactionAction, sc_call}
use mx_api_service.Action.Service.{Recognizer, reading}

abbrev pub built_in_self_functions : List String
built_in_self_functions =
    "ESDTLocalMint" ∷ "ESDTLocalBurn" ∷ "ESDTNFTCreate" ∷ "ESDTNFTAddQuantity" ∷ "ESDTNFTAddURI"
    ∷ "ESDTNFTUpdateAttributes" ∷ "SaveKeyValue" ∷ []

abbrev pub deploy_address : String
deploy_address = "erd1qqqqqqqqqqqqqqqqqqqqqqqqqqqqqqqqqqqqqqqqqqqqqqqqqqqq6gq4hu"

-- `functionName ?? ''`
abbrev pub name_or_empty : Option String → String
name_or_empty none = ""
name_or_empty (some name) = name

module _ {P : Type 0} where
  unfoldable pub is_self_built_in_function_call : TransactionMetadata P → Bool
  is_self_built_in_function_call m =
      (m.sender == m.receiver)
      && exists (λ f. f == name_or_empty m.function_name) built_in_self_functions

  unfoldable pub is_smart_contract_call : Sdk P → TransactionMetadata P → Bool
  unfolding is_self_built_in_function_call
  is_smart_contract_call sdk m =
      sdk.is_smart_contract_address m.receiver || is_self_built_in_function_call m

module _ {P A : Type 0} where
  unfoldable pub get_sc_deploy_action : TransactionMetadata P → Option (TransactionAction A)
  get_sc_deploy_action m =
      if not (m.receiver == deploy_address)
      then none
      else some (record {
        category = sc_call;
        name = "deploy";
        description = "Smart contract deployment";
        arguments = none;
      })

  unfoldable pub get_sc_call_action : Sdk P → TransactionMetadata P → Option (TransactionAction A)
  unfolding is_smart_contract_call
  get_sc_call_action sdk m =
      if not (is_smart_contract_call sdk m) then none else elim m.function_name [
        | none ↦ none
        | some name ↦
            if name == ""
            then none
            else some
                (record { category = sc_call; name = name; description = ""; arguments = none })
      ]

  unfoldable pub recognize_sc_call :
      Sdk P → TransactionMetadata P → Outcome (Option (TransactionAction A))
  unfolding get_sc_deploy_action get_sc_call_action
  recognize_sc_call sdk m =
      returned (elim (get_sc_deploy_action m) [ some a ↦ some a | none ↦ get_sc_call_action sdk m ])

  unfoldable pub sc_call_recognizer : Sdk P → Recognizer P A
  unfolding recognize_sc_call
  sc_call_recognizer sdk = reading (recognize_sc_call sdk)
