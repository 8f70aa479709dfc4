-- ===== src/Action/ServiceExamples.antt =====
-- Tests of relayed transactions and of the recognizers.
use mx_api_service.Base.{
  ℕ, ◌≡◌, ◌≢◌, ◌≤◌, ◌<◌, subst, refl, ap, ◌∙◌, All, String, none, some, [], true, units, arith,
}
use mx_api_service.Action.{
  returned, out_of_fuel, ActionTransaction, TransactionMetadata, TransactionAction, new_metadata,
  sc_call,
}
use mx_api_service.Action.Normal.{get_normal_transaction_metadata}
use mx_api_service.Action.Termination.{Shrinks, get_normal_transaction_metadata-ne-out_of_fuel}
use mx_api_service.Action.Service.{
  Recognizer, Recognizers, push_recognizers, get_recognizers, first_action,
}
use mx_api_service.Action.Recognized.{Keeps, reading-Keeps}
use mx_api_service.Action.ScCalls.{
  sc_call_recognizer, recognize_sc_call, is_smart_contract_call, is_self_built_in_function_call,
  get_sc_deploy_action, get_sc_call_action,
}
use mx_api_service.Action.TestSdk.{inner, test_sdk, wallet}

json_part :
    (s d : String) (t : ActionTransaction)
    → some (inner s) ≡ some t
    → t.transaction_data ≡ some d
    → units d ≤ units s
unfolding inner
json_part s d t h e =
    let same : some s ≡ some d =
      ap (λ o. elim o [ none ↦ none | some x ↦ x.transaction_data ]) h ∙ e in
    let p : s ≡ d = ap (λ o. elim o [ none ↦ s | some x ↦ x ]) same in
    subst (λ x. units x ≤ units s) p (omega arith)

test_sdk-Shrinks : Shrinks test_sdk
unfolding test_sdk
test_sdk-Shrinks = record {
  base64 = λ s. omega arith;
  hex = λ s. omega arith;
  encode = λ s. refl;
  json = json_part;
}

relaying : ActionTransaction
unfolding inner
relaying = inner "relayedTx@7b7d"

relaying_size : units "relayedTx@7b7d" < 15
unfolding units
relaying_size = omega arith

get_normal_transaction_metadata-ne-out_of_fuel_example :
    get_normal_transaction_metadata test_sdk 15 (inner "relayedTx@7b7d") ≢ out_of_fuel
unfolding inner test_sdk
get_normal_transaction_metadata-ne-out_of_fuel_example =
    get_normal_transaction_metadata-ne-out_of_fuel test_sdk test_sdk-Shrinks 15
      (inner "relayedTx@7b7d") relaying_size

passing : Recognizer String ℕ
passing m = returned (none, m)

recognizers : Recognizers String ℕ
unfolding test_sdk
recognizers = record {
  mex = passing;
  metabonding = passing;
  esdt_nft = passing;
  stake = passing;
  sc_call = sc_call_recognizer test_sdk;
}

minting : TransactionMetadata String
unfolding wallet
minting = wallet "erd1a" "ESDTLocalMint" []

mint : TransactionAction ℕ
mint = record { category = sc_call; name = "ESDTLocalMint"; description = ""; arguments = none }

minted : first_action (get_recognizers recognizers true []) minting ≡ returned (some mint, minting)
unfolding first_action get_recognizers push_recognizers recognizers passing minting wallet mint
    sc_call_recognizer recognize_sc_call get_sc_deploy_action get_sc_call_action
    is_smart_contract_call is_self_built_in_function_call test_sdk new_metadata
minted = refl

passing-Keeps : Keeps passing
unfolding passing
passing-Keeps m m' h = cc

sc_call-Keeps : Keeps (sc_call_recognizer {A = ℕ} test_sdk)
unfolding sc_call_recognizer
sc_call-Keeps = reading-Keeps (recognize_sc_call test_sdk)

recognizers-Keep : All Keeps (push_recognizers recognizers true [])
unfolding push_recognizers recognizers
recognizers-Keep =
    (passing-Keeps, (passing-Keeps, (passing-Keeps, (passing-Keeps, (sc_call-Keeps, tt)))))
