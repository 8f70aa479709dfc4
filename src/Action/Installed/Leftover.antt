-- ===== src/Action/Installed/Leftover.antt =====
-- What is said of a multi swap that the exchange's recognizer gives up on.
use mx_api_service.Base.{
  ◌<◌, ◌≡◌, refl, ap, ◌∙◌, String, Option, none, some, List, [], ◌∷◌, ◌++◌, map, length, every,
  if◌then◌else◌, Bool, true, false, ◌&&◌, ◌==◌, Bool-cases, inl, inr, text_comparable,
  option_comparable,
}
use mx_api_service.Action.{Outcome, returned, ◌>>=◌, Sdk, esdt_nft}
use mx_api_service.Action.Service.{Recognizer, first_action, get_recognizers, push_recognizers}
use mx_api_service.Action.Arguments.{
  TokenTransferProperties, Transfer, Metadata, Action, Calls, ActionArguments, transfer_arguments,
}
use mx_api_service.Action.Esdt.{
  recognize_transfer, recognize_esdt_nft, esdt_nft_recognizer, defined, get_nft_transfer_details,
  get_multi_transfer_action, function_name_or_undefined,
}
use mx_api_service.Action.Stake.{Details}
use mx_api_service.Action.Mex.Settings.{MexSettings, includes, get_transfers, get_mex_contracts_raw}
use mx_api_service.Action.Mex.Pair.{
  first_sent, number_of_swaps, recognize_pair, pair_action, pair_action_of, get_multi_swap_action,
  push_expected,
}
use mx_api_service.Action.Mex.Farm.{recognize_farm, farm_action_of, case_of}
use mx_api_service.Action.Mex.Assets.{
  recognize_wrap, recognize_locked_asset, recognize_distribution,
}
use mx_api_service.Action.Mex.Metabonding.{recognize_metabonding, is_claim, metabonding_recognizer}
use mx_api_service.Action.Mex.Recognizer.{recognize_interaction, recognize_later, recognize_mex}
use mx_api_service.Action.Mex.Guard.{recognize_mex-recognize_interaction}
use mx_api_service.Action.Mex.Swaps.{
  Expected, push_all, FailsAfter, transfer_of, get_multi_swap_action-push_all, transfers-push_all,
}
use mx_api_service.Action.Installed.{installed}

and-false : (b : Bool) → (b && false) ≡ false
and-false true = refl
and-false false = refl

function_name-push_all :
    (qs : List Expected) (m : Metadata)
    → (let m' = push_all m qs in m'.function_name) ≡ m.function_name
unfolding push_all push_expected
function_name-push_all [] m = refl
function_name-push_all ((q, v) ∷ qs) m = function_name-push_all qs (push_expected m q v)

-- A call of the multi swap.
abbrev pub IsMultiSwap : Metadata → Type 0
IsMultiSwap m = m.function_name ≡ some "multiPairSwap"

module _ (c : Calls) (wegld : Option String) (s : MexSettings) (m : Metadata)
    (f : IsMultiSwap m) where
  distribution_none : recognize_distribution s m ≡ none
  unfolding recognize_distribution
  distribution_none = rw (recognize_distribution, f, and-false) refl

  farm_none : recognize_farm c s m ≡ none
  unfolding recognize_farm farm_action_of case_of
  farm_none = elim (Bool-cases (includes s.farm_contracts m.receiver)) [
    | inl e ↦ rw (recognize_farm, e, f) refl
    | inr e ↦ rw (recognize_farm, e) refl
  ]

  wrap_none : recognize_wrap c wegld s m ≡ none
  unfolding recognize_wrap
  wrap_none = elim (Bool-cases (includes s.wrap_contracts m.receiver)) [
    | inl e ↦ rw (recognize_wrap, e, f) refl
    | inr e ↦ rw (recognize_wrap, e) refl
  ]

  locked_none : recognize_locked_asset c s m ≡ none
  unfolding recognize_locked_asset
  locked_none = elim (Bool-cases (m.receiver == s.locked_asset_contract)) [
    | inl e ↦ rw (recognize_locked_asset, e, f) refl
    | inr e ↦ rw (recognize_locked_asset, e) refl
  ]

  later_none : recognize_later c wegld s m ≡ none
  unfolding recognize_later
  later_none = rw (recognize_later, farm_none, wrap_none, locked_none) refl

  metabonding_none : recognize_metabonding c m ≡ returned none
  unfolding recognize_metabonding is_claim
  metabonding_none = rw (recognize_metabonding, is_claim, f, and-false) refl

-- What the loop over the recognizers gives once the exchange's and the metabonding's pass.
loop-transfer :
    (c : Calls) (m : Metadata) (a : Action)
    (mex metabonding : Recognizer (Option TokenTransferProperties) ActionArguments)
    (rs : List (Recognizer (Option TokenTransferProperties) ActionArguments)) (m' : Metadata)
    → mex m ≡ returned (none, m')
    → metabonding m' ≡ returned (none, m')
    → recognize_transfer c m' ≡ some a
    → first_action (mex ∷ metabonding ∷ esdt_nft_recognizer c ∷ rs) m ≡ returned (some a, m')
unfolding first_action esdt_nft_recognizer recognize_esdt_nft
loop-transfer c m a mex metabonding rs m' e f h =
    rw (first_action, e, f, esdt_nft_recognizer, recognize_esdt_nft, h) refl

-- The action of a transfer of these tokens, on what the metadata holds besides.
abbrev pub transfer_action : Calls → Metadata → List Transfer → Action
transfer_action c m ts = record {
  category = esdt_nft;
  name = "transfer";
  description = "Transfer";
  arguments = some (
      transfer_arguments (defined (map get_nft_transfer_details ts)) m.receiver
        (function_name_or_undefined c m.function_name)
        (if every c.is_hex m.function_args then some m.function_args else none));
}

module _ (sdk : Sdk (Option TokenTransferProperties)) (c : Calls) (s : MexSettings)
    (wegld : Option String) (details : Details) where
  recognize_transfer-transfer_action :
      (m : Metadata) (ts : List Transfer)
      → m.transfers ≡ some ts
      → recognize_transfer c m ≡ some (transfer_action c m ts)
  unfolding recognize_transfer get_multi_transfer_action
  recognize_transfer-transfer_action m ts e = rw (get_multi_transfer_action, e) refl

  pair_passes :
      (m : Metadata) (r : Outcome (Option Action × Metadata))
      → IsMultiSwap m
      → includes s.pair_contracts m.receiver ≡ true
      → get_multi_swap_action c m ≡ r
      → recognize_pair c s m ≡ r
  unfolding recognize_pair pair_action pair_action_of
  pair_passes m r f e h = rw (recognize_pair, e) (ap (λ name. pair_action_of c name m) f ∙ h)

  mex_passes :
      (m : Metadata) (qs : List Expected) (sent : Expected)
      → IsMultiSwap m
      → includes s.pair_contracts m.receiver ≡ true
      → first_sent (get_transfers m) ≡ some sent
      → length qs < number_of_swaps m.function_args
      → FailsAfter c m.function_args 0 qs
      → recognize_mex c (some s) (get_mex_contracts_raw (some s)) wegld m
        ≡ returned (none, push_all m qs)
  unfolding recognize_interaction
  mex_passes m qs sent f e g h k =
      recognize_mex-recognize_interaction c wegld s m
      ∙ rw
          (
            recognize_interaction,
            distribution_none c wegld s m f,
            pair_passes m (returned (none, push_all m qs)) f e
                (get_multi_swap_action-push_all c m qs sent g h k),
          )
          (ap (λ o. returned (o, push_all m qs))
            (later_none c wegld s (push_all m qs) (function_name-push_all qs m ∙ f)))

  same_rest :
      (m : Metadata) (qs : List Expected) (ts : List Transfer)
      → transfer_action c (push_all m qs) ts ≡ transfer_action c m ts
  unfolding push_all push_expected
  same_rest m [] ts = refl
  same_rest m ((q, v) ∷ qs) ts = same_rest (push_expected m q v) qs ts

  -- A multi swap on a pair of the exchange that names a token that is not found, after others
  -- that are, is recognized as a transfer. The tokens of that transfer are those that were sent
  -- and, after them, all the ones that the swap found, which the sender only expected to get.
  pub first_action-transfer_action :
      (m : Metadata) (ts : List Transfer) (qs : List Expected) (sent : Expected)
      → IsMultiSwap m
      → includes s.pair_contracts m.receiver ≡ true
      → m.transfers ≡ some ts
      → first_sent (get_transfers m) ≡ some sent
      → length qs < number_of_swaps m.function_args
      → FailsAfter c m.function_args 0 qs
      → first_action (get_recognizers (installed sdk c (some s) wegld details) true []) m
        ≡ returned (some (transfer_action c m (ts ++ map transfer_of qs)), push_all m qs)
  unfolding get_recognizers push_recognizers installed metabonding_recognizer
  first_action-transfer_action m ts qs sent f e t g h k =
      loop-transfer c m _ _ _ _ (push_all m qs) (mex_passes m qs sent f e g h k)
        (ap (λ o. o >>= (λ action. returned (action, push_all m qs)))
          (metabonding_none c wegld s (push_all m qs) (function_name-push_all qs m ∙ f)))
        (recognize_transfer-transfer_action (push_all m qs) (ts ++ map transfer_of qs)
            (transfers-push_all qs m ts t)
          ∙ ap some (same_rest m qs (ts ++ map transfer_of qs)))
