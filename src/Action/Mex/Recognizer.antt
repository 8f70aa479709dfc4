-- ===== src/Action/Mex/Recognizer.antt =====
-- TransactionActionMexRecognizerService.
use mx_api_service.Base.{
  String, Option, none, some, List, Bool, true, false, ◌==◌, not, text_comparable,
}
use mx_api_service.Action.{returned, ◌>>=◌}
use mx_api_service.Action.Service.{answer_or}
use mx_api_service.Action.Arguments.{Metadata, Action, ActionRecognizer, Calls}
use mx_api_service.Action.Mex.Settings.{MexSettings, is_mex_interaction}
use mx_api_service.Action.Mex.Pair.{recognize_pair}
use mx_api_service.Action.Mex.Farm.{recognize_farm}
use mx_api_service.Action.Mex.Assets.{
  recognize_wrap, recognize_locked_asset, recognize_distribution,
}

-- isActive, by the address of the exchange's service. The settings that it gets too are null where
-- there are none, which is not `undefined`.
unfoldable pub is_active : Option String → Bool
is_active none = false
is_active (some url) = not (url == "")

abbrev pub or_else : Option Action → Option Action → Option Action
or_else none b = b
or_else (some a) b = some a

module _ (c : Calls) where
  -- The `??` of the four recognizers after the first, at the metadata that the pair leaves.
  unfoldable pub recognize_later : Option String → MexSettings → Metadata → Option Action
  unfolding recognize_farm recognize_wrap recognize_locked_asset
  recognize_later wegld s m =
      or_else (recognize_farm c s m)
        (or_else (recognize_wrap c wegld s m) (recognize_locked_asset c s m))

  unfoldable pub recognize_interaction : Option String → MexSettings → ActionRecognizer
  unfolding recognize_distribution recognize_pair recognize_later
  recognize_interaction wegld s m = elim (recognize_distribution s m) [
    | some a ↦ returned (some a, m)
    | none ↦ recognize_pair c s m >>= answer_or (λ m'. returned (recognize_later wegld s m', m'))
  ]

  -- `wegld` is what getWegldId gives, `contracts` what getMexContracts gives.
  unfoldable pub recognize_mex : Option MexSettings → List String → Option String → ActionRecognizer
  unfolding is_mex_interaction recognize_interaction
  recognize_mex none contracts wegld m = returned (none, m)
  recognize_mex (some s) contracts wegld m = elim (is_mex_interaction contracts m) [
    | false ↦ returned (none, m)
    | true ↦ recognize_interaction wegld s m
  ]
