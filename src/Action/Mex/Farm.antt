-- ===== src/Action/Mex/Farm.antt =====
-- MexFarmActionRecognizerService.
use mx_api_service.Base.{
  String, Option, none, some, List, [], ◌∷◌, true, false, if◌then◌else◌, text_comparable,
}
use mx_api_service.Action.{mex}
use mx_api_service.Action.Arguments.{Metadata, Action, Calls}
use mx_api_service.Action.Esdt.{get_multi_transfer_action_with_ticker}
use mx_api_service.Action.Mex.Settings.{MexSettings, includes}

-- One group of cases of the switch: the functions, the name and the words of the description.
pub record FarmCase : Type 0 where
  pub functions : List String
  pub name : String
  pub words : String

abbrev farm_case : String → String → String → String → FarmCase
farm_case f proxy name words = record { functions = f ∷ proxy ∷ []; name = name; words = words }

-- The cases in the order of the switch.
abbrev pub farm_cases : List FarmCase
farm_cases =
    farm_case "enterFarm" "enterFarmProxy" "enterFarm" "Enter farm with"
    ∷ farm_case "enterFarmAndLockRewards" "enterFarmAndLockRewardsProxy" "enterFarm"
        "Enter farm and lock rewards with"
    ∷ farm_case "exitFarm" "exitFarmProxy" "exitFarm" "Exit farm with"
    ∷ farm_case "claimRewards" "claimRewardsProxy" "claimRewards" "Claim rewards for"
    ∷ farm_case "compoundRewards" "compoundRewardsProxy" "compoundRewards" "Reinvest rewards for"
    ∷ farm_case "stakeFarm" "stakeFarmProxy" "enterFarm" "Stake farm with"
    ∷ farm_case "stakeFarmTokens" "stakeFarmTokensProxy" "enterFarm" "Stake farm tokens with"
    ∷ farm_case "unstakeFarm" "unstakeFarmProxy" "exitFarm" "Unstake farm with"
    ∷ farm_case "unstakeFarmTokens" "unstakeFarmTokensProxy" "exitFarm" "Unstake farm tokens with"
    ∷ farm_case "claimDualYield" "claimDualYieldProxy" "claimRewards" "Claim dual yield for"
    ∷ record { functions = "unbondFarm" ∷ []; name = "unbondFarm"; words = "Unbond farm with" }
    ∷ []

-- The case that a function falls into.
unfoldable pub case_of : List FarmCase → String → Option FarmCase
case_of [] f = none
case_of (k ∷ ks) f = if includes k.functions f then some k else case_of ks f

module _ (c : Calls) where
  unfoldable pub get_farm_action : Metadata → FarmCase → Option Action
  unfolding get_multi_transfer_action_with_ticker
  get_farm_action m k = get_multi_transfer_action_with_ticker c m mex k.name k.words

  unfoldable pub farm_action_of : Metadata → Option String → Option Action
  unfolding case_of get_farm_action
  farm_action_of m none = none
  farm_action_of m (some f) = elim (case_of farm_cases f) [
    | none ↦ none
    | some k ↦ get_farm_action m k
  ]

  unfoldable pub recognize_farm : MexSettings → Metadata → Option Action
  unfolding farm_action_of
  recognize_farm s m = elim (includes s.farm_contracts m.receiver) [
    | false ↦ none
    | true ↦ farm_action_of m m.function_name
  ]
