-- ===== src/Action/Mex/Assets.antt =====
-- MexWrapActionRecognizerService, MexLockedAssetActionRecognizerService and
-- MexDistributionActionRecognizerService.
use mx_api_service.Base.{
  ℕ, ◌+◌, String, ◌<>◌, decimal, split, Option, none, some, List, [], ◌∷◌, true, false, ◌&&◌, ◌==◌,
  if◌then◌else◌, length, text_comparable, option_comparable,
}
use mx_api_service.Action.{mex}
use mx_api_service.Action.ScCalls.{name_or_empty}
use mx_api_service.Action.Arguments.{Transfer, Metadata, Action, wrap_arguments, Calls}
use mx_api_service.Action.Esdt.{get_multi_transfer_action, get_multi_transfer_action_with_ticker}
use mx_api_service.Action.Mex.Settings.{MexSettings, includes, get_transfers}

-- `wegldId.split('-')[0]`
abbrev pub first_part : List String → String
first_part [] = "undefined"
first_part (s ∷ ss) = s

abbrev pub sum_values : List Transfer → ℕ
sum_values [] = 0
sum_values (t ∷ ts) = t.value + sum_values ts

module _ (c : Calls) where
  unfoldable pub get_wrap_action : Option String → Metadata → Option Action
  unfolding ◌<>◌ split decimal
  get_wrap_action none m = none
  get_wrap_action (some wegld) m =
      if wegld == ""
      then none
      else some (record {
        category = mex;
        name = "wrapEgld";
        description = "Wrap " <> c.to_denominated_string m.value none <> " EGLD";
        arguments =
            some (wrap_arguments wegld (first_part (split 45 wegld)) (decimal m.value) m.receiver);
      })

  unfoldable pub recognize_wrap : Option String → MexSettings → Metadata → Option Action
  unfolding get_wrap_action get_multi_transfer_action_with_ticker
  recognize_wrap wegld s m = elim (includes s.wrap_contracts m.receiver) [
    | false ↦ none
    | true ↦
        if m.function_name == some "wrapEgld"
        then get_wrap_action wegld m
        else if m.function_name == some "unwrapEgld"
        then get_multi_transfer_action_with_ticker c m mex "unwrapEgld" "Unwrap"
        else none
  ]

  unfoldable pub get_assets_action : Metadata → String → Option Action
  unfolding get_multi_transfer_action_with_ticker
  get_assets_action m action =
      get_multi_transfer_action_with_ticker c m mex (name_or_empty m.function_name) action

  unfoldable pub get_unlock_action : Metadata → Option Action
  unfolding get_assets_action
  get_unlock_action m = elim (get_assets_action m "Unlock") [
    | none ↦ none
    | some a ↦ some (record a { description = "Unlock assets" })
  ]

  unfoldable pub get_merge_locked_asset_tokens : Metadata → Option Action
  unfolding get_transfers get_multi_transfer_action ◌<>◌ decimal
  get_merge_locked_asset_tokens m = elim (get_transfers m) [
    | none ↦ none
    | some ts ↦ get_multi_transfer_action c m mex "mergeLockedAssetTokens" (
        "Merge "
        <> decimal (length ts)
        <> " LKMEX positions into a single LKMEX position of value "
        <> c.to_denominated_string (sum_values ts) none)
  ]

  unfoldable pub recognize_locked_asset : MexSettings → Metadata → Option Action
  unfolding get_assets_action get_unlock_action get_merge_locked_asset_tokens
  recognize_locked_asset s m = elim (m.receiver == s.locked_asset_contract) [
    | false ↦ none
    | true ↦
        if m.function_name == some "lockAssets"
        then get_assets_action m "Lock"
        else if m.function_name == some "unlockAssets"
        then get_unlock_action m
        else if m.function_name == some "mergeLockedAssetTokens"
        then get_merge_locked_asset_tokens m
        else none
  ]

unfoldable pub get_claim_locked_assets_action : Action
get_claim_locked_assets_action = record {
  category = mex;
  name = "claimLockedAssets";
  description = "Claim locked assets";
  arguments = none;
}

unfoldable pub recognize_distribution : MexSettings → Metadata → Option Action
unfolding get_claim_locked_assets_action
recognize_distribution s m =
    if (m.receiver == s.distribution_contract) && (m.function_name == some "claimLockedAssets")
    then some get_claim_locked_assets_action
    else none
