-- ===== src/Action/Mex/Settings.antt =====
-- MexSettings and what the recognizers ask of MexSettingsService.
use mx_api_service.Base.{
  String, Option, none, some, List, [], ◌∷◌, ◌++◌, Bool, ◌==◌, exists, text_comparable,
}
use mx_api_service.Action.Arguments.{Transfer, Metadata}

pub record MexSettings : Type 0 where
  pub pair_contracts : List String
  pub farm_contracts : List String
  pub wrap_contracts : List String
  pub router_factory_contract : String
  pub distribution_contract : String
  pub locked_asset_contract : String
  pub wegld_id : String

-- `contracts.includes(address)`, and `has` of a set of addresses.
abbrev pub includes : List String → String → Bool
includes addresses a = exists (λ x. x == a) addresses

unfoldable pub get_transfers : Metadata → Option (List Transfer)
get_transfers m = elim m.transfers [
  | none ↦ none
  | some ts ↦ elim ts [ [] ↦ none | t ∷ rest ↦ some (t ∷ rest) ]
]

unfoldable pub get_mex_contracts_raw : Option MexSettings → List String
get_mex_contracts_raw none = []
get_mex_contracts_raw (some s) =
    s.distribution_contract
    ∷ s.locked_asset_contract
    ∷ s.router_factory_contract
    ∷ (s.farm_contracts ++ (s.pair_contracts ++ s.wrap_contracts))

unfoldable pub is_mex_interaction : List String → Metadata → Bool
is_mex_interaction contracts m = includes contracts m.receiver
