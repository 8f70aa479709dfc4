-- ===== src/Action/Installed.antt =====
-- The recognizers that the module of the actions installs, at one state of the services they ask.
pub mod Leftover
use mx_api_service.Base.{String, Option, List, text_comparable}
use mx_api_service.Action.{Sdk}
use mx_api_service.Action.Service.{Recognizers}
use mx_api_service.Action.ScCalls.{sc_call_recognizer}
use mx_api_service.Action.Arguments.{TokenTransferProperties, ActionArguments, Calls}
use mx_api_service.Action.Esdt.{esdt_nft_recognizer}
use mx_api_service.Action.Stake.{Details, stake_recognizer}
use mx_api_service.Action.Mex.Settings.{MexSettings, get_mex_contracts_raw}
use mx_api_service.Action.Mex.Metabonding.{metabonding_recognizer}
use mx_api_service.Action.Mex.Recognizer.{recognize_mex}

-- The contracts are those of the settings.
unfoldable pub installed :
    Sdk (Option TokenTransferProperties)
    → Calls
    → Option MexSettings
    → Option String
    → Details
    → Recognizers (Option TokenTransferProperties) ActionArguments
unfolding recognize_mex get_mex_contracts_raw metabonding_recognizer esdt_nft_recognizer
    stake_recognizer sc_call_recognizer
installed sdk c settings wegld details = record {
  mex = recognize_mex c settings (get_mex_contracts_raw settings) wegld;
  metabonding = metabonding_recognizer c;
  esdt_nft = esdt_nft_recognizer c;
  stake = stake_recognizer c details;
  sc_call = sc_call_recognizer sdk;
}
