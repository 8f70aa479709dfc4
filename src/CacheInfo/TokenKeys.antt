-- ===== src/CacheInfo/TokenKeys.antt =====
-- The keys of the entries of Token are in the families that Family lists (src/utils/cache.info.ts).
use mx_api_service.Base.{◌≡◌, refl, some, ◌<>◌}
use mx_api_service.CacheInfo.Token
use mx_api_service.CacheInfo.Token.{TokenEntry, token_info, token_family}
use mx_api_service.CacheInfo.Family.{family_of}

pub token_info-family : (e : TokenEntry) → family_of (token_info e).key ≡ some (token_family e)
unfolding token_info token_family family_of ◌<>◌
token_info-family (Token.token_hour_chart token_identifier) = refl
token_info-family (Token.token_daily_chart token_identifier) = refl
token_info-family Token.token_assets = refl
token_info-family Token.collection_ranks = refl
token_info-family Token.account_assets = refl
token_info-family Token.mex_settings = refl
token_info-family Token.mex_contracts = refl
token_info-family Token.verified_accounts = refl
token_info-family (Token.token_transfer_properties identifier) = refl
token_info-family (Token.esdt_properties identifier) = refl
token_info-family (Token.collection_properties identifier) = refl
token_info-family (Token.esdt_addresses_roles identifier) = refl
token_info-family (Token.esdt_assets identifier) = refl
token_info-family (Token.historical_price identifier date today) = refl
token_info-family (Token.nft_metadata identifier) = refl
token_info-family (Token.nft_media identifier) = refl
token_info-family (Token.nft_media_properties uri) = refl
token_info-family (Token.token_locked_accounts identifier) = refl
token_info-family (Token.token_supply identifier) = refl
token_info-family (Token.token_transactions identifier) = refl
token_info-family (Token.token_transfers identifier) = refl
token_info-family (Token.token_accounts identifier) = refl
token_info-family (Token.token_accounts_extra identifier) = refl
