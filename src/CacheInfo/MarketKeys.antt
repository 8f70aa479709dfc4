-- ===== src/CacheInfo/MarketKeys.antt =====
-- The keys of the entries of Market are in the families that Family lists (src/utils/cache.info.ts).
use mx_api_service.Base.{◌≡◌, refl, some, ◌<>◌, String}
use mx_api_service.CacheInfo.{transaction_batch, pending_transaction}
use mx_api_service.CacheInfo.Market
use mx_api_service.CacheInfo.Market.{MarketEntry, market_info, market_family}
use mx_api_service.CacheInfo.Family.{family_of, ends_with, family_of-framed}

accounts_count-family :
    family_of (market_info Market.accounts_count).key ≡ some (market_family Market.accounts_count)
unfolding market_info market_family family_of ends_with
accounts_count-family = refl

account_username-family :
    (address : String)
    → family_of (market_info (Market.account_username address)).key
      ≡ some (market_family (Market.account_username address))
unfolding market_info market_family
account_username-family address = family_of-framed address

pub market_info-family : (e : MarketEntry) → family_of (market_info e).key ≡ some (market_family e)
unfolding market_info market_family family_of ◌<>◌ transaction_batch pending_transaction
market_info-family (Market.transaction_pending_results hash) = refl
market_info-family (Market.stake_topup address) = refl
market_info-family (Market.collection_type collection_identifier) = refl
market_info-family Market.mex_economics = refl
market_info-family Market.mex_pairs = refl
market_info-family Market.mex_pairs_with_farms = refl
market_info-family Market.mex_tokens = refl
market_info-family Market.mex_token_types = refl
market_info-family Market.mex_farms = refl
market_info-family Market.staking_proxies = refl
market_info-family Market.mex_tokens_indexed = refl
market_info-family Market.mex_prices = refl
market_info-family (Market.generate_thumbnails identifier) = refl
market_info-family (Market.collection_non_sc_owner collection) = refl
market_info-family Market.delegation_legacy = refl
market_info-family Market.extended_attributes_activation_nonce = refl
market_info-family Market.init_epoch = refl
market_info-family Market.locked_token_ids = refl
market_info-family Market.current_epoch = refl
market_info-family (Market.transaction_batch sender batch_id) = refl
market_info-family (Market.pending_transaction hash) = refl
market_info-family Market.accounts_count = accounts_count-family
market_info-family (Market.account_username address) = account_username-family address
market_info-family (Market.account_deployed_at address) = refl
market_info-family (Market.account_deploy_tx_hash address) = refl
