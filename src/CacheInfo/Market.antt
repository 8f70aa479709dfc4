-- ===== src/CacheInfo/Market.antt =====
-- Entries about the exchange, batches and accounts, in the order of src/utils/cache.info.ts.
use mx_api_service.Base.{ℕ, String, ◌<>◌}
use mx_api_service.CacheInfo.{
  CacheInfo, minutes, hours, days, weeks, transaction_batch as batch_entry,
  pending_transaction as pending_entry,
}

pub data MarketEntry : Type 0 where
  transaction_pending_results : String → MarketEntry
  stake_topup : String → MarketEntry
  collection_type : String → MarketEntry
  mex_economics : MarketEntry
  mex_pairs : MarketEntry
  mex_pairs_with_farms : MarketEntry
  mex_tokens : MarketEntry
  mex_token_types : MarketEntry
  mex_farms : MarketEntry
  staking_proxies : MarketEntry
  mex_tokens_indexed : MarketEntry
  mex_prices : MarketEntry
  generate_thumbnails : String → MarketEntry
  collection_non_sc_owner : String → MarketEntry
  delegation_legacy : MarketEntry
  extended_attributes_activation_nonce : MarketEntry
  init_epoch : MarketEntry
  locked_token_ids : MarketEntry
  current_epoch : MarketEntry
  transaction_batch : String → String → MarketEntry
  pending_transaction : String → MarketEntry
  accounts_count : MarketEntry
  account_username : String → MarketEntry
  account_deployed_at : String → MarketEntry
  account_deploy_tx_hash : String → MarketEntry

unfoldable pub market_info : MarketEntry → CacheInfo
market_info (transaction_pending_results hash) = record {
  key = "transaction:pendingresults:" <> hash;
  ttl = minutes 20;
}
market_info (stake_topup address) = record { key = "stakeTopup:" <> address; ttl = minutes 15 }
market_info (collection_type collection_identifier) = record {
  key = "collectionType:" <> collection_identifier;
  ttl = minutes 10;
}
market_info mex_economics = record { key = "mexEconomics"; ttl = minutes 10 }
market_info mex_pairs = record { key = "mexPairs"; ttl = minutes 10 }
market_info mex_pairs_with_farms = record { key = "mexPairsWithFarms"; ttl = minutes 10 }
market_info mex_tokens = record { key = "mexTokens"; ttl = minutes 10 }
market_info mex_token_types = record { key = "mexTokenTypes"; ttl = minutes 10 }
market_info mex_farms = record { key = "mexFarms"; ttl = minutes 10 }
market_info staking_proxies = record { key = "mexStakingProxies"; ttl = minutes 10 }
market_info mex_tokens_indexed = record { key = "mexTokensIndexed"; ttl = minutes 10 }
market_info mex_prices = record { key = "mexPrices"; ttl = minutes 10 }
market_info (generate_thumbnails identifier) = record {
  key = "generateThumbnails:" <> identifier;
  ttl = hours 24;
}
market_info (collection_non_sc_owner collection) = record {
  key = "collectionNonScOwner:" <> collection;
  ttl = minutes 10;
}
market_info delegation_legacy = record { key = "delegationLegacy"; ttl = minutes 10 }
market_info extended_attributes_activation_nonce = record {
  key = "extendedAttributesActivationNonce2";
  ttl = hours 1;
}
market_info init_epoch = record { key = "initEpoch"; ttl = days 1 }
market_info locked_token_ids = record { key = "lockedTokenIDs"; ttl = hours 1 }
market_info current_epoch = record { key = "currentEpoch"; ttl = minutes 1 }
market_info (transaction_batch sender batch_id) = batch_entry sender batch_id
market_info (pending_transaction hash) = pending_entry hash
market_info accounts_count = record { key = "account:count"; ttl = minutes 1 }
market_info (account_username address) = record {
  key = "account:" <> (address <> ":username");
  ttl = weeks 1;
}
market_info (account_deployed_at address) = record {
  key = "accountDeployedAt:" <> address;
  ttl = days 1;
}
market_info (account_deploy_tx_hash address) = record {
  key = "accountDeployTxHash:" <> address;
  ttl = days 1;
}

-- The number of the family of keys that an entry belongs to.
unfoldable pub market_family : MarketEntry → ℕ
market_family (transaction_pending_results _) = 49
market_family (stake_topup _) = 50
market_family (collection_type _) = 51
market_family mex_economics = 52
market_family mex_pairs = 53
market_family mex_pairs_with_farms = 54
market_family mex_tokens = 55
market_family mex_token_types = 56
market_family mex_farms = 57
market_family staking_proxies = 58
market_family mex_tokens_indexed = 59
market_family mex_prices = 60
market_family (generate_thumbnails _) = 61
market_family (collection_non_sc_owner _) = 62
market_family delegation_legacy = 63
market_family extended_attributes_activation_nonce = 64
market_family init_epoch = 65
market_family locked_token_ids = 66
market_family current_epoch = 67
market_family (transaction_batch _ _) = 68
market_family (pending_transaction _) = 69
market_family accounts_count = 109
market_family (account_username _) = 70
market_family (account_deployed_at _) = 71
market_family (account_deploy_tx_hash _) = 72
