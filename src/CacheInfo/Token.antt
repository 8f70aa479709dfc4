-- ===== src/CacheInfo/Token.antt =====
-- Entries about tokens, NFTs and the nonces of shards, in the order of src/utils/cache.info.ts.
use mx_api_service.Base.{ℕ, String, ◌<>◌}
use mx_api_service.CacheInfo.{CacheInfo, minutes, hours, days, price_ttl}

pub data TokenEntry : Type 0 where
  token_hour_chart : String → TokenEntry
  token_daily_chart : String → TokenEntry
  token_assets : TokenEntry
  collection_ranks : TokenEntry
  account_assets : TokenEntry
  mex_settings : TokenEntry
  mex_contracts : TokenEntry
  verified_accounts : TokenEntry
  token_transfer_properties : String → TokenEntry
  esdt_properties : String → TokenEntry
  collection_properties : String → TokenEntry
  esdt_addresses_roles : String → TokenEntry
  esdt_assets : String → TokenEntry
  historical_price : String → String → String → TokenEntry
  nft_metadata : String → TokenEntry
  nft_media : String → TokenEntry
  nft_media_properties : String → TokenEntry
  token_locked_accounts : String → TokenEntry
  token_supply : String → TokenEntry
  token_transactions : String → TokenEntry
  token_transfers : String → TokenEntry
  token_accounts : String → TokenEntry
  token_accounts_extra : String → TokenEntry

unfoldable pub token_info : TokenEntry → CacheInfo
token_info (token_hour_chart token_identifier) = record {
  key = "tokenHourChart:" <> token_identifier;
  ttl = minutes 10;
}
token_info (token_daily_chart token_identifier) = record {
  key = "tokenDailyChart:" <> token_identifier;
  ttl = days 1;
}
token_info token_assets = record { key = "tokenAssets"; ttl = days 1 }
token_info collection_ranks = record { key = "collectionRanks"; ttl = days 1 }
token_info account_assets = record { key = "accountLabels"; ttl = days 1 }
token_info mex_settings = record { key = "mex:settings"; ttl = hours 1 }
token_info mex_contracts = record { key = "mex:contracts"; ttl = hours 1 }
token_info verified_accounts = record { key = "verifiedAccounts"; ttl = minutes 10 }
token_info (token_transfer_properties identifier) = record {
  key = "token:transfer:properties:v2:" <> identifier;
  ttl = hours 1;
}
token_info (esdt_properties identifier) = record { key = "esdt:v2:" <> identifier; ttl = days 1 }
token_info (collection_properties identifier) = record {
  key = "collection:" <> identifier;
  ttl = days 1;
}
token_info (esdt_addresses_roles identifier) = record {
  key = "esdt:roles:" <> identifier;
  ttl = days 1;
}
token_info (esdt_assets identifier) = record { key = "esdt:assets:" <> identifier; ttl = hours 1 }
token_info (historical_price identifier date today) = record {
  key = "historical-price:" <> (identifier <> (":" <> date));
  ttl = price_ttl date today;
}
token_info (nft_metadata identifier) = record {
  key = "nftMetadata:" <> identifier;
  ttl = minutes 10;
}
token_info (nft_media identifier) = record { key = "nftMedia:" <> identifier; ttl = minutes 10 }
token_info (nft_media_properties uri) = record { key = "nftMediaProperties:" <> uri; ttl = hours 1 }
token_info (token_locked_accounts identifier) = record {
  key = "tokenLockedAccounts:" <> identifier;
  ttl = hours 1;
}
token_info (token_supply identifier) = record { key = "tokenSupply:" <> identifier; ttl = hours 1 }
token_info (token_transactions identifier) = record {
  key = "tokenTransactionsv2:" <> identifier;
  ttl = hours 1;
}
token_info (token_transfers identifier) = record {
  key = "tokenTransfersv2:" <> identifier;
  ttl = hours 1;
}
token_info (token_accounts identifier) = record {
  key = "tokenAccountsv2:" <> identifier;
  ttl = hours 1;
}
token_info (token_accounts_extra identifier) = record {
  key = "tokenAccountsExtra:" <> identifier;
  ttl = hours 1;
}

-- The number of the family of keys that an entry belongs to.
unfoldable pub token_family : TokenEntry → ℕ
token_family (token_hour_chart _) = 26
token_family (token_daily_chart _) = 27
token_family token_assets = 28
token_family collection_ranks = 29
token_family account_assets = 30
token_family mex_settings = 31
token_family mex_contracts = 32
token_family verified_accounts = 33
token_family (token_transfer_properties _) = 34
token_family (esdt_properties _) = 35
token_family (collection_properties _) = 36
token_family (esdt_addresses_roles _) = 37
token_family (esdt_assets _) = 38
token_family (historical_price _ _ _) = 39
token_family (nft_metadata _) = 40
token_family (nft_media _) = 41
token_family (nft_media_properties _) = 42
token_family (token_locked_accounts _) = 43
token_family (token_supply _) = 44
token_family (token_transactions _) = 45
token_family (token_transfers _) = 46
token_family (token_accounts _) = 47
token_family (token_accounts_extra _) = 48
