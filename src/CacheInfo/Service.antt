-- ===== src/CacheInfo/Service.antt =====
-- Entries about settings, prices and statistics, in the order of src/utils/cache.info.ts.
use mx_api_service.Base.{String, ℕ, ◌<>◌, ◌*◌, Option, decimal}
use mx_api_service.CacheInfo.{
  CacheInfo, seconds, minutes, hours, days, number, QueryPagination, price_ttl, price_day,
}

pub data ServiceEntry : Type 0 where
  setting : String → ServiceEntry
  data_api_tokens : ServiceEntry
  address_esdt_trie_timeout : String → ServiceEntry
  github_keys_validated : String → ServiceEntry
  github_profile_validated : String → ServiceEntry
  data_api_token_price : String → (ℕ → String) → ℕ → Option ℕ → ServiceEntry
  tps_nonce_by_shard : ℕ → ServiceEntry
  tps_by_timestamp_and_frequency : ℕ → ℕ → ServiceEntry
  tps_history_by_interval : String → ServiceEntry
  tps_max_by_interval : String → ServiceEntry
  transaction_count_by_shard : ℕ → ServiceEntry
  nodes_auctions : ServiceEntry
  validator_auctions : ServiceEntry
  applications : QueryPagination → ServiceEntry
  deep_history_block : ℕ → ℕ → ServiceEntry
  ppu_metadata_by_shard : ℕ → ServiceEntry

unfoldable pub service_info : ServiceEntry → CacheInfo
service_info (setting name) = record { key = "api:settings:" <> name; ttl = hours 1 }
service_info data_api_tokens = record { key = "data-api:tokens"; ttl = minutes 10 }
service_info (address_esdt_trie_timeout address) = record {
  key = "addressEsdtTrieTimeout:" <> address;
  ttl = hours 1;
}
service_info (github_keys_validated identity) = record {
  key = "githubKeysValidated:" <> identity;
  ttl = days 1;
}
service_info (github_profile_validated identity) = record {
  key = "githubProfileValidated:" <> identity;
  ttl = days 1;
}
service_info (data_api_token_price identifier day_of now timestamp) = record {
  key = "data-api:price:" <> (identifier <> (":" <> price_day day_of now timestamp));
  ttl = price_ttl (price_day day_of now timestamp) (day_of now);
}
service_info (tps_nonce_by_shard shard_id) = record {
  key = "tpsCurrentNonce:" <> (decimal shard_id);
  ttl = days 1;
}
service_info (tps_by_timestamp_and_frequency timestamp frequency) = record {
  key = "tpsTransactions:" <> (decimal timestamp <> (":" <> decimal frequency));
  ttl = number (frequency * 300);
}
service_info (tps_history_by_interval interval) = record {
  key = "tpsHistory:" <> interval;
  ttl = minutes 1;
}
service_info (tps_max_by_interval interval) = record { key = "tpsMax:" <> interval; ttl = days 1 }
service_info (transaction_count_by_shard shard_id) = record {
  key = "transactionCount:" <> (decimal shard_id);
  ttl = hours 1;
}
service_info nodes_auctions = record { key = "nodesAuctions"; ttl = minutes 1 }
service_info validator_auctions = record { key = "validatorAuctions"; ttl = hours 1 }
service_info (applications pagination) = record {
  key = "applications:" <> (decimal pagination.start <> (":" <> (decimal pagination.size)));
  ttl = minutes 1;
}
service_info (deep_history_block timestamp shard_id) = record {
  key = "deepHistoryBlock:" <> (decimal timestamp <> (":" <> (decimal shard_id)));
  ttl = minutes 10;
}
service_info (ppu_metadata_by_shard shard_id) = record {
  key = "ppuMetadata:shard:" <> (decimal shard_id);
  ttl = seconds 30;
}

-- The number of the family of keys that an entry belongs to.
unfoldable pub service_family : ServiceEntry → ℕ
service_family (setting _) = 93
service_family data_api_tokens = 94
service_family (address_esdt_trie_timeout _) = 95
service_family (github_keys_validated _) = 96
service_family (github_profile_validated _) = 97
service_family (data_api_token_price _ _ _ _) = 98
service_family (tps_nonce_by_shard _) = 99
service_family (tps_by_timestamp_and_frequency _ _) = 100
service_family (tps_history_by_interval _) = 101
service_family (tps_max_by_interval _) = 102
service_family (transaction_count_by_shard _) = 103
service_family nodes_auctions = 104
service_family validator_auctions = 105
service_family (applications _) = 106
service_family (deep_history_block _ _) = 107
service_family (ppu_metadata_by_shard _) = 108
