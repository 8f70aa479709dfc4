-- ===== src/CacheInfo/Chain.antt =====
-- Entries about the chain and its nodes, in the order of src/utils/cache.info.ts.
use mx_api_service.Base.{String, ℕ, ◌<>◌, decimal}
use mx_api_service.CacheInfo.{CacheInfo, seconds, minutes, hours, days, weeks, max_safe_integer}

pub data ChainEntry : Type 0 where
  about : ChainEntry
  last_processed_timestamp : ChainEntry
  token_market_cap : ChainEntry
  nodes : ChainEntry
  shard_ids : ChainEntry
  shard_count : ChainEntry
  genesis_timestamp : ChainEntry
  active_shards : ChainEntry
  all_esdt_tokens : ChainEntry
  transaction_pool : ChainEntry
  application_most_used : ChainEntry
  identities : ChainEntry
  providers : ChainEntry
  providers_with_stake_information : ChainEntry
  confirmed_identity : String → ChainEntry
  confirmed_provider : String → ChainEntry
  provider_owner : String → ChainEntry
  tx_count : String → ChainEntry
  identity_profiles_keybases : ChainEntry
  current_price : ChainEntry
  economics : ChainEntry
  shard_and_epoch_blses : ℕ → ℕ → ChainEntry
  owner_by_epoch_and_bls : ℕ → String → ChainEntry
  transaction_processor_shard_nonce : ℕ → ChainEntry
  transaction_completed_shard_nonce : ℕ → ChainEntry
  transaction_batch_shard_nonce : ℕ → ChainEntry

unfoldable pub chain_info : ChainEntry → CacheInfo
chain_info about = record { key = "about"; ttl = minutes 10 }
chain_info last_processed_timestamp = record { key = "lastProcessedTimestamp"; ttl = weeks 2 }
chain_info token_market_cap = record { key = "tokenMarketCap"; ttl = minutes 10 }
chain_info nodes = record { key = "nodes"; ttl = hours 1 }
chain_info shard_ids = record { key = "shardIds"; ttl = weeks 1 }
chain_info shard_count = record { key = "shardCount"; ttl = weeks 1 }
chain_info genesis_timestamp = record { key = "genesisTimestamp"; ttl = weeks 1 }
chain_info active_shards = record { key = "shards"; ttl = minutes 1 }
chain_info all_esdt_tokens = record { key = "allEsdtTokens"; ttl = hours 1 }
chain_info transaction_pool = record { key = "txpool"; ttl = seconds 6 }
chain_info application_most_used = record { key = "applicationMostUsed"; ttl = hours 1 }
chain_info identities = record { key = "identities"; ttl = minutes 15 }
chain_info providers = record { key = "providers"; ttl = hours 1 }
chain_info providers_with_stake_information = record {
  key = "providersWithStakeInformation";
  ttl = hours 1;
}
chain_info (confirmed_identity bls) = record { key = "confirmedIdentity:" <> bls; ttl = hours 6 }
chain_info (confirmed_provider address) = record {
  key = "confirmedProvider:" <> address;
  ttl = hours 6;
}
chain_info (provider_owner address) = record { key = "providerOwner:" <> address; ttl = hours 6 }
chain_info (tx_count address) = record { key = "txCount:" <> address; ttl = seconds 30 }
chain_info identity_profiles_keybases = record { key = "identityProfilesKeybases"; ttl = hours 1 }
chain_info current_price = record { key = "currentPrice"; ttl = hours 1 }
chain_info economics = record { key = "economics"; ttl = minutes 10 }
chain_info (shard_and_epoch_blses shard epoch) = record {
  key = decimal shard <> ("_" <> (decimal epoch));
  ttl = weeks 1;
}
chain_info (owner_by_epoch_and_bls epoch bls) = record {
  key = "nodeOwner:" <> (decimal epoch <> (":" <> bls));
  ttl = days 1;
}
chain_info (transaction_processor_shard_nonce shard) = record {
  key = "shardNonce:" <> (decimal shard);
  ttl = max_safe_integer;
}
chain_info (transaction_completed_shard_nonce shard) = record {
  key = "completedShardNonce:" <> (decimal shard);
  ttl = max_safe_integer;
}
chain_info (transaction_batch_shard_nonce shard) = record {
  key = "batchShardNonce:" <> (decimal shard);
  ttl = max_safe_integer;
}

-- The number of the family of keys that an entry belongs to.
unfoldable pub chain_family : ChainEntry → ℕ
chain_family about = 0
chain_family last_processed_timestamp = 1
chain_family token_market_cap = 2
chain_family nodes = 3
chain_family shard_ids = 4
chain_family shard_count = 5
chain_family genesis_timestamp = 6
chain_family active_shards = 7
chain_family all_esdt_tokens = 8
chain_family transaction_pool = 9
chain_family application_most_used = 10
chain_family identities = 11
chain_family providers = 12
chain_family providers_with_stake_information = 13
chain_family (confirmed_identity _) = 14
chain_family (confirmed_provider _) = 15
chain_family (provider_owner _) = 16
chain_family (tx_count _) = 17
chain_family identity_profiles_keybases = 18
chain_family current_price = 19
chain_family economics = 20
chain_family (shard_and_epoch_blses _ _) = 21
chain_family (owner_by_epoch_and_bls _ _) = 22
chain_family (transaction_processor_shard_nonce _) = 23
chain_family (transaction_completed_shard_nonce _) = 24
chain_family (transaction_batch_shard_nonce _) = 25
