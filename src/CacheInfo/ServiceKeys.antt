-- ===== src/CacheInfo/ServiceKeys.antt =====
-- The keys of the entries of Service are in the families that Family lists (src/utils/cache.info.ts).
use mx_api_service.Base.{◌≡◌, refl, some, ◌<>◌}
use mx_api_service.CacheInfo.Service
use mx_api_service.CacheInfo.Service.{ServiceEntry, service_info, service_family}
use mx_api_service.CacheInfo.Family.{family_of}

pub service_info-family :
    (e : ServiceEntry) → family_of (service_info e).key ≡ some (service_family e)
unfolding service_info service_family family_of ◌<>◌
service_info-family (Service.setting name) = refl
service_info-family Service.data_api_tokens = refl
service_info-family (Service.address_esdt_trie_timeout address) = refl
service_info-family (Service.github_keys_validated identity) = refl
service_info-family (Service.github_profile_validated identity) = refl
service_info-family (Service.data_api_token_price identifier day_of now timestamp) = refl
service_info-family (Service.tps_nonce_by_shard shard_id) = refl
service_info-family (Service.tps_by_timestamp_and_frequency timestamp frequency) = refl
service_info-family (Service.tps_history_by_interval interval) = refl
service_info-family (Service.tps_max_by_interval interval) = refl
service_info-family (Service.transaction_count_by_shard shard_id) = refl
service_info-family Service.nodes_auctions = refl
service_info-family Service.validator_auctions = refl
service_info-family (Service.applications pagination) = refl
service_info-family (Service.deep_history_block timestamp shard_id) = refl
service_info-family (Service.ppu_metadata_by_shard shard_id) = refl
