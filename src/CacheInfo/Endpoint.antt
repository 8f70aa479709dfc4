-- ===== src/CacheInfo/Endpoint.antt =====
-- Entries about blocks, delegation and the media queue, in the order of src/utils/cache.info.ts.
use mx_api_service.Base.{String, ℕ, ◌<>◌, Option, decimal}
use mx_api_service.CacheInfo.{
  CacheInfo, minutes, hours, days, seconds, QueryPagination, compute_blocks_latest_ttl, Duration,
}

pub data EndpointEntry : Type 0 where
  account_is_verified : String → EndpointEntry
  accounts : QueryPagination → EndpointEntry
  blocks_count : String → EndpointEntry
  blocks_latest : (Duration → ℕ) → Option ℕ → EndpointEntry
  delegation : EndpointEntry
  constants : EndpointEntry
  nft_owners_count : String → EndpointEntry
  nft_tags : QueryPagination → EndpointEntry
  nft_tag_count : EndpointEntry
  node_versions : EndpointEntry
  delegation_providers : EndpointEntry
  delegation_provider : String → EndpointEntry
  global_stake : EndpointEntry
  full_waiting_list : EndpointEntry
  pending_upload_asset : String → EndpointEntry
  pending_media_get : String → EndpointEntry
  pending_metadata_get : String → EndpointEntry
  pending_generate_thumbnail : String → EndpointEntry
  username : String → EndpointEntry
  contract_upgrades : String → EndpointEntry

unfoldable pub endpoint_info : EndpointEntry → CacheInfo
endpoint_info (account_is_verified address) = record {
  key = "accountIsVerified:" <> address;
  ttl = minutes 10;
}
endpoint_info (accounts pagination) = record {
  key = "accounts:" <> (decimal pagination.start <> (":" <> (decimal pagination.size)));
  ttl = minutes 1;
}
endpoint_info (blocks_count filter) = record { key = "blocks:count:" <> filter; ttl = seconds 6 }
endpoint_info (blocks_latest value ttl) = record {
  key = "blocks:latest:" <> decimal (value (compute_blocks_latest_ttl value ttl));
  ttl = compute_blocks_latest_ttl value ttl;
}
endpoint_info delegation = record { key = "delegation"; ttl = minutes 10 }
endpoint_info constants = record { key = "constants"; ttl = days 1 }
endpoint_info (nft_owners_count identifier) = record {
  key = "nftOwnerCount:" <> identifier;
  ttl = minutes 1;
}
endpoint_info (nft_tags pagination) = record {
  key = "nftTags:" <> (decimal pagination.start <> (":" <> (decimal pagination.size)));
  ttl = hours 1;
}
endpoint_info nft_tag_count = record { key = "nftTagsCount"; ttl = hours 1 }
endpoint_info node_versions = record { key = "nodeVersions"; ttl = minutes 1 }
endpoint_info delegation_providers = record { key = "delegationProviders"; ttl = minutes 1 }
endpoint_info (delegation_provider address) = record {
  key = "delegationProvider:" <> address;
  ttl = minutes 1;
}
endpoint_info global_stake = record { key = "stake"; ttl = minutes 10 }
endpoint_info full_waiting_list = record { key = "waiting-list"; ttl = minutes 5 }
endpoint_info (pending_upload_asset identifier) = record {
  key = "pendingUploadAsset:" <> identifier;
  ttl = hours 12;
}
endpoint_info (pending_media_get identifier) = record {
  key = "pendingMediaGet:" <> identifier;
  ttl = hours 12;
}
endpoint_info (pending_metadata_get identifier) = record {
  key = "pendingMetadataGet:" <> identifier;
  ttl = hours 12;
}
endpoint_info (pending_generate_thumbnail identifier) = record {
  key = "pendingGenerateThumbnail:" <> identifier;
  ttl = hours 12;
}
endpoint_info (username address) = record { key = "username:" <> address; ttl = hours 1 }
endpoint_info (contract_upgrades address) = record {
  key = "contractUpgrades:" <> address;
  ttl = hours 1;
}

-- The number of the family of keys that an entry belongs to.
unfoldable pub endpoint_family : EndpointEntry → ℕ
endpoint_family (account_is_verified _) = 73
endpoint_family (accounts _) = 74
endpoint_family (blocks_count _) = 75
endpoint_family (blocks_latest _ _) = 76
endpoint_family delegation = 77
endpoint_family constants = 78
endpoint_family (nft_owners_count _) = 79
endpoint_family (nft_tags _) = 80
endpoint_family nft_tag_count = 81
endpoint_family node_versions = 82
endpoint_family delegation_providers = 83
endpoint_family (delegation_provider _) = 84
endpoint_family global_stake = 85
endpoint_family full_waiting_list = 86
endpoint_family (pending_upload_asset _) = 87
endpoint_family (pending_media_get _) = 88
endpoint_family (pending_metadata_get _) = 89
endpoint_family (pending_generate_thumbnail _) = 90
endpoint_family (username _) = 91
endpoint_family (contract_upgrades _) = 92
