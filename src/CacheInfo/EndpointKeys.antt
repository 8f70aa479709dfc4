-- ===== src/CacheInfo/EndpointKeys.antt =====
-- The keys of the entries of Endpoint are in the families that Family lists (src/utils/cache.info.ts).
use mx_api_service.Base.{◌≡◌, refl, some, ◌<>◌}
use mx_api_service.CacheInfo.Endpoint
use mx_api_service.CacheInfo.Endpoint.{EndpointEntry, endpoint_info, endpoint_family}
use mx_api_service.CacheInfo.Family.{family_of}

pub endpoint_info-family :
    (e : EndpointEntry) → family_of (endpoint_info e).key ≡ some (endpoint_family e)
unfolding endpoint_info endpoint_family family_of ◌<>◌
endpoint_info-family (Endpoint.account_is_verified address) = refl
endpoint_info-family (Endpoint.accounts pagination) = refl
endpoint_info-family (Endpoint.blocks_count filter) = refl
endpoint_info-family (Endpoint.blocks_latest value ttl) = refl
endpoint_info-family Endpoint.delegation = refl
endpoint_info-family Endpoint.constants = refl
endpoint_info-family (Endpoint.nft_owners_count identifier) = refl
endpoint_info-family (Endpoint.nft_tags pagination) = refl
endpoint_info-family Endpoint.nft_tag_count = refl
endpoint_info-family Endpoint.node_versions = refl
endpoint_info-family Endpoint.delegation_providers = refl
endpoint_info-family (Endpoint.delegation_provider address) = refl
endpoint_info-family Endpoint.global_stake = refl
endpoint_info-family Endpoint.full_waiting_list = refl
endpoint_info-family (Endpoint.pending_upload_asset identifier) = refl
endpoint_info-family (Endpoint.pending_media_get identifier) = refl
endpoint_info-family (Endpoint.pending_metadata_get identifier) = refl
endpoint_info-family (Endpoint.pending_generate_thumbnail identifier) = refl
endpoint_info-family (Endpoint.username address) = refl
endpoint_info-family (Endpoint.contract_upgrades address) = refl
