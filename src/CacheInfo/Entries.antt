-- ===== src/CacheInfo/Entries.antt =====
-- All the entries of src/utils/cache.info.ts, and which of them can share a key.
use mx_api_service.Base.{ℕ, ◌≡◌, sym, ◌∙◌, ap, Option, some, none}
use mx_api_service.CacheInfo.{CacheInfo}
use mx_api_service.CacheInfo.Chain.{ChainEntry, chain_info, chain_family}
use mx_api_service.CacheInfo.Token.{TokenEntry, token_info, token_family}
use mx_api_service.CacheInfo.Market.{MarketEntry, market_info, market_family}
use mx_api_service.CacheInfo.Endpoint.{EndpointEntry, endpoint_info, endpoint_family}
use mx_api_service.CacheInfo.Service.{ServiceEntry, service_info, service_family}
use mx_api_service.CacheInfo.Family.{family_of}
use mx_api_service.CacheInfo.ChainKeys.{chain_info-family}
use mx_api_service.CacheInfo.TokenKeys.{token_info-family}
use mx_api_service.CacheInfo.MarketKeys.{market_info-family}
use mx_api_service.CacheInfo.EndpointKeys.{endpoint_info-family}
use mx_api_service.CacheInfo.ServiceKeys.{service_info-family}

pub data Entry : Type 0 where
  chain : ChainEntry → Entry
  token : TokenEntry → Entry
  market : MarketEntry → Entry
  endpoint : EndpointEntry → Entry
  service : ServiceEntry → Entry

unfoldable pub info : Entry → CacheInfo
info (chain e) = chain_info e
info (token e) = token_info e
info (market e) = market_info e
info (endpoint e) = endpoint_info e
info (service e) = service_info e

-- Each kind of entry has a number of its own.
unfoldable pub kind : Entry → ℕ
kind (chain e) = chain_family e
kind (token e) = token_family e
kind (market e) = market_family e
kind (endpoint e) = endpoint_family e
kind (service e) = service_family e

info-kind : (e : Entry) → family_of (info e).key ≡ some (kind e)
unfolding info kind
info-kind (chain e) = chain_info-family e
info-kind (token e) = token_info-family e
info-kind (market e) = market_info-family e
info-kind (endpoint e) = endpoint_info-family e
info-kind (service e) = service_info-family e

content : Option ℕ → ℕ
content none = 0
content (some n) = n

-- Entries of the cache that have the same key are of the same kind, whatever their arguments are.
pub kind-key : (e f : Entry) → (info e).key ≡ (info f).key → kind e ≡ kind f
unfolding content
kind-key e f p = ap content (sym (info-kind e) ∙ ap family_of p ∙ info-kind f)
