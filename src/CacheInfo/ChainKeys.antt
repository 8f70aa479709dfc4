-- ===== src/CacheInfo/ChainKeys.antt =====
-- The keys of the entries of Chain are in the families that Family lists (src/utils/cache.info.ts).
use mx_api_service.Base.Decimal
use mx_api_service.Base.{
  ◌≡◌, refl, some, String, ◌<>◌, Digit, digit_text, decimal-HasDigit, HasDigit,
}
use mx_api_service.CacheInfo.Chain
use mx_api_service.CacheInfo.Chain.{ChainEntry, chain_info, chain_family}
use mx_api_service.CacheInfo.Family.{family_of}

digit_text-family : (d : Digit) (r t : String) → family_of ((digit_text d <> r) <> t) ≡ some 21
unfolding family_of ◌<>◌ digit_text
digit_text-family Decimal.d0 r t = refl
digit_text-family Decimal.d1 r t = refl
digit_text-family Decimal.d2 r t = refl
digit_text-family Decimal.d3 r t = refl
digit_text-family Decimal.d4 r t = refl
digit_text-family Decimal.d5 r t = refl
digit_text-family Decimal.d6 r t = refl
digit_text-family Decimal.d7 r t = refl
digit_text-family Decimal.d8 r t = refl
digit_text-family Decimal.d9 r t = refl

-- A key that begins with a digit.
digit-family : {s : String} → HasDigit s → (t : String) → family_of (s <> t) ≡ some 21
digit-family (d, r, p) t = rw (p) (digit_text-family d r t)

pub chain_info-family : (e : ChainEntry) → family_of (chain_info e).key ≡ some (chain_family e)
unfolding chain_info chain_family family_of ◌<>◌
chain_info-family Chain.about = refl
chain_info-family Chain.last_processed_timestamp = refl
chain_info-family Chain.token_market_cap = refl
chain_info-family Chain.nodes = refl
chain_info-family Chain.shard_ids = refl
chain_info-family Chain.shard_count = refl
chain_info-family Chain.genesis_timestamp = refl
chain_info-family Chain.active_shards = refl
chain_info-family Chain.all_esdt_tokens = refl
chain_info-family Chain.transaction_pool = refl
chain_info-family Chain.application_most_used = refl
chain_info-family Chain.identities = refl
chain_info-family Chain.providers = refl
chain_info-family Chain.providers_with_stake_information = refl
chain_info-family (Chain.confirmed_identity bls) = refl
chain_info-family (Chain.confirmed_provider address) = refl
chain_info-family (Chain.provider_owner address) = refl
chain_info-family (Chain.tx_count address) = refl
chain_info-family Chain.identity_profiles_keybases = refl
chain_info-family Chain.current_price = refl
chain_info-family Chain.economics = refl
chain_info-family (Chain.shard_and_epoch_blses shard epoch) =
    digit-family (decimal-HasDigit shard) _
chain_info-family (Chain.owner_by_epoch_and_bls epoch bls) = refl
chain_info-family (Chain.transaction_processor_shard_nonce shard) = refl
chain_info-family (Chain.transaction_completed_shard_nonce shard) = refl
chain_info-family (Chain.transaction_batch_shard_nonce shard) = refl
