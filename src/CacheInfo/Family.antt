-- ===== src/CacheInfo/Family.antt =====
-- The families of keys, and the family that a text belongs to.
use Prim.Native.Char.{code}
use mx_api_service.Base.{
  ℕ, ◌+◌, Bool, true, false, ◌&&◌, ◌||◌, ◌≡◌, refl, sym, subst, nat_reflexive, ◌<>◌, drop, List, [],
  ◌∷◌, Option, none, some, String, nat_beq, leb, if◌then◌else◌, head_code,
}

pub data Family : Type 0 where
  -- one fixed key, and the keys that begin with a text
  exact prefix : String → Family
  -- the keys that begin with a text and end in one
  framed : String → String → Family
  -- the keys that begin with a digit
  digit : Family

unfoldable pub begins_with : String → String → Bool
begins_with String.[] t = true
begins_with (String.◌∷◌ c s) String.[] = false
begins_with (String.◌∷◌ c s) (String.◌∷◌ d t) =
    if nat_beq (code c) (code d) then begins_with s t else false

unfoldable pub equals : String → String → Bool
equals String.[] String.[] = true
equals String.[] (String.◌∷◌ d t) = false
equals (String.◌∷◌ c s) String.[] = false
equals (String.◌∷◌ c s) (String.◌∷◌ d t) = if nat_beq (code c) (code d) then equals s t else false

unfoldable pub ends_with : String → String → Bool
unfolding equals
ends_with suffix String.[] = equals suffix String.[]
ends_with suffix (String.◌∷◌ c s) = equals suffix (String.◌∷◌ c s) || ends_with suffix s

unfoldable pub is_in : Family → String → Bool
unfolding begins_with equals
is_in (exact k) t = equals k t
is_in (prefix k) t = begins_with k t
is_in (framed k suffix) t = begins_with k t && ends_with suffix t
is_in digit t = leb 48 (head_code t) && leb (head_code t) 57

unfoldable pub search_families : List Family → ℕ → String → Option ℕ
unfolding is_in
search_families [] n t = none
search_families (f ∷ fs) n t = elim (is_in f t) [
  | true ↦ some n
  | false ↦ search_families fs (n + 1) t
]

abbrev families : List Family
families =
    exact "about"
    ∷ exact "lastProcessedTimestamp"
    ∷ exact "tokenMarketCap"
    ∷ exact "nodes"
    ∷ exact "shardIds"
    ∷ exact "shardCount"
    ∷ exact "genesisTimestamp"
    ∷ exact "shards"
    ∷ exact "allEsdtTokens"
    ∷ exact "txpool"
    ∷ exact "applicationMostUsed"
    ∷ exact "identities"
    ∷ exact "providers"
    ∷ exact "providersWithStakeInformation"
    ∷ prefix "confirmedIdentity:"
    ∷ prefix "confirmedProvider:"
    ∷ prefix "providerOwner:"
    ∷ prefix "txCount:"
    ∷ exact "identityProfilesKeybases"
    ∷ exact "currentPrice"
    ∷ exact "economics"
    ∷ digit
    ∷ prefix "nodeOwner:"
    ∷ prefix "shardNonce:"
    ∷ prefix "completedShardNonce:"
    ∷ prefix "batchShardNonce:"
    ∷ prefix "tokenHourChart:"
    ∷ prefix "tokenDailyChart:"
    ∷ exact "tokenAssets"
    ∷ exact "collectionRanks"
    ∷ exact "accountLabels"
    ∷ exact "mex:settings"
    ∷ exact "mex:contracts"
    ∷ exact "verifiedAccounts"
    ∷ prefix "token:transfer:properties:v2:"
    ∷ prefix "esdt:v2:"
    ∷ prefix "collection:"
    ∷ prefix "esdt:roles:"
    ∷ prefix "esdt:assets:"
    ∷ prefix "historical-price:"
    ∷ prefix "nftMetadata:"
    ∷ prefix "nftMedia:"
    ∷ prefix "nftMediaProperties:"
    ∷ prefix "tokenLockedAccounts:"
    ∷ prefix "tokenSupply:"
    ∷ prefix "tokenTransactionsv2:"
    ∷ prefix "tokenTransfersv2:"
    ∷ prefix "tokenAccountsv2:"
    ∷ prefix "tokenAccountsExtra:"
    ∷ prefix "transaction:pendingresults:"
    ∷ prefix "stakeTopup:"
    ∷ prefix "collectionType:"
    ∷ exact "mexEconomics"
    ∷ exact "mexPairs"
    ∷ exact "mexPairsWithFarms"
    ∷ exact "mexTokens"
    ∷ exact "mexTokenTypes"
    ∷ exact "mexFarms"
    ∷ exact "mexStakingProxies"
    ∷ exact "mexTokensIndexed"
    ∷ exact "mexPrices"
    ∷ prefix "generateThumbnails:"
    ∷ prefix "collectionNonScOwner:"
    ∷ exact "delegationLegacy"
    ∷ exact "extendedAttributesActivationNonce2"
    ∷ exact "initEpoch"
    ∷ exact "lockedTokenIDs"
    ∷ exact "currentEpoch"
    ∷ prefix "transactionbatch:"
    ∷ prefix "pendingtransaction:"
    ∷ framed "account:" ":username"
    ∷ prefix "accountDeployedAt:"
    ∷ prefix "accountDeployTxHash:"
    ∷ prefix "accountIsVerified:"
    ∷ prefix "accounts:"
    ∷ prefix "blocks:count:"
    ∷ prefix "blocks:latest:"
    ∷ exact "delegation"
    ∷ exact "constants"
    ∷ prefix "nftOwnerCount:"
    ∷ prefix "nftTags:"
    ∷ exact "nftTagsCount"
    ∷ exact "nodeVersions"
    ∷ exact "delegationProviders"
    ∷ prefix "delegationProvider:"
    ∷ exact "stake"
    ∷ exact "waiting-list"
    ∷ prefix "pendingUploadAsset:"
    ∷ prefix "pendingMediaGet:"
    ∷ prefix "pendingMetadataGet:"
    ∷ prefix "pendingGenerateThumbnail:"
    ∷ prefix "username:"
    ∷ prefix "contractUpgrades:"
    ∷ prefix "api:settings:"
    ∷ exact "data-api:tokens"
    ∷ prefix "addressEsdtTrieTimeout:"
    ∷ prefix "githubKeysValidated:"
    ∷ prefix "githubProfileValidated:"
    ∷ prefix "data-api:price:"
    ∷ prefix "tpsCurrentNonce:"
    ∷ prefix "tpsTransactions:"
    ∷ prefix "tpsHistory:"
    ∷ prefix "tpsMax:"
    ∷ prefix "transactionCount:"
    ∷ exact "nodesAuctions"
    ∷ exact "validatorAuctions"
    ∷ prefix "applications:"
    ∷ prefix "deepHistoryBlock:"
    ∷ prefix "ppuMetadata:shard:"
    ∷ exact "account:count"
    ∷ []

unfoldable pub family_of : String → Option ℕ
unfolding search_families
family_of = search_families families 0

equals_reflexive : (s : String) → equals s s ≡ true
unfolding equals
equals_reflexive String.[] = refl
equals_reflexive (String.◌∷◌ c s) = rw (nat_reflexive (code c)) (equals_reflexive s)

pub ends_with_itself : (s : String) → ends_with s s ≡ true
unfolding ends_with
ends_with_itself String.[] = refl
ends_with_itself (String.◌∷◌ c s) = rw (nat_reflexive (code c), equals_reflexive s) refl

or_true : (b : Bool) → (b || true) ≡ true
or_true true = refl
or_true false = refl

pub ends_with-append :
    (p s suffix : String) → ends_with suffix s ≡ true → ends_with suffix (p <> s) ≡ true
unfolding ends_with ◌<>◌
ends_with-append String.[] s suffix h = h
ends_with-append (String.◌∷◌ c p) s suffix h = rw (ends_with-append p s suffix h) (or_true _)

pub search_first :
    (f : Family) (fs : List Family) (n : ℕ) (t : String)
    → is_in f t ≡ true
    → search_families (f ∷ fs) n t ≡ some n
unfolding search_families
search_first f fs n t h =
    subst
      (λ b.
        (elim b as (λ _. Option ℕ) [ true ↦ some n | false ↦ search_families fs (n + 1) t ])
        ≡ some n)
      (sym h) refl

pub family_of-framed :
    (address : String) → family_of ("account:" <> (address <> ":username")) ≡ some 70
unfolding family_of ◌<>◌
family_of-framed address =
    search_first (framed "account:" ":username") (drop 71 families) 70
      ("account:" <> (address <> ":username"))
      (ends_with-append "account:" (address <> ":username") ":username"
        (ends_with-append address ":username" ":username" (ends_with_itself ":username")))
