-- ===== src/Staking/Unstaked.antt =====
-- getStakeForAddress: what an address has staked, and the tokens it waits for.
use mx_api_service.Base.{
  ℕ, ◌≡◌, refl, ap, String, decimal, Option, none, some, List, [], ◌∷◌, ◌++◌, map, false, ◌==◌,
  if◌then◌else◌, nat_comparable, text_comparable,
}
use mx_api_service.Staking.Minimum.{is_unset}

pub record ProviderUnstakedTokens : Type 0 where
  pub amount : String
  pub expires : Option ℕ

pub record ProviderStake : Type 0 where
  pub total_staked : String
  pub unstaked_tokens : Option (List ProviderUnstakedTokens)

-- `number_of` reads bytes in base64 as a number, `ascii_of` as a text; `expires` is getExpires with
-- the configuration of the network.
module _ (number_of : String → ℕ) (ascii_of : String → String) (expires : ℕ → ℕ) where
  unfoldable pub unstaked_token : String → String → ProviderUnstakedTokens
  unfolding decimal
  unstaked_token amount epochs = record {
    amount = decimal (number_of amount);
    expires = let e = number_of epochs in if e == 0 then none else some (expires e);
  }

  -- The amounts and epochs in turn. An amount without its epochs throws.
  unfoldable pub read_tokens : List String → Option (List ProviderUnstakedTokens)
  unfolding unstaked_token
  read_tokens [] = some []
  read_tokens (amount ∷ []) = none
  read_tokens (amount ∷ epochs ∷ rest) = elim (read_tokens rest) [
    | none ↦ none
    | some ts ↦ some (unstaked_token amount epochs ∷ ts)
  ]

  abbrev pub read_total : Option (List String) → Option String
  read_total none = some "0"
  read_total (some []) = none
  read_total (some (s ∷ ss)) = some (ascii_of s)

  abbrev pub all_tokens :
      Option (List ProviderUnstakedTokens) → Option (Option (List ProviderUnstakedTokens))
  all_tokens none = none
  all_tokens (some ts) = some (some ts)

  abbrev pub read_unstaked : Option (List String) → Option (Option (List ProviderUnstakedTokens))
  read_unstaked none = some none
  read_unstaked (some tokens) = all_tokens (read_tokens tokens)

  abbrev pub provider_stake :
      Option String → Option (Option (List ProviderUnstakedTokens)) → Option ProviderStake
  provider_stake (some total) (some ts) =
      some (record { total_staked = total; unstaked_tokens = ts })
  provider_stake _ _ = none

  -- By the answers of the contract to the two queries, which can be undefined.
  unfoldable pub get_stake_for_address :
      Option String → Option (List String) → Option (List String) → Option ProviderStake
  unfolding read_tokens
  get_stake_for_address contract total tokens =
      if is_unset contract
      then some (record { total_staked = "0"; unstaked_tokens = none })
      else provider_stake (read_total total) (read_unstaked tokens)

  -- Pairs of an amount and epochs, as the contract lists them.
  abbrev pub listed : List (String × String) → List String
  listed [] = []
  listed ((amount, epochs) ∷ ps) = amount ∷ epochs ∷ listed ps

  read_tokens-listed :
      (ps : List (String × String))
      → read_tokens (listed ps) ≡ some (map (λ p. unstaked_token p.0 p.1) ps)
  unfolding read_tokens
  read_tokens-listed [] = refl
  read_tokens-listed ((amount, epochs) ∷ ps) = rw (read_tokens, read_tokens-listed ps) refl

  read_tokens_odd :
      (ps : List (String × String)) (amount : String)
      → read_tokens (listed ps ++ amount ∷ []) ≡ none
  unfolding read_tokens
  read_tokens_odd [] amount = refl
  read_tokens_odd ((a, epochs) ∷ ps) amount = rw (read_tokens, read_tokens_odd ps amount) refl

  -- Where the contract of the auction is set and the total is answered, an answer of amounts, each
  -- with its epochs, gives a token for each, in their order; an answer with one amount more throws.
  pub get_stake_for_address-listed :
      (contract : Option String) (total : String) (totals : List String)
      (ps : List (String × String)) (amount : String)
      → is_unset contract ≡ false
      → (get_stake_for_address contract (some (total ∷ totals)) (some (listed ps))
          ≡ some (record {
            total_staked = ascii_of total;
            unstaked_tokens = some (map (λ p. unstaked_token p.0 p.1) ps);
          }))
        × (get_stake_for_address contract (some (total ∷ totals)) (some (listed ps ++ amount ∷ []))
            ≡ none)
  unfolding get_stake_for_address
  get_stake_for_address-listed contract total totals ps amount h =
      let answer = λ (o : Option (List ProviderUnstakedTokens)).
        provider_stake (some (ascii_of total)) (all_tokens o) in
      (
        rw (get_stake_for_address, h) (ap answer (read_tokens-listed ps)),
        rw (get_stake_for_address, h) (ap answer (read_tokens_odd ps amount)),
      )
