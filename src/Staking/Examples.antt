-- ===== src/Staking/Examples.antt =====
-- Tests of the stake service.
use mx_api_service.Base.{
  ℕ, ◌+◌, ◌≤◌, ◌<◌, ◌≡◌, refl, arith, ◌⊎◌, String, units, Option, none, some, List, [], ◌∷◌, map,
  take, length, Bool, true, false, text_comparable,
}
use mx_api_service.Nodes.{Node, new_node, validator}
use mx_api_service.Nodes.Auctions.{Auction}
use mx_api_service.Staking.Minimum.{
  qualified_top_ups, scan_auctions, scan_given, scan_nodes, get_minimum_auction_top_up, IsLeast,
  get_minimum_auction_top_up-IsLeast,
}
use mx_api_service.Staking.Nakamoto.{
  Identity, nothing, skip, pick, validators_of, count_identities, get_nakamoto_coefficient, sum,
  get_nakamoto_coefficient_least,
}
use mx_api_service.Staking.Validators.{GlobalStake, Network, get_global_stake_raw}
use mx_api_service.Staking.Counts.{staked_nodes, get_global_stake_raw-staked_nodes}
use mx_api_service.Staking.PerNode.{StakeTopup, get_all_stakes_for_address_nodes_raw}
use mx_api_service.Staking.Split.{IsSplit, get_all_stakes_for_address_nodes_raw-IsSplit}
use mx_api_service.Staking.Unstaked.{
  get_stake_for_address, unstaked_token, get_stake_for_address-listed,
}

abbrev auction : String → Bool → Auction
auction t q = record {
  qualified_top_up = t;
  nodes = some (record { bls_key = "k"; qualified = q } ∷ []);
}

-- Amounts are the lengths of texts here.
abbrev auctions : List Auction
auctions = auction "333" true ∷ auction "22" true ∷ auction "1" false ∷ []

least : get_minimum_auction_top_up units auctions ≡ some "22"
unfolding get_minimum_auction_top_up scan_auctions scan_given scan_nodes units
least = refl

get_minimum_auction_top_up-IsLeast_example :
    ((qualified_top_ups auctions ≡ []) × (get_minimum_auction_top_up units auctions ≡ none))
    ⊎ ((r : String) × (get_minimum_auction_top_up units auctions ≡ some r)
        × IsLeast units (qualified_top_ups auctions) r)
get_minimum_auction_top_up-IsLeast_example =
    get_minimum_auction_top_up-IsLeast units auctions (refl, (refl, tt))

abbrev identity : ℕ → Identity
identity v = record { validators = some v }

abbrev identities : List Identity
identities = identity 50 ∷ identity 30 ∷ identity 20 ∷ []

abbrev spread : List Identity
spread = identity 30 ∷ identity 25 ∷ identity 20 ∷ []

abbrev kept : List Identity → List Identity
kept is = is

abbrev a_third : ℕ → ℕ
a_third n = 33

-- Two identities are needed; the last one alone has no more than the threshold.
two_needed : get_nakamoto_coefficient kept a_third 100 spread ≡ 2
unfolding get_nakamoto_coefficient count_identities
two_needed = refl

get_nakamoto_coefficient_least_example :
    (sum (20 ∷ []) ≤ 33)
    × ((33
          < sum
              (take (get_nakamoto_coefficient kept a_third 100 spread) (map validators_of spread)))
        ⊎ (get_nakamoto_coefficient kept a_third 100 spread ≡ length (map validators_of spread)))
unfolding get_nakamoto_coefficient count_identities
get_nakamoto_coefficient_least_example =
    get_nakamoto_coefficient_least kept a_third 100 spread (20 ∷ [])
      ((omega arith, (omega arith, tt)), ((omega arith, tt), (tt, tt))) (skip (skip (pick nothing)))
      (omega arith)

abbrev validating : Node
validating = record new_node { node_type = some validator; status = some "eligible"; online = true }

abbrev judged : Bool → Node
judged q = record new_node {
  node_type = some validator;
  status = some "auction";
  auctioned = some true;
  auction_qualified = some q;
}

abbrev network : Network
network = record {
  lower = λ s. s;
  to_number = units;
  big = units;
  sorted = kept;
  third = a_third;
  staking_contract_address = some "erd1staking";
  is_staking_v4_enabled = true;
  staking_v4_activation_epoch = some 5;
  current_epoch = 7;
  all_nodes = validating ∷ judged true ∷ judged false ∷ judged false ∷ [];
  total_base_staked = "12345";
  total_top_up = "123";
  auctions = auctions;
  identities = identities;
}

four_staked : staked_nodes network ≡ 4
four_staked = refl

get_global_stake_raw-staked_nodes_example :
    (g : GlobalStake) × (get_global_stake_raw network ≡ some g)
    × (g.all_staked_nodes ≡ some (staked_nodes network))
get_global_stake_raw-staked_nodes_example =
    get_global_stake_raw-staked_nodes network 5 refl refl (omega arith) refl

abbrev same_text : String → String
same_text s = s

abbrev answer : String → Option (List String)
answer address = some ("123" ∷ "12345678" ∷ "12" ∷ "k1" ∷ "k2" ∷ [])

get_all_stakes_for_address_nodes_raw-IsSplit_example :
    (r : StakeTopup) × (get_all_stakes_for_address_nodes_raw units same_text
        (some "erd1auction")
        answer
        "erd1a"
      ≡ some r)
    × IsSplit "erd1a" 3 8 2 ("k1" ∷ "k2" ∷ []) r
unfolding units
get_all_stakes_for_address_nodes_raw-IsSplit_example =
    get_all_stakes_for_address_nodes_raw-IsSplit units same_text (some "erd1auction") answer "erd1a"
      "123" "12345678" "12" ("k1" ∷ "k2" ∷ []) refl refl refl (omega arith) (omega arith)

abbrev epochs_later : ℕ → ℕ
epochs_later e = e + 10

get_stake_for_address-listed_example :
    (get_stake_for_address units same_text epochs_later
        (some "erd1auction")
        (some ("7" ∷ []))
        (some ("12" ∷ "123" ∷ []))
      ≡ some (record {
        total_staked = "7";
        unstaked_tokens = some (unstaked_token units same_text epochs_later "12" "123" ∷ []);
      }))
    × (get_stake_for_address units same_text epochs_later
          (some "erd1auction")
          (some ("7" ∷ []))
          (some ("12" ∷ "123" ∷ "1" ∷ []))
        ≡ none)
get_stake_for_address-listed_example =
    get_stake_for_address-listed units same_text epochs_later (some "erd1auction") "7" []
      (("12", "123") ∷ []) "1" refl
