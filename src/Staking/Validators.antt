-- ===== src/Staking/Validators.antt =====
-- getValidators and getGlobalStakeRaw: how many nodes validate, by the epoch and the settings.
use mx_api_service.Base.{
  ℕ, ◌+◌, String, decimal, Option, none, some, List, Bool, true, false, ◌&&◌, ◌||◌, ◌==◌, ltb,
  if◌then◌else◌, length, select, text_comparable, option_comparable,
}
use mx_api_service.Nodes.{Node, observer, validator, NodeFilter}
use mx_api_service.Nodes.Filter.{type_comparable}
use mx_api_service.Nodes.Listing.{get_node_count}
use mx_api_service.Nodes.Auctions.{Auction}
use mx_api_service.Staking.Minimum.{is_unset, get_minimum_auction_top_up, get_minimum_auction_stake}
use mx_api_service.Staking.Nakamoto.{Identity, get_nakamoto_coefficient}

pub record ValidatorInfoResult : Type 0 where
  pub total_validators : ℕ
  pub active_validators : ℕ
  pub inactive_validators : ℕ

pub record GlobalStake : Type 0 where
  pub total_validators : ℕ
  pub active_validators : ℕ
  pub inactive_validators : Option ℕ
  pub total_observers : ℕ
  pub queue_size : Option ℕ
  pub total_staked : String
  pub minimum_auction_qualified_top_up : Option String
  pub minimum_auction_qualified_stake : Option String
  pub auction_validators : Option ℕ
  pub nakamoto_coefficient : Option ℕ
  pub danger_zone_validators : Option ℕ
  pub eligible_validators : Option ℕ
  pub waiting_validators : Option ℕ
  pub qualified_auction_validators : Option ℕ
  pub all_staked_nodes : Option ℕ

-- `new NodeFilter({})`
abbrev pub new_filter : NodeFilter
new_filter = record {
  search = none;
  online = none;
  node_type = none;
  status = none;
  shard = none;
  issues = none;
  identity = none;
  provider = none;
  owner = none;
  auctioned = none;
  full_history = none;
  sort = none;
  order = none;
  keys = none;
  is_qualified = none;
  is_auction_danger_zone = none;
  is_auctioned = none;
}

abbrev pub qualified_filter : Bool → NodeFilter
qualified_filter qualified = record new_filter {
  is_auctioned = some true;
  is_qualified = some qualified;
}

-- What the services answer. The first epoch is missing where the configuration lacks it, which
-- throws. `big` is BigInt of a text of digits.
pub record Network : Type 0 where
  pub lower : String → String
  pub to_number : String → ℕ
  pub big : String → ℕ
  pub sorted : List Identity → List Identity
  pub third : ℕ → ℕ
  pub staking_contract_address : Option String
  pub is_staking_v4_enabled : Bool
  pub staking_v4_activation_epoch : Option ℕ
  pub current_epoch : ℕ
  pub all_nodes : List Node
  pub total_base_staked : String
  pub total_top_up : String
  pub auctions : List Auction
  pub identities : List Identity

abbrev pub status_or_unknown : Option String → String
status_or_unknown none = "unknown"
status_or_unknown (some s) = s

-- The status is eligible or waiting.
abbrev pub is_in_use : Node → Bool
is_in_use n =
    (status_or_unknown n.status == "eligible") || (status_or_unknown n.status == "waiting")

-- The two counts of getTotalAndInactiveValidators.
pub record Totals : Type 0 where
  pub total : ℕ
  pub inactive : ℕ

module _ (w : Network) where
  abbrev pub count : NodeFilter → ℕ
  count q = get_node_count w.lower w.to_number q w.all_nodes

  unfoldable pub totals_before_staking_v4 : List Node → Totals
  totals_before_staking_v4 ns = record {
    total = length (select is_in_use ns);
    inactive = length (select (λ n. n.status == some "queued") ns);
  }

  unfoldable pub totals_during_staking_v4 : List Node → Totals
  unfolding get_node_count
  totals_during_staking_v4 ns = record {
    total = length (select is_in_use ns);
    inactive = count (record new_filter { is_auctioned = some true });
  }

  unfoldable pub totals_after_staking_v4 : List Node → Totals
  unfolding get_node_count
  totals_after_staking_v4 ns = record {
    total = length (select is_in_use ns) + count (qualified_filter true);
    inactive = count (qualified_filter false);
  }

  -- The choice by the epoch, once the first one is known.
  abbrev pub totals_at : ℕ → List Node → Totals
  totals_at first ns =
      if ltb w.current_epoch first
      then totals_before_staking_v4 ns
      else if ltb w.current_epoch (first + 1)
      then totals_during_staking_v4 ns
      else totals_after_staking_v4 ns

  unfoldable pub get_total_and_inactive_validators : List Node → Option Totals
  unfolding totals_before_staking_v4 totals_during_staking_v4 totals_after_staking_v4
  get_total_and_inactive_validators ns =
      if w.is_staking_v4_enabled
      then elim w.staking_v4_activation_epoch [
        | none ↦ none
        | some first ↦ some (totals_at first ns)
      ]
      else some (totals_before_staking_v4 ns)

  abbrev pub validators : List Node
  validators = select (λ n. n.node_type == some validator) w.all_nodes

  abbrev pub is_active : Node → Bool
  is_active n = is_in_use n && n.online

  abbrev pub with_totals : Option Totals → Option ValidatorInfoResult
  with_totals none = none
  with_totals (some t) = some (record {
    total_validators = t.total;
    active_validators = length (select is_active validators);
    inactive_validators = t.inactive;
  })

  unfoldable pub get_validators : Option ValidatorInfoResult
  unfolding get_total_and_inactive_validators
  get_validators =
      if is_unset w.staking_contract_address
      then some (record { total_validators = 0; active_validators = 0; inactive_validators = 0 })
      else with_totals (get_total_and_inactive_validators validators)

  -- `!isStakingV4Enabled() || currentEpoch < getStakingV4ActivationEpoch()`
  abbrev pub is_before : Option Bool
  is_before =
      if w.is_staking_v4_enabled
      then elim w.staking_v4_activation_epoch [
        | none ↦ none
        | some first ↦ some (ltb w.current_epoch first)
      ]
      else some true

  abbrev pub total_observers : ℕ
  total_observers = count (record new_filter { node_type = some observer })

  unfoldable pub stake_before : ValidatorInfoResult → GlobalStake
  unfolding decimal get_node_count
  stake_before v = record {
    total_validators = v.total_validators;
    active_validators = v.active_validators;
    inactive_validators = none;
    total_observers = total_observers;
    queue_size = some (count (record new_filter { status = some "queued" }));
    total_staked = decimal (w.big w.total_base_staked + w.big w.total_top_up);
    minimum_auction_qualified_top_up = none;
    minimum_auction_qualified_stake = none;
    auction_validators = none;
    nakamoto_coefficient = none;
    danger_zone_validators = none;
    eligible_validators = none;
    waiting_validators = none;
    qualified_auction_validators = none;
    all_staked_nodes = none;
  }

  unfoldable pub stake_after : ValidatorInfoResult → GlobalStake
  unfolding decimal get_node_count get_minimum_auction_top_up get_minimum_auction_stake
      get_nakamoto_coefficient
  stake_after v = record {
    total_validators = v.total_validators;
    active_validators = v.active_validators;
    inactive_validators = some v.inactive_validators;
    total_observers = total_observers;
    queue_size = none;
    total_staked = decimal (w.big w.total_base_staked + w.big w.total_top_up);
    minimum_auction_qualified_top_up = get_minimum_auction_top_up w.big w.auctions;
    minimum_auction_qualified_stake = some (get_minimum_auction_stake w.big w.auctions);
    auction_validators = some (count (record new_filter { auctioned = some true }));
    nakamoto_coefficient =
        some (get_nakamoto_coefficient w.sorted w.third v.total_validators w.identities);
    danger_zone_validators = some (
        count (record new_filter { is_auction_danger_zone = some true; is_qualified = some true }));
    eligible_validators = some (count (record new_filter { status = some "eligible" }));
    waiting_validators = some (count (record new_filter { status = some "waiting" }));
    qualified_auction_validators = some (count (record new_filter { is_qualified = some true }));
    all_staked_nodes = some (v.total_validators + v.inactive_validators);
  }

  abbrev pub stake_of : Option ValidatorInfoResult → Option Bool → Option GlobalStake
  stake_of none before = none
  stake_of (some v) none = none
  stake_of (some v) (some true) = some (stake_before v)
  stake_of (some v) (some false) = some (stake_after v)

  unfoldable pub get_global_stake_raw : Option GlobalStake
  unfolding get_validators stake_before stake_after
  get_global_stake_raw = stake_of get_validators is_before
