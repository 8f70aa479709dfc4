-- ===== src/Staking/Counts.antt =====
-- How the counts of validators of Staking/Validators add up.
use mx_api_service.Base.{
  ℕ, ◌+◌, ◌<◌, ◌≡◌, refl, ap, ap₂, inl, inr, arith, Option, none, some, List, [], ◌∷◌, Bool, true,
  false, bool_comparable, if◌then◌else◌, Bool-cases, length, select, ltb,
}
use mx_api_service.Nodes.{Node}
use mx_api_service.Nodes.Filter.{differs, search_fails, node_matches}
use mx_api_service.Nodes.Listing.{arrange, get_filtered_nodes, get_node_count}
use mx_api_service.Staking.Validators.{
  GlobalStake, Network, qualified_filter, is_in_use, totals_after_staking_v4,
  get_total_and_inactive_validators, validators, with_totals, get_validators, is_before, stake_of,
  stake_after, get_global_stake_raw, count,
}
use mx_api_service.Staking.Minimum.{is_unset}

abbrev unit_of : Bool → ℕ
unit_of b = if b then 1 else 0

length-select-step :
    {A : Type 0} (p : A → Bool) (x : A) (xs : List A)
    → length (select p (x ∷ xs)) ≡ unit_of (p x) + length (select p xs)
length-select-step p x xs = elim (Bool-cases (p x)) [
  | inl e ↦ rw (e) (omega arith)
  | inr e ↦ rw (e) (omega arith)
]

-- Two tests that no element passes both of, against the test that one of them is passed.
length-select-plus :
    {A : Type 0} (p q r : A → Bool) (xs : List A)
    → ((x : A) → unit_of (p x) + unit_of (q x) ≡ unit_of (r x))
    → length (select p xs) + length (select q xs) ≡ length (select r xs)
length-select-plus p q r [] h = omega arith
length-select-plus p q r (x ∷ xs) h =
    let ih = length-select-plus p q r xs h in
    let a = length-select-step p x xs in
    let b = length-select-step q x xs in
    let c = length-select-step r x xs in let d = h x in omega arith

-- The node is in the auction, and whether it is qualified is known.
abbrev pub is_judged : Node → Bool
is_judged n = elim n.auctioned [
  | none ↦ false
  | some a ↦ elim n.auction_qualified [ none ↦ false | some q ↦ a ]
]

abbrev judged : Option Bool → Option Bool → Bool
judged auctioned qualified = elim auctioned [
  | none ↦ false
  | some a ↦ elim qualified [ none ↦ false | some q ↦ a ]
]

abbrev passes : Bool → Option Bool → Option Bool → Bool
passes b auctioned qualified =
    if differs (some b) qualified
    then false
    else if differs (some true) auctioned
    then false
    else true

passes-plus :
    (a q : Option Bool)
    → unit_of (passes true a q) + unit_of (passes false a q) ≡ unit_of (judged a q)
passes-plus none none = omega arith
passes-plus none (some true) = omega arith
passes-plus none (some false) = omega arith
passes-plus (some true) none = omega arith
passes-plus (some true) (some true) = omega arith
passes-plus (some true) (some false) = omega arith
passes-plus (some false) none = omega arith
passes-plus (some false) (some true) = omega arith
passes-plus (some false) (some false) = omega arith

module _ (w : Network) where
  count-qualified_filter :
      (b : Bool)
      → count w (qualified_filter b)
        ≡ length (select (λ n. passes b n.auctioned n.auction_qualified) w.all_nodes)
  unfolding get_node_count get_filtered_nodes arrange node_matches search_fails
  count-qualified_filter b = refl

  auctioned-plus :
      count w (qualified_filter true) + count w (qualified_filter false)
      ≡ length (select is_judged w.all_nodes)
  auctioned-plus =
      rw (count-qualified_filter true, count-qualified_filter false)
        (length-select-plus (λ n. passes true n.auctioned n.auction_qualified)
          (λ n. passes false n.auctioned n.auction_qualified) is_judged w.all_nodes
          (λ n. passes-plus n.auctioned n.auction_qualified))

  -- The nodes that count as staked: validators in use, and nodes of the auction.
  abbrev pub staked_nodes : ℕ
  staked_nodes = length (select is_in_use (validators w)) + length (select is_judged w.all_nodes)

  module _ (first : ℕ) (enabled : w.is_staking_v4_enabled ≡ true)
      (known : w.staking_v4_activation_epoch ≡ some first) (after : first < w.current_epoch) where
    totals_after :
        get_total_and_inactive_validators w (validators w)
        ≡ some (totals_after_staking_v4 w (validators w))
    unfolding get_total_and_inactive_validators
    totals_after =
        let e : ltb w.current_epoch first ≡ false = ground arith in
        let f : ltb w.current_epoch (first + 1) ≡ false = ground arith in
        rw (get_total_and_inactive_validators, enabled, known, e, f) refl

    before_false : is_before w ≡ some false
    before_false =
        let e : ltb w.current_epoch first ≡ false = ground arith in rw (enabled, known, e) refl

    validators_after :
        is_unset w.staking_contract_address ≡ false
        → get_validators w ≡ with_totals w (some (totals_after_staking_v4 w (validators w)))
    unfolding get_validators
    validators_after contract = rw (get_validators, contract, totals_after) refl

    -- From the epoch after the first one on, the count of all staked nodes that the global stake
    -- shows is that of the validators that are eligible or waiting and of the nodes of the auction
    -- that are known to be qualified or not, whatever their type.
    pub get_global_stake_raw-staked_nodes :
        is_unset w.staking_contract_address ≡ false
        → (g : GlobalStake) × (get_global_stake_raw w ≡ some g)
          × (g.all_staked_nodes ≡ some staked_nodes)
    unfolding get_global_stake_raw get_validators stake_after totals_after_staking_v4
    get_global_stake_raw-staked_nodes contract = (
      _,
      ap₂ (stake_of w) (validators_after contract) before_false,
      let e = auctioned-plus in ap some (omega arith),
    )
