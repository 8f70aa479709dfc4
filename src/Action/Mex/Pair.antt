-- ===== src/Action/Mex/Pair.antt =====
-- MexPairActionRecognizerService. A swap pushes what it expects to get onto the transfers of the
-- metadata, which the recognizers after it read too.
use mx_api_service.Base.{
  ℕ, zero, suc, ◌+◌, ◌*◌, ◌/◌, String, ◌<>◌, join, Option, none, some, List, [], ◌∷◌, ◌++◌, map,
  Bool, true, false, ◌||◌, ◌==◌, if◌then◌else◌, length, get_elem?, text_comparable,
  option_comparable,
}
use mx_api_service.Action.{Outcome, returned, ◌>>=◌, or_throw, mex}
use mx_api_service.Action.Arguments.{
  TokenTransferProperties, Transfer, Metadata, Action, ActionRecognizer, Calls,
}
use mx_api_service.Action.Esdt.{get_multi_transfer_action, get_multi_transfer_action_with_ticker}
use mx_api_service.Action.Mex.Settings.{MexSettings, includes, get_transfers}

pub record Swap : Type 0 where
  pub properties : TokenTransferProperties
  pub value : ℕ
  pub denominated_value : String

-- `metadata.transfers?.push(...)`
abbrev pub push_onto : Option (List Transfer) → Transfer → Option (List Transfer)
push_onto none t = none
push_onto (some ts) t = some (ts ++ t ∷ [])

unfoldable pub push_expected : Metadata → TokenTransferProperties → ℕ → Metadata
push_expected m p value = record m {
  transfers = push_onto m.transfers (record { properties = some p; value = value });
}

-- The first transfer that getTransfers gives, if it has properties.
abbrev pub first_sent : Option (List Transfer) → Option (TokenTransferProperties × ℕ)
first_sent none = none
first_sent (some []) = none
first_sent (some (t ∷ ts)) = elim t.properties [ none ↦ none | some p ↦ some (p, t.value) ]

abbrev pub all_but_last : List Swap → List Swap
all_but_last [] = []
all_but_last (s ∷ []) = []
all_but_last (s ∷ t ∷ ts) = s ∷ all_but_last (t ∷ ts)

abbrev pub last_or : Swap → List Swap → Swap
last_or s [] = s
last_or s (t ∷ ts) = last_or t ts

-- The number of rounds of a loop from 0 that goes on below a quarter of the length.
unfoldable pub number_of_swaps : List String → ℕ
number_of_swaps args = (length args + 3) / 4

abbrev pub swap_ticker : Swap → String
swap_ticker s = let p = s.properties in p.ticker

unfoldable pub multi_swap_description : Swap → List Swap → String
unfolding ◌<>◌ join
multi_swap_description first rest =
    let last = last_or first rest in
    "Swap "
    <> first.denominated_value
    <> " "
    <> swap_ticker first
    <> " for a minimum of "
    <> last.denominated_value
    <> " "
    <> swap_ticker last
    <> " with intermediate pair(s) "
    <> join ", " (map swap_ticker (all_but_last rest))

abbrev pub is_one_of : Option String → String → String → Bool
is_one_of name f g = (name == some f) || (name == some g)

module _ (c : Calls) where
  abbrev pub swap_of : TokenTransferProperties → ℕ → Swap
  swap_of p value = record {
    properties = p;
    value = value;
    denominated_value = c.to_denominated_string value p.decimals;
  }

  unfoldable pub swap_description :
      Option String → TokenTransferProperties → ℕ → TokenTransferProperties → ℕ → String
  unfolding ◌<>◌
  swap_description name p value q expected =
      let sent = c.to_denominated_string value p.decimals in
      let received = c.to_denominated_string expected q.decimals in
      if name == some "swapTokensFixedOutput"
      then "Swap a maximum of " <> sent <> " " <> p.ticker <> " for " <> received <> " " <> q.ticker
      else "Swap " <> sent <> " " <> p.ticker <> " for a minimum of " <> received <> " " <> q.ticker

  -- What getSwapAction does with the properties of the first transfer.
  unfoldable pub swap_from :
      TokenTransferProperties → ℕ → Metadata → Outcome (Option Action × Metadata)
  unfolding swap_description push_expected get_multi_transfer_action
  swap_from p value m = do
    identifier ← or_throw (c.hex_to_string (get_elem? m.function_args 0))
    expected ← or_throw (c.hex_to_big_int (get_elem? m.function_args 1))
    properties ← c.token_properties identifier
    elim properties [
      | none ↦ returned (none, m)
      | some q ↦
          let m' = push_expected m q expected in
          returned (
            get_multi_transfer_action c m' mex "swap"
                (swap_description m.function_name p value q expected),
            m',
          )
    ]

  unfoldable pub get_swap_action : ActionRecognizer
  unfolding get_transfers swap_from
  get_swap_action m = elim (first_sent (get_transfers m)) [
    | none ↦ returned (none, m)
    | some (p, value) ↦ swap_from p value m
  ]

  -- The loop over the swaps, from the swap `i` on. It gives the swaps read, or nothing for a token
  -- that is not found, and the metadata with what was pushed until then.
  unfoldable pub read_swaps : ℕ → ℕ → Metadata → Outcome (Option (List Swap) × Metadata)
  unfolding push_expected
  read_swaps zero i m = returned (some [], m)
  read_swaps (suc n) i m = do
    identifier ← or_throw (c.hex_to_string (get_elem? m.function_args (i * 4 + 2)))
    value ← or_throw (c.hex_to_big_int (get_elem? m.function_args (i * 4 + 3)))
    properties ← c.token_properties identifier
    elim properties [
      | none ↦ returned (none, m)
      | some q ↦ do
        (swaps, m') ← read_swaps n (i + 1) (push_expected m q value)
        elim swaps [
          | none ↦ returned (none, m')
          | some ss ↦ returned (some (swap_of q value ∷ ss), m')
        ]
    ]

  unfoldable pub get_multi_swap_action : ActionRecognizer
  unfolding get_transfers read_swaps number_of_swaps multi_swap_description
      get_multi_transfer_action
  get_multi_swap_action m = elim (first_sent (get_transfers m)) [
    | none ↦ returned (none, m)
    | some (p, value) ↦ do
      (swaps, m') ← read_swaps (number_of_swaps m.function_args) 0 m
      elim swaps [
        | none ↦ returned (none, m')
        | some rest ↦ returned (
          get_multi_transfer_action c m' mex "multiSwap"
              (multi_swap_description (swap_of p value) rest),
          m',
        )
      ]
  ]

  unfoldable pub get_add_liquidity_action : Metadata → Option Action
  unfolding get_multi_transfer_action_with_ticker
  get_add_liquidity_action m =
      get_multi_transfer_action_with_ticker c m mex "addLiquidity" "Added liquidity for"

  unfoldable pub get_remove_liquidity_action : Metadata → Option Action
  unfolding get_multi_transfer_action_with_ticker
  get_remove_liquidity_action m =
      get_multi_transfer_action_with_ticker c m mex "removeLiquidity" "Removed liquidity with"

  -- The switch on the name of the function.
  unfoldable pub pair_action_of : Option String → ActionRecognizer
  unfolding get_swap_action get_multi_swap_action get_add_liquidity_action
      get_remove_liquidity_action
  pair_action_of name m =
      if is_one_of name "swapTokensFixedInput" "swapTokensFixedOutput"
      then get_swap_action m
      else if is_one_of name "addLiquidity" "addLiquidityProxy"
      then returned (get_add_liquidity_action m, m)
      else if is_one_of name "removeLiquidity" "removeLiquidityProxy"
      then returned (get_remove_liquidity_action m, m)
      else if name == some "multiPairSwap"
      then get_multi_swap_action m
      else returned (none, m)

  unfoldable pub pair_action : ActionRecognizer
  unfolding pair_action_of
  pair_action m = pair_action_of m.function_name m

  unfoldable pub recognize_pair : MexSettings → ActionRecognizer
  unfolding pair_action
  recognize_pair s m =
      elim (includes s.pair_contracts m.receiver || (s.router_factory_contract == m.receiver)) [
        | false ↦ returned (none, m)
        | true ↦ pair_action m
      ]
