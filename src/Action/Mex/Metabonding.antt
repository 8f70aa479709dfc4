-- ===== src/Action/Mex/Metabonding.antt =====
-- MetabondingActionRecognizerService.
use mx_api_service.Base.{
  ℕ, String, ◌<>◌, decimal, join, Option, none, some, List, [], ◌∷◌, map, Bool, true, false, ◌&&◌,
  ◌==◌, get_elem?, text_comparable, option_comparable,
}
use mx_api_service.Action.{Outcome, returned, ◌>>=◌, or_throw, mex}
use mx_api_service.Action.Service.{reading}
use mx_api_service.Action.Arguments.{
  Metadata, MetabondingWeek, Action, week_arguments, ActionRecognizer, Calls,
}

-- A week, with the numbers whose texts it holds.
pub record WeekStake : Type 0 where
  pub week : Option ℕ
  pub egld : ℕ
  pub lkmex : ℕ

-- A number in a template; `none` is NaN.
abbrev number_text : Option ℕ → String
number_text none = "NaN"
number_text (some n) = decimal n

unfoldable pub metabonding_week : WeekStake → MetabondingWeek
unfolding decimal
metabonding_week w = record {
  week = w.week;
  egld_staked = decimal w.egld;
  lkmex_staked = decimal w.lkmex;
}

module _ (c : Calls) where
  unfoldable pub read_week : List String → Outcome WeekStake
  read_week chunk = do
    egld ← or_throw (c.hex_to_big_int (get_elem? chunk 1))
    lkmex ← or_throw (c.hex_to_big_int (get_elem? chunk 2))
    returned (record { week = c.hex_to_number (get_elem? chunk 0); egld = egld; lkmex = lkmex })

  unfoldable pub read_weeks : List (List String) → Outcome (List WeekStake)
  unfolding read_week
  read_weeks [] = returned []
  read_weeks (chunk ∷ chunks) = do
    week ← read_week chunk
    weeks ← read_weeks chunks
    returned (week ∷ weeks)

  -- The numbers are printed and read back by `BigInt`, which gives them again.
  unfoldable pub week_text : WeekStake → String
  unfolding ◌<>◌ decimal
  week_text w =
      "week "
      <> number_text w.week
      <> ": EGLD "
      <> c.to_denominated_string w.egld none
      <> ", LKMEX "
      <> c.to_denominated_string w.lkmex none

  unfoldable pub get_claim_rewards_action : Metadata → Outcome (Option Action)
  unfolding read_weeks metabonding_week week_text ◌<>◌ join
  get_claim_rewards_action m = do
    weeks ← read_weeks (c.split_array_into_chunks m.function_args 4)
    returned (
        some (record {
          category = mex;
          name = "claimRewards";
          description = "Eligible stake for " <> join "; " (map week_text weeks);
          arguments =
              some (week_arguments (map metabonding_week weeks) m.function_name m.function_args);
        }))

  unfoldable pub is_claim : Metadata → Bool
  is_claim m =
      (some m.receiver == c.metabonding_contract_address)
      && (m.function_name == some "claimRewards")

  unfoldable pub recognize_metabonding : Metadata → Outcome (Option Action)
  unfolding is_claim get_claim_rewards_action
  recognize_metabonding m = elim (is_claim m) [
    | false ↦ returned none
    | true ↦ get_claim_rewards_action m
  ]

  unfoldable pub metabonding_recognizer : ActionRecognizer
  unfolding recognize_metabonding
  metabonding_recognizer = reading recognize_metabonding
