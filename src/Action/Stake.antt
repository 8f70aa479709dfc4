-- ===== src/Action/Stake.antt =====
-- StakeActionRecognizerService: what is sent to a staking provider.
pub mod Laws
use mx_api_service.Base.{
  ℕ, String, ◌<>◌, decimal, units, Option, none, some, List, [], ◌∷◌, Bool, true, false, ◌||◌, ◌==◌,
  if◌then◌else◌, get_elem?, text_comparable, option_comparable, nat_comparable,
}
use mx_api_service.Action.{Outcome, returned, ◌>>=◌, or_throw, TransactionAction, stake}
use mx_api_service.Action.Service.{reading}
use mx_api_service.Action.ScCalls.{name_or_empty}
use mx_api_service.Action.Arguments.{
  Metadata, ProviderDetails, stake_arguments, Action, ActionRecognizer, Calls,
}

pub record Provider : Type 0 where
  pub provider : String
  pub identity : Option String

pub record Identity : Type 0 where
  pub identity : Option String
  pub name : Option String
  pub avatar : Option String

-- The first identity of the provider.
unfoldable pub matching_identity : Provider → List Identity → Option Identity
matching_identity p [] = none
matching_identity p (i ∷ is) = if i.identity == p.identity then some i else matching_identity p is

-- A name of 192 units is not used.
abbrev pub name_or : String → Option String → String
name_or d none = d
name_or d (some name) = if (name == "") || (units name == 192) then d else name

abbrev pub text_or : String → Option String → String
text_or d none = d
text_or d (some s) = s

unfoldable pub provider_details : List Identity → Provider → ProviderDetails
unfolding matching_identity units
provider_details identities p =
    let fallback = text_or p.provider p.identity in
    elim (matching_identity p identities) [
      | none ↦ record { provider_name = fallback; provider_avatar = "" }
      | some i ↦ record {
        provider_name = name_or fallback i.name;
        provider_avatar = text_or "" i.avatar;
      }
    ]

-- An object by address: what is set last is found first.
abbrev pub Details : Type 0
Details = List (String × ProviderDetails)

unfoldable pub details_of : String → Details → Option ProviderDetails
details_of a [] = none
details_of a ((b, d) ∷ ds) = if b == a then some d else details_of a ds

unfoldable pub add_providers : List Identity → List Provider → Details → Details
unfolding provider_details
add_providers identities [] ds = ds
add_providers identities (p ∷ ps) ds =
    add_providers identities ps ((p.provider, provider_details identities p) ∷ ds)

-- getProviders, with what the local cache holds: the answer is also what it holds afterwards.
unfoldable pub get_providers : Option Details → List Provider → List Identity → Details
unfolding add_providers
get_providers (some ds) providers identities = ds
get_providers none providers identities = add_providers identities providers []

unfoldable pub get_action : Metadata → ProviderDetails → String → Action
unfolding ◌<>◌
get_action m d action = record {
  category = stake;
  name = name_or_empty m.function_name;
  description = action <> " from staking provider " <> d.provider_name;
  arguments = some (stake_arguments none d);
}

abbrev pub some_action : Outcome Action → Outcome (Option Action)
some_action o = o >>= (λ a. returned (some a))

module _ (c : Calls) where
  unfoldable pub get_delegate_action : Metadata → ProviderDetails → Action
  unfolding ◌<>◌ decimal
  get_delegate_action m d = record {
    category = stake;
    name = "delegate";
    description =
        "Delegate "
        <> c.to_denominated_string m.value (some 18)
        <> " EGLD to staking provider "
        <> d.provider_name;
    arguments = some (stake_arguments (some (decimal m.value)) d);
  }

  unfoldable pub un_delegate : ProviderDetails → ℕ → Outcome Action
  unfolding ◌<>◌ decimal
  un_delegate d value = returned (record {
    category = stake;
    name = "unDelegate";
    description =
        "Undelegate "
        <> c.to_denominated_string value (some 18)
        <> " EGLD from staking provider "
        <> d.provider_name;
    arguments = some (stake_arguments (some (decimal value)) d);
  })

  unfoldable pub get_un_delegate_action : Metadata → ProviderDetails → Outcome Action
  unfolding un_delegate
  get_un_delegate_action m d =
      or_throw (c.hex_to_big_int (get_elem? m.function_args 0)) >>= un_delegate d

  -- The switch on the name of the function.
  unfoldable pub provider_action : Metadata → ProviderDetails → String → Outcome (Option Action)
  unfolding get_delegate_action get_un_delegate_action get_action
  provider_action m d f =
      if (f == "delegate") || (f == "stake")
      then returned (some (get_delegate_action m d))
      else if f == "unDelegate"
      then some_action (get_un_delegate_action m d)
      else if f == "claimRewards"
      then returned (some (get_action m d "Claim rewards"))
      else if f == "reDelegateRewards"
      then returned (some (get_action m d "Redelegate rewards"))
      else if f == "withdraw"
      then returned (some (get_action m d "Withdraw"))
      else returned none

  unfoldable pub recognize_stake : Details → Metadata → Outcome (Option Action)
  unfolding details_of provider_action
  recognize_stake ds m = elim (details_of m.receiver ds) [
    | none ↦ returned none
    | some d ↦ elim m.function_name [ none ↦ returned none | some f ↦ provider_action m d f ]
  ]

  unfoldable pub stake_recognizer : Details → ActionRecognizer
  unfolding recognize_stake
  stake_recognizer ds = reading (recognize_stake ds)
