-- ===== src/Tokens.antt =====
-- src/endpoints/tokens/token.service.ts: the list of the tokens, its filter and its pages.
pub mod Counts
mod Examples
use mx_api_service.Base.{
  ℕ, String, ◌<>◌, split, Option, none, some, List, [], ◌∷◌, map, Bool, true, false, not, ◌||◌,
  ◌==◌, if◌then◌else◌, exists, select, take, drop, length, text_comparable, option_comparable,
}
use mx_api_service.CacheInfo.{QueryPagination}
use mx_api_service.Nodes.{SortOrder, asc, desc}
use mx_api_service.Nodes.Filter.{includes}
use mx_api_service.Action.Mex.Assets.{first_part}

pub data TokenType : Type 0 where
  fungible_esdt non_fungible_esdt semi_fungible_esdt meta_esdt : TokenType

abbrev pub type_text : TokenType → String
type_text fungible_esdt = "FungibleESDT"
type_text non_fungible_esdt = "NonFungibleESDT"
type_text semi_fungible_esdt = "SemiFungibleESDT"
type_text meta_esdt = "MetaESDT"

-- The fields of a token that the list reads; `V` is the type of prices and counts.
pub record Token (V : Type 0) : Type 0 where
  pub token_type : TokenType
  pub sub_type : String
  pub identifier : String
  pub name : String
  pub ticker : String
  pub has_assets : Bool
  pub price_source : Option String
  pub accounts : Option V
  pub transactions : Option V
  pub price : Option V
  pub market_cap : Option V
  pub is_low_liquidity : Bool
  pub mex_pair_type : String

pub data TokenSort : Type 0 where
  accounts transactions price market_cap : TokenSort

pub record TokenFilter : Type 0 where
  pub token_type : Option TokenType
  pub sub_type : Option String
  pub search : Option String
  pub name : Option String
  pub identifier : Option String
  pub identifiers : Option (List String)
  pub include_meta_esdt : Option Bool
  pub sort : Option TokenSort
  pub order : Option SortOrder
  pub mex_pair_type : List String
  pub price_source : Option String

-- `if (filter.x) tokens = tokens.filter(...)` for a text.
abbrev pub filter_given : {A : Type 0} → Option String → (String → A → Bool) → List A → List A
filter_given none p ts = ts
filter_given (some s) p ts = if s == "" then ts else select (p s) ts

abbrev pub value_or : {V : Type 0} → V → Option V → V
value_or zero none = zero
value_or zero (some v) = v

-- toLowerCase, the number 0, and the two sorts of the SDK.
pub record Listing (V : Type 0) : Type 0 where
  pub lower : String → String
  pub zero_value : V
  pub sorted : (Token V → V) → List (Token V) → List (Token V)
  pub sorted_descending : (Token V → V) → List (Token V) → List (Token V)

abbrev pub egld_identifier : String
egld_identifier = "EGLD-000000"

abbrev pub order_or_desc : Option SortOrder → SortOrder
order_or_desc none = desc
order_or_desc (some o) = o

module _ {V : Type 0} where
  abbrev pub type_is : TokenType → Token V → Bool
  type_is ty t = type_text t.token_type == type_text ty

  abbrev pub filter_type : Option TokenType → List (Token V) → List (Token V)
  filter_type none ts = ts
  filter_type (some ty) ts = select (type_is ty) ts

  abbrev pub filter_meta : Option Bool → List (Token V) → List (Token V)
  filter_meta (some true) ts = ts
  filter_meta _ ts = select (type_is fungible_esdt) ts

  abbrev pub filter_pair_types : List String → List (Token V) → List (Token V)
  filter_pair_types [] ts = ts
  filter_pair_types (p ∷ ps) ts = select (λ t. exists (λ x. x == t.mex_pair_type) (p ∷ ps)) ts

  unfoldable pub apply_ticker_from_assets : Token V → Token V
  unfolding split
  apply_ticker_from_assets t =
      if t.has_assets
      then record t { ticker = first_part (split 45 t.identifier) }
      else record t { ticker = t.identifier }

  abbrev pub is_no_egld : Token V → Bool
  is_no_egld t = not (t.identifier == egld_identifier)

module _ {V : Type 0} (l : Listing V) where
  unfoldable pub criteria : TokenSort → Token V → V
  criteria accounts t = value_or l.zero_value t.accounts
  criteria transactions t = value_or l.zero_value t.transactions
  criteria price t = value_or l.zero_value t.price
  criteria market_cap t =
      if t.is_low_liquidity then l.zero_value else value_or l.zero_value t.market_cap

  unfoldable pub sort_tokens : TokenSort → SortOrder → List (Token V) → List (Token V)
  unfolding criteria
  sort_tokens s asc ts = l.sorted (criteria s) ts
  sort_tokens s desc ts = l.sorted_descending (criteria s) ts

  abbrev pub sort_given : Option TokenSort → Option SortOrder → List (Token V) → List (Token V)
  sort_given none o ts = ts
  sort_given (some s) o ts = sort_tokens s (order_or_desc o) ts

  abbrev pub contains : String → String → Bool
  contains text part = includes (l.lower text) (l.lower part)

  abbrev pub is_found : String → Token V → Bool
  is_found s t = contains t.name s || contains t.identifier s

  abbrev pub is_among : List String → Token V → Bool
  is_among ids t = exists (λ i. i == l.lower t.identifier) (map l.lower ids)

  abbrev pub filter_identifiers : Option (List String) → List (Token V) → List (Token V)
  filter_identifiers none ts = ts
  filter_identifiers (some ids) ts = select (is_among ids) ts

  -- Before the sort.
  unfoldable pub filter_before : TokenFilter → List (Token V) → List (Token V)
  unfolding includes
  filter_before q ts =
      let typed = filter_given q.sub_type (λ s t. t.sub_type == s) (filter_type q.token_type ts) in
      let found = filter_given q.search is_found typed in
      let named = filter_given q.name (λ s t. l.lower t.name == l.lower s) found in
      let partial = filter_given q.identifier (λ s t. contains t.identifier s) named in
      filter_meta q.include_meta_esdt (filter_identifiers q.identifiers partial)

  unfoldable pub get_filtered_tokens : TokenFilter → List (Token V) → List (Token V)
  unfolding filter_before sort_tokens
  get_filtered_tokens q ts =
      let arranged = sort_given q.sort q.order (filter_before q ts) in
      filter_given q.price_source (λ s t. t.price_source == some s)
        (filter_pair_types q.mex_pair_type arranged)

  -- The page is cut before the token that stands for EGLD is left out.
  unfoldable pub get_tokens : QueryPagination → TokenFilter → List (Token V) → List (Token V)
  unfolding get_filtered_tokens apply_ticker_from_assets
  get_tokens page q ts =
      select is_no_egld
        (map apply_ticker_from_assets (take page.size (drop page.start (get_filtered_tokens q ts))))

  unfoldable pub get_token_count : TokenFilter → List (Token V) → ℕ
  unfolding get_filtered_tokens
  get_token_count q ts = length (get_filtered_tokens q ts)
