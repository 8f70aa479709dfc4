-- ===== src/Tokens/Examples.antt =====
-- Tests of the list of tokens.
use mx_api_service.Base.{
  ℕ, ◌+◌, ◌≡◌, refl, String, none, some, List, [], ◌∷◌, Bool, false, not, ◌&&◌, ◌==◌, length, take,
  drop, text_comparable,
}
use mx_api_service.Tokens.{
  TokenType, fungible_esdt, meta_esdt, Token, TokenFilter, Listing, is_no_egld, get_filtered_tokens,
  get_tokens, get_token_count, filter_before,
}
use mx_api_service.Tokens.Counts.{count, meets, get_filtered_tokens-count, get_tokens-length}

abbrev token : TokenType → String → Token ℕ
token ty identifier = record {
  token_type = ty;
  sub_type = "";
  identifier = identifier;
  name = identifier;
  ticker = "";
  has_assets = false;
  price_source = none;
  accounts = some 3;
  transactions = none;
  price = none;
  market_cap = none;
  is_low_liquidity = false;
  mex_pair_type = "core";
}

abbrev tokens : List (Token ℕ)
tokens =
    token fungible_esdt "EGLD-000000"
    ∷ token fungible_esdt "USDC-c76f1f"
    ∷ token meta_esdt "LKMEX-aab910"
    ∷ []

-- Neither the case of a text nor the order of a list is changed.
abbrev listing : Listing ℕ
listing = record {
  lower = λ s. s;
  zero_value = 0;
  sorted = λ c ts. ts;
  sorted_descending = λ c ts. ts;
}

abbrev any_token : TokenFilter
any_token = record {
  token_type = none;
  sub_type = none;
  search = none;
  name = none;
  identifier = none;
  identifiers = none;
  include_meta_esdt = none;
  sort = none;
  order = none;
  mex_pair_type = [];
  price_source = none;
}

two_listed : get_token_count listing any_token tokens ≡ 2
unfolding get_token_count get_filtered_tokens filter_before
two_listed = refl

abbrev is_usdc : Token ℕ → Bool
is_usdc t = t.identifier == "USDC-c76f1f"

get_filtered_tokens-count_example :
    count is_usdc (get_filtered_tokens listing any_token tokens)
    ≡ count (λ t. meets listing any_token t && is_usdc t) tokens
get_filtered_tokens-count_example =
    get_filtered_tokens-count listing (λ c p ts. refl) (λ c p ts. refl) any_token tokens is_usdc

get_tokens-length_example :
    length (get_tokens listing (record { start = 0; size = 2 }) any_token tokens)
      + count
          (λ t. not (is_no_egld t))
          (take 2 (drop 0 (get_filtered_tokens listing any_token tokens)))
    ≡ length (take 2 (drop 0 (get_filtered_tokens listing any_token tokens)))
get_tokens-length_example =
    get_tokens-length listing (record { start = 0; size = 2 }) any_token tokens
