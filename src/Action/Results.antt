-- ===== src/Action/Results.antt =====
-- Smart contract results that move tokens (Action/Normal, then Action/Transfers).
use mx_api_service.Base.{
  ℕ, ◌≡◌, refl, String, some, List, [], ◌∷◌, ◌++◌, All, length, Bool, true, false, ◌==◌, leb, ltb,
  text_comparable, option_comparable, arith, ==-true, units,
}
use mx_api_service.Action.{
  returned, Sdk, TransactionMetadata, with_nonce, new_metadata, smart_contract_result,
}
use mx_api_service.Action.Normal.{redirect, redirect_result}
use mx_api_service.Action.Transfers.{
  inner_call, get_multi_transfer_metadata, get_nft_transfer_metadata,
}
use mx_api_service.Action.Layout.{
  LaidTransfer, arguments_of, IsLaid, known_transfers, get_multi_transfer_metadata-arguments_of,
}

-- The address has a form in hexadecimal digits.
pub record IsAddress {P : Type 0} (sdk : Sdk P) (address hex : String) : Type 0 where
  pub decoded : sdk.bech32_decode address ≡ some hex
  pub valid : sdk.is_valid_hex_address hex ≡ true
  pub encoded : sdk.bech32_encode hex ≡ some address

get_nft_transfer_metadata-args :
    {P : Type 0} (sdk : Sdk P) (m : TransactionMetadata P)
    (hex receiver collection nonce amount : String) (args : List String) (value : ℕ)
    (properties : P)
    → m.sender ≡ m.receiver
    → m.function_name ≡ some "ESDTNFTTransfer"
    → m.function_args ≡ collection ∷ nonce ∷ amount ∷ hex ∷ args
    → sdk.is_valid_hex_address hex ≡ true
    → sdk.bech32_encode hex ≡ some receiver
    → sdk.hex_to_big_int amount ≡ some value
    → sdk.transfer_properties (with_nonce (sdk.hex_to_string collection) nonce) ≡ some properties
    → get_nft_transfer_metadata sdk m
      ≡ returned (
          some (
            inner_call sdk args (record (new_metadata P) {
              sender = m.sender;
              receiver = receiver;
              value = value;
              transfers = some (record { properties = properties; value = value } ∷ []);
            })))
unfolding get_nft_transfer_metadata
get_nft_transfer_metadata-args sdk m hex receiver collection nonce amount args value properties i n
      e a b v p =
    rw (==-true i, ==-true n, e, a, v, b, p) refl

module _ {P : Type 0} (sdk : Sdk P) (m : TransactionMetadata P) (hex : String) where
  redirect_multi :
      (arg : String) (args : List String)
      → m.function_name ≡ some "MultiESDTNFTTransfer"
      → m.function_args ≡ arg ∷ args
      → leb (units arg) 4 ≡ true
      → sdk.bech32_decode m.receiver ≡ some hex
      → redirect sdk m ≡ record m { function_args = hex ∷ arg ∷ args; receiver = m.sender }
  unfolding redirect
  redirect_multi arg args n e h d = rw (==-true n, e, h, d, e) refl

  -- A smart contract result that moves at least one token, laid out as the network does with the
  -- count of its transfers, of at most four digits, as its first argument, is read as a transfer
  -- from its sender to its receiver, if the receiver is an address.
  pub get_multi_transfer_metadata-redirect_result :
      (apply_value : Bool) (count : String) (t : LaidTransfer) (ts : List LaidTransfer)
      (left : List String)
      → IsAddress sdk m.receiver hex
      → m.function_name ≡ some "MultiESDTNFTTransfer"
      → m.function_args ≡ count ∷ (arguments_of (t ∷ ts) ++ left)
      → leb (units count) 4 ≡ true
      → sdk.hex_to_number count ≡ length (t ∷ ts)
      → All (IsLaid sdk apply_value m.timestamp) (t ∷ ts)
      → get_multi_transfer_metadata sdk
          (redirect_result sdk (some smart_contract_result) m)
          apply_value
        ≡ returned (
            some (
              inner_call sdk left (record (new_metadata P) {
                sender = m.sender;
                receiver = m.receiver;
                transfers = some (known_transfers sdk apply_value m.timestamp (t ∷ ts));
              })))
  unfolding redirect_result
  get_multi_transfer_metadata-redirect_result apply_value count t ts left a n e h c l =
      rw (redirect_multi count _ n e h a.decoded) (
        get_multi_transfer_metadata-arguments_of sdk
          (record m {
            function_args = hex ∷ count ∷ (arguments_of (t ∷ ts) ++ left);
            receiver = m.sender;
          })
          apply_value hex count m.receiver t ts left
          (record {
            to_itself = refl;
            called = n;
            has_arguments = refl;
            valid = a.valid;
            encoded = a.encoded;
          })
          c l)

  redirect_nft :
      (collection nonce amount old : String) (args : List String)
      → m.function_name ≡ some "ESDTNFTTransfer"
      → m.function_args ≡ collection ∷ nonce ∷ amount ∷ old ∷ args
      → sdk.bech32_decode m.receiver ≡ some hex
      → redirect sdk m
        ≡ record m { function_args = collection ∷ nonce ∷ amount ∷ hex ∷ args; receiver = m.sender }
  unfolding redirect
  redirect_nft collection nonce amount old args n e d =
      let other : (m.function_name == some "MultiESDTNFTTransfer") ≡ false = rw (n) refl in
      let four : ltb 3 (length (collection ∷ nonce ∷ amount ∷ old ∷ args)) ≡ true = ground arith in
      rw (other, ==-true n, e, four, d, e) refl

  -- A smart contract result that moves an amount of an NFT of a known token, with at least four
  -- arguments, is read as a transfer from its sender to its receiver in place of the fourth
  -- argument, if the receiver is an address.
  pub get_nft_transfer_metadata-redirect_result :
      (collection nonce amount old : String) (args : List String) (value : ℕ) (properties : P)
      → IsAddress sdk m.receiver hex
      → m.function_name ≡ some "ESDTNFTTransfer"
      → m.function_args ≡ collection ∷ nonce ∷ amount ∷ old ∷ args
      → sdk.hex_to_big_int amount ≡ some value
      → sdk.transfer_properties (with_nonce (sdk.hex_to_string collection) nonce) ≡ some properties
      → get_nft_transfer_metadata sdk (redirect_result sdk (some smart_contract_result) m)
        ≡ returned (
            some (
              inner_call sdk args (record (new_metadata P) {
                sender = m.sender;
                receiver = m.receiver;
                value = value;
                transfers = some (record { properties = properties; value = value } ∷ []);
              })))
  unfolding redirect_result
  get_nft_transfer_metadata-redirect_result collection nonce amount old args value properties a n e
        v p =
      rw (redirect_nft collection nonce amount old args n e a.decoded) (
        get_nft_transfer_metadata-args sdk
          (record m {
            function_args = collection ∷ nonce ∷ amount ∷ hex ∷ args;
            receiver = m.sender;
          })
          hex m.receiver collection nonce amount args value properties refl n refl a.valid a.encoded
          v p)
