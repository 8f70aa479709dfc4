-- ===== src/Action/TransferExamples.antt =====
-- Tests of the transfers that are read from arguments.
use mx_api_service.Base.{
  ℕ, ◌≡◌, ◌<◌, ◌*◌, refl, String, Option, some, List, [], ◌∷◌, ◌++◌, All, true, false, units, leb,
  arith, length,
}
use mx_api_service.Action.{
  returned, thrown, TransactionMetadata, with_nonce, new_metadata, smart_contract_result,
}
use mx_api_service.Action.Normal.{redirect_result}
use mx_api_service.Action.Transfers.{
  get_multi_transfer_metadata, inner_call, parse_value, read_transfers, transfer_query,
}
use mx_api_service.Action.Layout.{
  LaidTransfer, arguments_of, IsLaid, known_transfers, IsMultiTransfer,
  get_multi_transfer_metadata-arguments_of, get_multi_transfer_metadata_short,
}
use mx_api_service.Action.Results.{IsAddress, get_multi_transfer_metadata-redirect_result}
use mx_api_service.Action.TestSdk.{known, test_sdk, wallet}

first : LaidTransfer
first = record { identifier = "NFT-1"; nonce = "01"; raw = "123"; amount = 3 }

second : LaidTransfer
second = record { identifier = "TKN-2"; nonce = ""; raw = "12"; amount = 2 }

calls_swap : List String
calls_swap = "swap" ∷ "00" ∷ []

sent : TransactionMetadata String
unfolding wallet first second calls_swap
sent =
    wallet "erd1a" "MultiESDTNFTTransfer"
      ("erd1b" ∷ "ab" ∷ (arguments_of (first ∷ second ∷ []) ++ calls_swap))

sent-IsMultiTransfer :
    IsMultiTransfer test_sdk sent "erd1b" "ab"
      (arguments_of (first ∷ second ∷ []) ++ calls_swap)
      "erd1b"
unfolding sent wallet test_sdk new_metadata
sent-IsMultiTransfer = record {
  to_itself = refl;
  called = refl;
  has_arguments = refl;
  valid = refl;
  encoded = refl;
}

counted : test_sdk.hex_to_number "ab" ≡ 2
unfolding test_sdk units
counted = refl

laid : (timestamp : Option ℕ) → All (IsLaid test_sdk false timestamp) (first ∷ second ∷ [])
unfolding parse_value test_sdk units first second
laid timestamp = (refl, (refl, tt))

get_multi_transfer_metadata-arguments_of_example :
    get_multi_transfer_metadata test_sdk sent false
    ≡ returned (
        some (
          inner_call test_sdk calls_swap (record (new_metadata String) {
            sender = sent.sender;
            receiver = "erd1b";
            transfers = some (known_transfers test_sdk false sent.timestamp (first ∷ second ∷ []));
          })))
get_multi_transfer_metadata-arguments_of_example =
    get_multi_transfer_metadata-arguments_of test_sdk sent false "erd1b" "ab" "erd1b" first
      (second ∷ []) calls_swap sent-IsMultiTransfer counted (laid sent.timestamp)

sent_test :
    get_multi_transfer_metadata test_sdk sent false
    ≡ returned (
        some (record {
          sender = "erd1a";
          receiver = "erd1b";
          value = 0;
          function_name = some "swap";
          function_args = "00" ∷ [];
          timestamp = some 0;
          transfers = some (record { properties = "NFT-1"; value = 3 } ∷ []);
        }))
unfolding get_multi_transfer_metadata test_sdk sent wallet first second calls_swap new_metadata
    inner_call parse_value units transfer_query known read_transfers
sent_test = refl

cut_short : TransactionMetadata String
unfolding wallet
cut_short = wallet "erd1a" "MultiESDTNFTTransfer" ("erd1b" ∷ "ab" ∷ "NFT-1" ∷ "01" ∷ [])

cut_short-IsMultiTransfer :
    IsMultiTransfer test_sdk cut_short "erd1b" "ab" ("NFT-1" ∷ "01" ∷ []) "erd1b"
unfolding cut_short wallet test_sdk new_metadata
cut_short-IsMultiTransfer = record {
  to_itself = refl;
  called = refl;
  has_arguments = refl;
  valid = refl;
  encoded = refl;
}

too_few : length {A = String} ("NFT-1" ∷ "01" ∷ []) < test_sdk.hex_to_number "ab" * 3
unfolding test_sdk units
too_few = omega arith

get_multi_transfer_metadata_short_example :
    get_multi_transfer_metadata test_sdk cut_short false ≡ thrown
get_multi_transfer_metadata_short_example =
    get_multi_transfer_metadata_short test_sdk cut_short false "erd1b" "ab" "erd1b" "NFT-1"
      ("01" ∷ []) cut_short-IsMultiTransfer too_few

result : TransactionMetadata String
unfolding wallet first second calls_swap
result =
    wallet "erd1b" "MultiESDTNFTTransfer"
      ("ab" ∷ (arguments_of (first ∷ second ∷ []) ++ calls_swap))

result-IsAddress : IsAddress test_sdk result.receiver "erd1b"
unfolding result wallet test_sdk new_metadata
result-IsAddress = record { decoded = refl; valid = refl; encoded = refl }

result_name : result.function_name ≡ some "MultiESDTNFTTransfer"
unfolding result wallet
result_name = refl

result_args : result.function_args ≡ "ab" ∷ (arguments_of (first ∷ second ∷ []) ++ calls_swap)
unfolding result wallet
result_args = refl

two_digits : leb (units "ab") 4 ≡ true
unfolding units
two_digits = refl

get_multi_transfer_metadata-redirect_result_example :
    get_multi_transfer_metadata test_sdk
      (redirect_result test_sdk (some smart_contract_result) result)
      false
    ≡ returned (
        some (
          inner_call test_sdk calls_swap (record (new_metadata String) {
            sender = result.sender;
            receiver = result.receiver;
            transfers =
                some (known_transfers test_sdk false result.timestamp (first ∷ second ∷ []));
          })))
get_multi_transfer_metadata-redirect_result_example =
    get_multi_transfer_metadata-redirect_result test_sdk result "erd1b" false "ab" first
      (second ∷ []) calls_swap result-IsAddress result_name result_args two_digits counted
      (laid result.timestamp)

nft_result : TransactionMetadata String
unfolding wallet
nft_result = wallet "erd1b" "ESDTNFTTransfer" ("NFT-1" ∷ "01" ∷ "1" ∷ "00" ∷ "claim" ∷ [])

nft_result-IsAddress : IsAddress test_sdk nft_result.receiver "erd1b"
unfolding nft_result wallet test_sdk new_metadata
nft_result-IsAddress = record { decoded = refl; valid = refl; encoded = refl }

nft_result_name : nft_result.function_name ≡ some "ESDTNFTTransfer"
unfolding nft_result wallet
nft_result_name = refl

nft_result_args : nft_result.function_args ≡ "NFT-1" ∷ "01" ∷ "1" ∷ "00" ∷ "claim" ∷ []
unfolding nft_result wallet
nft_result_args = refl

one_moved : test_sdk.hex_to_big_int "1" ≡ some 1
unfolding test_sdk units
one_moved = refl

nft_known :
    test_sdk.transfer_properties (with_nonce (test_sdk.hex_to_string "NFT-1") "01") ≡ some "NFT-1"
unfolding test_sdk known
nft_known = refl
