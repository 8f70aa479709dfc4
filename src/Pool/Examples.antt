-- ===== src/Pool/Examples.antt =====
-- Tests of the pool.
use mx_api_service.Base.{◌≡◌, refl, true, String, none, some, List, [], ◌∷◌, split, units}
use mx_api_service.Action.{thrown, TransactionType, transaction, new_metadata}
use mx_api_service.Action.TestSdk.{test_sdk}
use mx_api_service.Action.Service.{get_transaction_metadata, transfer_metadata}
use mx_api_service.Action.Normal.{
  get_normal_transaction_metadata, read_data, read_call, relayed, redirect_result, start_metadata,
  is_smart_contract_argument,
}
use mx_api_service.Action.Transfers.{
  get_esdt_transaction_metadata, get_nft_transfer_metadata, get_multi_transfer_metadata,
  read_transfers,
}
use mx_api_service.Pool.{
  TxInPoolFields, TransactionInPool, PoolFilter, transaction_in_pool, parse_transaction, matches,
  apply_filters, shard_of, pool_transaction_to_transaction, get_pool,
}

with_data : String → TxInPoolFields
with_data d = record {
  hash = some "aa";
  sender = some "erd1a";
  receiver = some "erd1a";
  receiver_username = none;
  nonce = some 4;
  value = some "0";
  gas_price = none;
  gas_limit = none;
  transaction_data = some d;
  guardian = none;
  guardian_signature = none;
  signature = none;
}

-- One transfer is announced, and its value is missing.
malformed : TxInPoolFields
unfolding with_data
malformed = with_data "MultiESDTNFTTransfer@0a@01@0b@0c"

malformed_thrown : parse_transaction test_sdk units 50 malformed transaction ≡ thrown
unfolding malformed with_data parse_transaction transaction_in_pool pool_transaction_to_transaction
    shard_of get_transaction_metadata transfer_metadata get_normal_transaction_metadata read_data
    read_call relayed redirect_result start_metadata is_smart_contract_argument
    get_esdt_transaction_metadata get_nft_transfer_metadata get_multi_transfer_metadata
    read_transfers test_sdk new_metadata split units
malformed_thrown = refl

waiting : String → TransactionInPool
unfolding transaction_in_pool with_data
waiting d = transaction_in_pool (with_data d) transaction

pool : List TransactionInPool
pool = waiting "" ∷ waiting "swap" ∷ waiting "claim" ∷ []

from_a : PoolFilter
from_a = record {
  sender = some "erd1a";
  receiver = none;
  transaction_type = some transaction;
  sender_shard = none;
  receiver_shard = none;
  functions = none;
}

sent :
    get_pool true pool (record { start = 1; size = 5 }) (some from_a)
    ≡ waiting "swap" ∷ waiting "claim" ∷ []
unfolding get_pool apply_filters matches pool from_a waiting transaction_in_pool with_data
sent = refl

-- A regular transaction and a reward, as they are read.
read : TransactionType → TransactionInPool
unfolding transaction_in_pool with_data
read type = record (transaction_in_pool (with_data "") type) {
  sender_shard = 5;
  receiver_shard = 5;
}
