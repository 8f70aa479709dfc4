-- ===== src/Lib.antt =====
-- A model of the logic of mx-api-service, the REST API in front of a MultiversX node, its
-- Elasticsearch index and its caches, with the theorems that make the parts correct.
--
-- Parts and files:
-- * CircuitBreaker (src/common/indexer/elastic/circuit-breaker): the proxy that fails fast when
--   Elasticsearch does. `admit`, `on_success` and `on_failure` are the code between two awaits of
--   withCircuitBreaker; Sequence has calls one after the other, Interleaving calls that overlap.
-- * Concurrency (src/utils/concurrency.utils.ts): the chunked loops. They take fuel; more fuel than
--   items is enough when the chunk size is positive.
-- * Batch (src/endpoints/transactions.batch): batches of groups of transactions. World has what the
--   services act on, Service the sending of groups (TransactionsBatchService), Convert the two
--   conversions and the controller's start of a batch.
-- * Processor (src/crons/transaction.processor/batch.transaction.processor.service.ts): the state
--   machine of a batch. The loops of processTransaction over groups and items are counted, with the
--   batch as the state, since the source changes the batch in place while it runs over it; Jobs has
--   handleTransactionBatches, Dropped has handleDroppedTransactions.
-- * Action (src/endpoints/transactions/transaction-action): what a transaction does. Normal reads the
--   call and the relayed transactions (getNormalTransactionMetadata), Transfers the tokens it moves,
--   Service asks the recognizers in turn. ScCalls, Esdt, Stake and Mex (with Pair, Farm, Assets,
--   Metabonding) are the recognizers, Installed the five as they are installed. A recognizer takes the
--   metadata and gives it back, since a swap writes it. A relayed transaction takes a unit of fuel; one
--   more than the decoded data has characters is enough.
-- * Nodes (src/endpoints/nodes/node.service.ts): Filter and Criteria are the test of a query, Order and
--   Listing its list, Owners the owners of nodes, Build the queue and the statuses, Auctions the
--   auctions. Array.sort is a stable sort by the comparator, and what is undefined or NaN is `none`; that
--   a NaN is null, and so compares as 0, once a node was in the remote cache is left out.
-- * Staking (src/endpoints/stake/stake.service.ts): Validators the counts by epoch and the global stake,
--   Minimum the least top-up of the auction, Nakamoto how spread the validators are, PerNode (with
--   Split) and Unstaked the stakes of an address. The nodes are counted by Nodes.
-- * Tokens (src/endpoints/tokens/token.service.ts): the list of the tokens, its filter, sort and pages.
-- * Pool (src/endpoints/pool): the transactions that wait; each is read by Action, then they are
--   filtered and paged.
-- * TpsWarmer (src/crons/tps/tps-warmer.service.ts, src/utils/tps.utils.ts): the transactions of one
--   shard, counted by time; the source adds those of all shards under the same keys. The loop over
--   nonces is counted by how many there are. Expiry is left out, and so is a shard with fewer blocks
--   than the warmer looks back, where the source asks for negative nonces.
-- * TpsService (src/endpoints/tps/tps.service.ts): what is read of the counts of TpsWarmer. The loop over
--   the slots has a round of fuel for each second of the interval, which is enough as a frequency is a
--   second at least.
-- * CacheInfo (src/utils/cache.info.ts): the keys and lifetimes of cache entries. Chain, Token,
--   Market, Endpoint and Service list the entries, Family the keys that a kind of entry can have.
--
-- What is not in the repository is a parameter: the remote cache (with the laws of get, set and
-- delete), the Elasticsearch client, the hash of a transaction, the network's answers (a function of
-- the transactions sent before). Expiry of cache entries is not modelled, nor are logs and metrics.
--
-- Not modelled: the queries of the index and what is built of their answers (transactions, NFTs,
-- collections, accounts, the tokens of an address), providers and identities, the exchange's data, the
-- configuration, the clients of other services, persistence, queues and the other periodic jobs, whose
-- logic is in the queries and calls they make; controllers and modules, which only declare endpoints.
mod Base
pub mod CircuitBreaker
pub mod Concurrency
pub mod CacheInfo
pub mod Action
pub mod Batch
pub mod Nodes
pub mod Staking
pub mod Tokens
pub mod Pool
pub mod Processor
pub mod TpsWarmer
pub mod TpsService
