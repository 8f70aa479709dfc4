-- ===== src/Action/Mex.antt =====
-- The recognizers of exchange transactions, src/endpoints/transactions/transaction-action/
-- recognizers/mex, and the settings of src/endpoints/mex/mex.settings.service.ts they ask.
pub mod Settings
pub mod Pair
pub mod Farm
pub mod Assets
pub mod Metabonding
pub mod Recognizer
pub mod Guard
pub mod Swaps
