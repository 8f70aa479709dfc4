-- ===== src/Staking.antt =====
-- src/endpoints/stake/stake.service.ts: what is staked, by whom and how spread.
pub mod Minimum
pub mod Nakamoto
pub mod Validators
pub mod Counts
pub mod PerNode
pub mod Split
pub mod Unstaked
mod Examples
