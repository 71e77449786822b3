-- ===== src/Tests.antt =====
-- Runs of the services at concrete inputs: Setting has the environment and the world that they share.
pub mod Setting
pub mod Ledger
pub mod Services
pub mod Withdrawals
pub mod Deposits
pub mod Shop
pub mod Payouts
pub mod Sales
pub mod Trade
