-- ===== src/Withdrawal.antt =====
-- server/src/withdrawalService.ts: a consumer's withdrawal of USDC to an outside wallet. It is
-- prepared, which fixes its amounts and a challenge, and submitted with a passkey's signature of that
-- challenge. The summaries of past withdrawals, which only format what is stored, are not modelled,
-- nor is the record of the gas that was spent, which no withdrawal waits for or depends on.
pub mod Beneficiary
pub mod Prepare
pub mod Submit
pub mod Kept
pub mod Steps
pub mod Prepared
pub mod Once
pub mod Amounts
