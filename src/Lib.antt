-- ===== src/Lib.antt =====
-- Verification of the server of tende, a wallet for retail payments: its services keep a database and
-- an in-process memory, and call a vault contract that holds the ledger of every currency.
--
-- World is what a handler runs against: the chain (the vault's ledger and the number of transactions
-- mined), the database, the process's memory, and a network with a clock. A handler is an
-- `Action World A`: it returns a result or an error and the world that it leaves, and what it wrote
-- before an error stays written, as in the source. `remote` is an `await` of a call to the chain or
-- the database; a schedule says for each such call whether it is delivered, lost before it took
-- effect, or took effect with its answer lost. The clock advances by any amount between two readings.
--
-- Vault models src/Vault.sol as far as the server calls it (adminCredit, adminDebit,
-- withdrawToExternal, unifiedBalance), with Solidity's checked arithmetic: a sum or product that
-- leaves 256 bits reverts. Schema has the rows of db/*.sql. Env has the settings of
-- server/src/config.ts and, as functions, the libraries and remote services whose code is elsewhere:
-- hashing, signature checks, decimal parsing, floating point, the rate providers.
--
-- The services of server/src, each module named for its file: Treasury (treasuryService.ts and
-- lookups of treasuryDeployService.ts), Escrow (escrowService.ts), Revenue (revenueConfig.ts),
-- Currency (currencyHelper.ts), Fx (fxService.ts), Kyc (kycSpendService.ts, with its dates in
-- Calendar), Passkey (webauthnService.ts), AuthNonce (authNonce.ts), CashIn (cashInService.ts) and
-- Withdrawal (withdrawalService.ts, split into Beneficiary, Prepare and Submit), Settlement
-- (settlement.routes.ts, with the role check of memberAuth.middleware.ts; Pay has the execution,
-- Requests the routes), Fulfilment (fulfilmentService.ts), Conversion (conversionService.ts), Stores
-- (storeService.ts; Listing, Corridors), Vouchers (changeVoucherService.ts; Issue, Redeem) and
-- Sessions (the caps of sessionService.ts). Functions keep the source's names in lower case with
-- underscores, and a route is named for what it does. Withdrawal calls Kyc, Revenue, Passkey and
-- Treasury; Escrow, CashIn, Settlement, Fulfilment, Conversion and Vouchers call Treasury;
-- Conversion and Kyc call Fx, and Vouchers calls Stores. What `setImmediate` is given, and an
-- inquiry of the fulfilment service that waits, is kept in the process's memory as a task; tasks run
-- in any order, so that inquiries overlap. Under each, the child modules hold what is proved of it.
-- Base has the shared types and lemmas, World the rules for handlers: Rules for how a handler ends,
-- Returns for what a success tells, Frames for what a handler leaves alone. Tests runs the services
-- on one small world.
--
-- The only fuel is that of the walk over months in Calendar: a month has at least 28 days, so that
-- the number of days divided by 28, and one more, is enough.
--
-- Other than the inquiries of the fulfilment service, which are cut where they wait, handlers run
-- one after another and are not interleaved. Text is a list of character codes whose case is that of
-- ASCII, an address is keyed in lower case, and a currency's code stands for its hash. Not modelled:
-- the HTTP routes other than those of settlement, which check arguments and list rows, the user
-- interfaces, reports, contract deployment, gas accounting, the services for checkout and
-- registration, and the store of session keys.
pub mod Base
pub mod Vault
pub mod Schema
pub mod World
pub mod Env
pub mod Treasury
pub mod Escrow
pub mod Fulfilment
pub mod Revenue
pub mod Settlement
pub mod Stores
pub mod Currency
pub mod Fx
pub mod Calendar
pub mod Kyc
pub mod Passkey
pub mod AuthNonce
pub mod Vouchers
pub mod Withdrawal
pub mod CashIn
pub mod Conversion
pub mod Sessions
pub mod Tests
