-- ===== src/World.antt =====
-- What a handler of server/src runs against: the chain, the database with the services' memory,
-- and the network and clock between them. A call over the network is delivered, or is lost before
-- it has taken effect, or takes effect with its answer lost: the schedule `outcomes` says which,
-- call by call, and every call is delivered once the schedule is used up. The clock advances by an
-- arbitrary amount between two readings.
pub mod Rules
pub mod Frames
pub mod Returns
pub mod Queries
use tende.Base.{
  ℕ, Action, Error, List, Option, Text, [], err, gets, modify, ok, pure, thrown, ◌+◌, ◌>>=◌, ◌>>◌,
  ◌∷◌,
}
use tende.Schema.{
  ConsumerRow, MerchantRow, KycLevelRow, CredentialRow, CountryRow, StablecoinRow, SpendEvent,
  PendingWithdrawal, WithdrawalRow, DepositReference, FxOverride, CacheEntry, CachedRevenue,
  PendingClaim, SaleRow, Task, ChangeVoucherRow, MerchantStoreRow, MemberRow, ProductRow,
  AcceptedCurrency, SettlementRequestRow, SettlementConfig, OfframpRow, ConversionRow,
}
use tende.Vault.{Vault}
use tende.Base.Assoc.{Map}

pub data Outcome : Type 0 where
  delivered dropped unconfirmed : Outcome

pub record Net : Type 0 where
  pub outcomes : List Outcome
  pub now : ℕ
  pub elapses : List ℕ

pub record Chain : Type 0 where
  pub vault : Vault
  -- `currencyTokenAt` at index 0, the vault's trusted counterparties, and the registered consumers
  pub primary_tokens : Map Text
  -- `usdcToken`
  pub usdc_token : Text
  pub trusted : List Text
  pub registered : List Text
  -- the number of transactions mined; the next one's hash
  pub sent : ℕ

pub record Store : Type 0 where
  pub consumers : List ConsumerRow
  pub merchants : List MerchantRow
  pub kyc_levels : List KycLevelRow
  pub credentials : List CredentialRow
  pub countries : List CountryRow
  pub stablecoins : List StablecoinRow
  pub app_config : Map Text
  pub fx_overrides : List FxOverride
  pub spend_events : List SpendEvent
  pub withdrawals : List WithdrawalRow
  pub deposit_references : List DepositReference
  pub claims : List PendingClaim
  pub sales : List SaleRow
  pub change_vouchers : List ChangeVoucherRow
  pub stores : List MerchantStoreRow
  pub members : List MemberRow
  pub products : List ProductRow
  pub accepted_currencies : List AcceptedCurrency
  pub settlement_requests : List SettlementRequestRow
  pub settlement_configs : List SettlementConfig
  pub offramps : List OfframpRow
  pub conversions : List ConversionRow
  -- the next value of a sequence or a random identifier
  pub next_id : ℕ

-- What the server's process holds between requests.
pub record Memory : Type 0 where
  pub revenue : Option CachedRevenue
  pub rates : Map CacheEntry
  pub challenges : Map ℕ
  pub nonces : Map (Text × ℕ)
  pub pending : List PendingWithdrawal
  -- what `setImmediate` was given, and what waits for an `await`
  pub tasks : List Task

pub record World : Type 0 where
  pub chain : Chain
  pub store : Store
  pub memory : Memory
  pub net : Net

abbrev lost : Error
lost = thrown "network"

unfoldable pub deliver : {A : Type 0} → Outcome → Action World A → Action World A
deliver delivered m w = m w
deliver dropped m w = (err lost, w)
deliver unconfirmed m w = (err lost, (m w).1)

unfoldable pub schedule : {A : Type 0} → List Outcome → Action World A → Action World A
unfolding deliver
schedule [] m w = m w
schedule (o ∷ rest) m w = deliver o m (record w { net = record w.net { outcomes = rest } })

-- `await` of a call to the chain or the database.
unfoldable pub remote : {A : Type 0} → Action World A → Action World A
unfolding schedule
remote m w = schedule w.net.outcomes m w

unfoldable pub pass_time : List ℕ → World → World
pass_time [] w = w
pass_time (d ∷ rest) w = record w { net = record w.net { now = w.net.now + d; elapses = rest } }

-- `Date.now()`
unfoldable pub clock : Action World ℕ
unfolding pass_time
clock w = let w' = pass_time w.net.elapses w in (ok w'.net.now, w')

-- A call that the chain mines or reverts.
unfoldable pub on_vault : {A : Type 0} → Action Vault A → Action World A
on_vault m w =
    let (r, v) = m w.chain.vault in (r, record w { chain = record w.chain { vault = v } })

-- A transaction's receipt.
unfoldable pub transact : Action Vault (Unit {0}) → Action World ℕ
unfolding on_vault
transact m = do
  on_vault m
  hash ← gets (λ w. w.chain.sent)
  modify (λ w. record w { chain = record w.chain { sent = w.chain.sent + 1 } })
  pure hash

unfoldable pub set_store : (Store → Store) → Action World (Unit {0})
set_store f = modify (λ w. record w { store = f w.store })

unfoldable pub set_memory : (Memory → Memory) → Action World (Unit {0})
set_memory f = modify (λ w. record w { memory = f w.memory })

-- A fresh identifier.
unfoldable pub fresh_id : Action World ℕ
unfolding set_store
fresh_id = do
  i ← gets (λ w. w.store.next_id)
  set_store (λ s. record s { next_id = s.next_id + 1 })
  pure i
