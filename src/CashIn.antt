-- ===== src/CashIn.antt =====
-- server/src/cashInService.ts: a deposit of fiat money, under a bank's reference or a voucher's number,
-- that mints its backing and credits a wallet. References are unique in the table.
pub mod Once
pub mod Backing
use tende.Base.{
  ℕ, Action, Bool, Error, List, Text, [], any, gets, http, none, pure, raise_if, some, text_eq,
  to_lower, to_upper, ◌++◌, ◌==◌, ◌>>=◌, ◌>>◌, ◌∷◌,
}
use tende.Schema.{DepositReference, ReferenceKind, ReferenceSource}
use tende.World.{World, remote, set_store, fresh_id}
use tende.Env.{Env, is_empty}
use tende.Treasury.{no_vault, mint_treasury_token, vault_admin_credit}
use tende.Base.Rows.{update_where}

pub record CashInInput : Type 0 where
  pub wallet : Text
  pub amount_units : ℕ
  pub currency : Text
  pub reference : Text
  pub kind : ReferenceKind
  pub source : ReferenceSource

pub record CashInResult : Type 0 where
  pub mint_tx : ℕ
  pub credit_tx : ℕ
  pub amount_units : ℕ

abbrev pub already_used : Error
already_used = http 409 "That voucher/reference has already been used"

unfoldable pub is_used : Text → List DepositReference → Bool
is_used reference rows = any (λ d. text_eq d.reference reference) rows

unfoldable pub reserved : CashInInput → ℕ → DepositReference
reserved p id = record {
  id = id;
  reference = p.reference;
  kind = p.kind;
  source = p.source;
  wallet = to_lower p.wallet;
  amount = p.amount_units;
  currency = to_upper p.currency;
  mint_tx = none;
  credit_tx = none;
}

-- The insertion that fails on a reference that is in the table.
unfoldable pub reserve : CashInInput → Action World ℕ
reserve p = remote (do
  rows ← gets (λ w. w.store.deposit_references)
  raise_if (is_used p.reference rows) already_used
  id ← fresh_id
  set_store (λ s. record s { deposit_references = s.deposit_references ++ reserved p id ∷ [] })
  pure id)

unfoldable pub set_transactions : ℕ → ℕ → DepositReference → DepositReference
set_transactions mint_tx credit_tx d = record d {
  mint_tx = some mint_tx;
  credit_tx = some credit_tx;
}

unfoldable pub record_transactions : ℕ → ℕ → ℕ → Action World (Unit {0})
record_transactions id mint_tx credit_tx = remote (
    set_store (λ s. record s {
      deposit_references =
          update_where (λ d. d.id == id) (set_transactions mint_tx credit_tx) s.deposit_references;
    }))

unfoldable pub cash_in : Env → CashInInput → Action World CashInResult
cash_in env p = do
  raise_if (is_empty env.config.vault) no_vault
  id ← reserve p
  mint_tx ← mint_treasury_token env p.amount_units p.currency
  credit_tx ← vault_admin_credit env p.wallet p.amount_units p.currency
  record_transactions id mint_tx credit_tx
  pure (record { mint_tx = mint_tx; credit_tx = credit_tx; amount_units = p.amount_units })
