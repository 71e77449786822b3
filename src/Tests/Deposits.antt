-- ===== src/Tests/Deposits.antt =====
-- A deposit of rand under a voucher's number.
use tende.Base.{codes, ok, refl, subst, sym, text_eq, to_lower, to_upper, ◌≡◌}
use tende.Schema.{ReferenceKind, ReferenceSource}
use tende.Vault.{
  receive_mint, admin_credit, credit_assets, convert_to_shares, checked, pool, set_pool,
}
use tende.World.{remote, schedule, set_store, transact, on_vault, fresh_id}
use tende.World.Returns.{Returns, Fails, IsOk}
use tende.Treasury.{
  mint_treasury_token, treasury_token_address_for_fiat, address_of, vault_admin_credit,
}
use tende.CashIn.{CashInInput, cash_in, reserve, is_used, record_transactions, set_transactions}
use tende.CashIn.Once.{Reserved, cash_in-Returns, cash_in_once}
use tende.CashIn.Backing.{Backed, cash_in-Backed}
use tende.Currency.{zar}
use tende.Tests.Setting.{env, world, alice}
use tende.Base.Assoc.{insert, lookup}
use tende.Base.Rows.{find, update_where}

abbrev deposit : CashInInput
deposit = record {
  wallet = alice;
  amount_units = 500;
  currency = zar;
  reference = codes "V1";
  kind = ReferenceKind.voucher;
  source = ReferenceSource.consumer;
}

deposited :
    (cash_in env deposit world).0 ≡ ok (record { mint_tx = 0; credit_tx = 1; amount_units = 500 })
unfolding cash_in reserve is_used fresh_id remote schedule set_store mint_treasury_token
    treasury_token_address_for_fiat address_of find transact on_vault receive_mint lookup insert
    vault_admin_credit admin_credit credit_assets convert_to_shares checked pool set_pool
    record_transactions set_transactions update_where text_eq to_lower to_upper
deposited = refl

cash_in-Returns_example :
    Returns
      (λ r u. Reserved (codes "V1") world u × (r.amount_units ≡ 500))
      (cash_in env deposit world)
cash_in-Returns_example = cash_in-Returns env deposit world

cash_in_once_example : Fails (cash_in env deposit (cash_in env deposit world).1)
cash_in_once_example =
    cash_in_once env deposit deposit world (cash_in env deposit world).1 refl
      (subst (λ r. IsOk (r, (cash_in env deposit world).1)) (sym deposited) tt) refl

cash_in-Backed_example : Returns (λ r u. Backed deposit world u) (cash_in env deposit world)
cash_in-Backed_example = cash_in-Backed env deposit world
