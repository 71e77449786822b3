-- ===== src/Settlement/Pay.antt =====
-- executeSettlement of server/src/settlement.routes.ts: the payout of an approved request.
use tende.Base.{
  ℕ, Action, Error, Option, Text, [], codes, gets, if◌then◌else◌, is_hex_address, ltb_ℤ, none, not,
  or_else, or_raise, pos, pure, raise_if, some, text_eq, thrown, to_upper, ℤ, ◌==◌, ◌>>=◌, ◌>>◌,
}
use tende.Schema.{SettlementRequestRow, SettlementStatus, MerchantRow}
use tende.World.{World, remote, set_store}
use tende.Env.{Env, is_empty}
use tende.Treasury.{vault_balance_of, vault_admin_debit, vault_withdraw, as_uint}
use tende.Treasury.Reserves.{sweep_treasury_from_vault}
use tende.Revenue.{get_revenue_config, calc_settlement_fee, SettlementFee}
use tende.Withdrawal.Prepare.{vault_backing_token_for_currency}
use tende.Settlement.{decimals_for, find_merchant, fiat}
use tende.Base.Rows.{update_where}

abbrev pub no_wallet : Error
no_wallet = thrown "Merchant has no wallet on file"

unfoldable pub wallet_of : Option MerchantRow → Text
wallet_of none = []
wallet_of (some m) = or_else m.wallet_address []

unfoldable pub country_of : Option MerchantRow → Text
country_of none = codes "ZA"
country_of (some m) = m.country_code

unfoldable pub set_executed : ℕ → ℕ → SettlementFee → SettlementRequestRow → SettlementRequestRow
set_executed tx fee_bps f r = record r {
  status = SettlementStatus.executed;
  executed_tx_hash = some tx;
  fee_bps = some fee_bps;
  fee_amount = some f.fee;
  net_amount = some f.net;
}

unfoldable pub update_request :
    ℕ → (SettlementRequestRow → SettlementRequestRow) → Action World (Unit {0})
update_request id f = remote (
    set_store (λ s. record s {
      settlement_requests = update_where (λ r. r.id == id) f s.settlement_requests;
    }))

module _ (env : Env) where
  -- The record of the gas that was spent catches its own errors.
  unfoldable pub pay_fiat : Text → ℤ → Text → Text → Text → Action World ℕ
  pay_fiat from_wallet units currency to_address country = do
    amount ← as_uint units
    debit_tx ← vault_admin_debit env from_wallet amount currency
    sweep_treasury_from_vault env to_address amount country

  unfoldable pub pay_onchain : Text → ℤ → Text → Text → Action World ℕ
  pay_onchain from_wallet units currency to_address = do
    token ← vault_backing_token_for_currency env currency
    amount ← as_uint units
    vault_withdraw env from_wallet to_address token amount

  -- The transaction and the fee's rate.
  unfoldable pub pay_out : SettlementRequestRow → Text → Action World (ℕ × ℕ)
  pay_out req settlement_type = do
    merchant ← remote (gets (λ w. find_merchant req.merchant_id w.store.merchants))
    let from_wallet = wallet_of merchant
    raise_if (is_empty from_wallet) no_wallet
    let currency = to_upper req.currency
    units ←
        or_raise (env.parse_units req.amount (decimals_for currency)) (thrown "invalid FixedNumber")
    balance ← vault_balance_of env from_wallet currency
    raise_if (ltb_ℤ (pos balance) units) (thrown "Insufficient vault balance")
    let is_fiat = text_eq settlement_type fiat
    let to_address = if is_fiat then env.config.treasury_address else req.destination
    raise_if (not (is_hex_address to_address))
        (thrown "Platform treasury address not configured for fiat settlement")
    revenue ← get_revenue_config
    let fee_bps = or_else req.fee_bps revenue.settlement_fee_bps
    tx ←
        if is_fiat
        then pay_fiat from_wallet units currency to_address (country_of merchant)
        else pay_onchain from_wallet units currency to_address
    pure (tx, fee_bps)

  unfoldable pub execute_settlement : SettlementRequestRow → Text → Action World (Unit {0})
  execute_settlement req settlement_type = do
    paid ← pay_out req settlement_type
    update_request req.id (
        set_executed paid.0 paid.1
          (calc_settlement_fee env.numbers (env.numbers.parse req.amount) paid.1))
