-- ===== src/Tests/Payouts.antt =====
-- A payout that is asked for, approved, refused and executed.
use tende.Base.{
  codes, false, none, refl, some, text_eq, to_lower, to_upper, ℤ, ◌≡◌, is_hex_address, trim,
  trim_end, trim_start,
}
use tende.World.Rules.{Ends}
use tende.World.Frames.{SameBase}
use tende.World.Returns.{Returns, IsOk}
use tende.Settlement.{Role, find_merchant, decimals_for, meta_of, fiat}
use tende.Settlement.Requests.{approve_request, reject_request, create_request, PayoutRequest}
use tende.Settlement.Decisions.{
  Decidable, approve_request_refused, reject_request-Returns, Rejected,
}
use tende.Settlement.Approval.{approved_status, paid_onchain, approve_request-Returns}
use tende.Settlement.Creation.{Recorded, create_request-Returns}
use tende.Settlement.Pay.{execute_settlement}
use tende.Settlement.Backing.{PaysOut, execute_settlement-PaysOut, Outside}
use tende.Tests.Shop.{desk, head, clerk, shop_id, payout, market}
use tende.Base.Rows.{find, update_where, newest_first}
use tende.Currency.{zar}
use tende.Base.Assoc.{insert, lookup}

approve_request-Returns_example :
    Returns
      (λ r u.
        Decidable head 1 market.store.settlement_requests
        × (r.id ≡ 1)
        × (r.status ≡ approved_status (paid_onchain shop_id market))
        × (r.approved_by ≡ some 7))
      (approve_request desk head 1 market)
approve_request-Returns_example = approve_request-Returns desk head 1 market

approve_request_refused_example :
    Ends (λ _ _. ⊥) (λ u. SameBase market u) (approve_request desk clerk 1 market)
approve_request_refused_example = approve_request_refused desk clerk 1 market (λ d. cc (d.asker))

reject_request-Returns_example :
    Returns (λ r u. Rejected head 1 r market u) (reject_request head 1 market)
reject_request-Returns_example = reject_request-Returns head 1 market

abbrev asked : PayoutRequest
asked = record {
  amount = codes "3.00";
  currency = zar;
  destination = none;
  bank_reference = some (codes "ref");
}

paid_in_fiat : paid_onchain shop_id market ≡ false
unfolding find_merchant find meta_of text_eq
paid_in_fiat = refl

create_request-Returns_example :
    Returns
      (λ r u. Recorded head market.store.settlement_requests r u × (u.chain ≡ market.chain))
      (create_request desk head asked market)
create_request-Returns_example = create_request-Returns desk head asked market paid_in_fiat

outside : Outside desk desk.config.treasury_address
unfolding text_eq to_lower
outside = refl

execute_settlement-PaysOut_example :
    Returns
      (λ _ u.
        (units : ℤ) × (desk.parse_units payout.amount (decimals_for (to_upper zar)) ≡ some units)
        × PaysOut (to_upper zar) units market u)
      (execute_settlement desk payout fiat market)
execute_settlement-PaysOut_example = execute_settlement-PaysOut desk payout market outside

approved : IsOk (approve_request desk head 1 market)
unfolding approve_request tende.Settlement.Requests.approve tende.Settlement.require_org_admin
    tende.World.remote tende.Settlement.Requests.find_request find text_eq
    tende.Settlement.Pay.update_request tende.World.set_store tende.Settlement.get_merchant_meta
    tende.Settlement.Requests.execute_approved meta_of find_merchant
    tende.Settlement.Requests.reread tende.Base.Rows.update_where tende.Settlement.Requests.decide
approved = tt

rejected : IsOk (reject_request head 1 market)
unfolding reject_request tende.Settlement.require_org_admin tende.World.remote tende.World.set_store
    find text_eq
rejected = tt

created : IsOk (create_request desk head asked market)
unfolding create_request tende.Settlement.Requests.create tende.Settlement.get_merchant_meta
    tende.World.remote tende.Settlement.Requests.choose_destination text_eq meta_of find_merchant
    find tende.Base.trim tende.Base.trim_end tende.Base.trim_start tende.Revenue.get_revenue_config
    tende.Revenue.serve tende.Revenue.load_config tende.World.clock tende.World.set_memory
    tende.Settlement.Requests.insert_request tende.Base.Assoc.insert tende.Base.Assoc.lookup
    tende.Base.Rows.newest_first update_where tende.Base.is_hex_address to_lower to_upper
    tende.Revenue.calc_settlement_fee tende.Revenue.digits_value tende.Revenue.negate
    tende.Revenue.non_negative tende.Revenue.parse_bps tende.Revenue.parse_digits
    tende.Revenue.parse_int tende.Revenue.parse_signed tende.Revenue.read_config
    tende.Settlement.Pay.country_of execute_settlement tende.Settlement.Pay.pay_fiat
    tende.Settlement.Pay.pay_onchain tende.Settlement.Pay.pay_out tende.Settlement.Pay.set_executed
    tende.Settlement.Pay.update_request tende.Settlement.Pay.wallet_of
    tende.Settlement.Requests.conclude tende.Settlement.Requests.execute_or_fail
    tende.Settlement.Requests.fiat_destination tende.Settlement.Requests.request_of
    tende.Settlement.Requests.reread tende.Settlement.bank_payout_label decimals_for
    tende.Settlement.last_4 tende.Settlement.payout_label tende.Treasury.Reserves.forced_transfer
    tende.Treasury.Reserves.sweep_treasury_from_vault tende.Treasury.address_of
    tende.Treasury.as_uint tende.Treasury.country_currency tende.Treasury.resolve_treasury_token
    tende.Treasury.treasury_token_balance tende.Treasury.treasury_token_for_country
    tende.Treasury.vault_admin_debit tende.Treasury.vault_balance_of tende.Treasury.vault_withdraw
    tende.Vault.admin_debit tende.Vault.checked tende.Vault.convert_to_assets
    tende.Vault.convert_to_shares tende.Vault.debit_assets tende.Vault.pool tende.Vault.set_pool
    tende.Vault.unified_balance tende.Vault.withdraw_to_external
    tende.Withdrawal.Prepare.vault_backing_token_for_currency tende.World.deliver
    tende.World.fresh_id tende.World.on_vault tende.World.pass_time tende.World.schedule
    tende.World.set_store tende.World.transact
created = tt

executed : IsOk (execute_settlement desk payout fiat market)
unfolding execute_settlement tende.Settlement.Pay.pay_out tende.World.remote
    tende.Settlement.Pay.wallet_of find_merchant find text_eq tende.Treasury.vault_balance_of
    tende.World.on_vault tende.Vault.unified_balance tende.Vault.convert_to_assets tende.Vault.pool
    tende.Base.Assoc.lookup to_upper tende.Vault.checked to_lower tende.Base.is_hex_address
    tende.Revenue.get_revenue_config tende.Base.Assoc.insert update_where tende.Base.trim_start
    tende.Revenue.calc_settlement_fee tende.Revenue.digits_value tende.Revenue.load_config
    tende.Revenue.negate tende.Revenue.non_negative tende.Revenue.parse_bps
    tende.Revenue.parse_digits tende.Revenue.parse_int tende.Revenue.parse_signed
    tende.Revenue.read_config tende.Revenue.serve tende.Settlement.Pay.country_of
    tende.Settlement.Pay.pay_fiat tende.Settlement.Pay.pay_onchain tende.Settlement.Pay.set_executed
    tende.Settlement.Pay.update_request decimals_for tende.Treasury.Reserves.forced_transfer
    tende.Treasury.Reserves.sweep_treasury_from_vault tende.Treasury.address_of
    tende.Treasury.as_uint tende.Treasury.country_currency tende.Treasury.resolve_treasury_token
    tende.Treasury.treasury_token_balance tende.Treasury.treasury_token_for_country
    tende.Treasury.vault_admin_debit tende.Treasury.vault_withdraw tende.Vault.admin_debit
    tende.Vault.convert_to_shares tende.Vault.debit_assets tende.Vault.set_pool
    tende.Vault.withdraw_to_external tende.Withdrawal.Prepare.vault_backing_token_for_currency
    tende.World.clock tende.World.deliver tende.World.pass_time tende.World.schedule
    tende.World.set_memory tende.World.set_store tende.World.transact
executed = tt
