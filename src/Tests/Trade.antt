-- ===== src/Tests/Trade.antt =====
-- A conversion, a shop's stores, and change that cannot be paid out.
use tende.Base.{
  List, [], any, codes, none, ok, refl, select, some, text_eq, to_upper, true, ◌∷◌, ◌≡◌, ◌≢◌, trim,
  trim_end, trim_start, to_lower, ◌*◌, ◌<◌, ◌^◌, ◌≤◌, ◌⊎◌,
}
use tende.World.{World}
use tende.World.Rules.{Ends}
use tende.World.Frames.{SameBase}
use tende.World.Returns.{Returns, Fails, IsOk}
use tende.Currency.{zar, usd, usdc, currency_decimals}
use tende.Schema.{MerchantStoreRow}
use tende.Conversion.{assert_allowed_conversion}
use tende.Conversion.Pairs.{Allowed, assert_allowed_conversion-Returns}
use tende.Conversion.Execute.{convert_fiat_to_usd}
use tende.Conversion.Moves.{IntoUsd, convert_fiat_to_usd-Returns}
use tende.Stores.{ensure_head_office_store, is_head_office}
use tende.Stores.HeadOffice.{
  HasOffice, ensure_head_office_store-Returns, ensure_head_office_store-again, org, office,
}
use tende.Stores.Corridors.{
  ProductCorridor, resolve_product_corridor, list_product_corridors, has_currency,
}
use tende.Stores.Choice.{Chosen, resolve_product_corridor-Returns}
use tende.Vouchers.Issue.{VoucherInput, prepare_change_voucher}
use tende.Vouchers.Redeem.{redeem_change_voucher}
use tende.Vouchers.Amounts.{prepare-redeem-Fails}
use tende.Tests.Setting.{alice}
use tende.Tests.Shop.{desk, market, shop, shop_id}
use tende.Base.Rows.{find}
use tende.Base.Assoc.{insert, lookup}
use tende.Sessions.{
  session_amount_within_caps, default_session_caps, within, normalize_vault_amount,
  session_cap_decimals, exceeded, per_tx,
}
use tende.Sessions.Caps.{session_amount_within_caps_lem}

assert_allowed_conversion-Returns_example :
    Returns
      (λ _ u. Allowed alice market (to_upper zar) (to_upper usd) × SameBase market u)
      (assert_allowed_conversion alice zar usd market)
assert_allowed_conversion-Returns_example = assert_allowed_conversion-Returns alice zar usd market

not_dollars : to_upper zar ≢ usdc
unfolding to_upper
not_dollars e = cc

convert_fiat_to_usd-Returns_example :
    Returns
      (λ r u. IntoUsd desk (codes "3") (to_upper zar) market.chain r u.chain)
      (convert_fiat_to_usd desk alice (codes "3") zar market)
convert_fiat_to_usd-Returns_example =
    convert_fiat_to_usd-Returns desk alice (codes "3") zar market not_dollars

ensure_head_office_store-Returns_example :
    Returns (λ r u. HasOffice shop_id market r u) (ensure_head_office_store shop_id market)
ensure_head_office_store-Returns_example = ensure_head_office_store-Returns shop_id market

abbrev office_row : MerchantStoreRow
office_row = record {
  store_id = 1 ∷ [];
  merchant_id = shop_id;
  store_code = codes "HO";
  name = codes "Head office";
  country_code = codes "ZA";
  currency_code = zar;
  is_active = true;
}

abbrev with_office : World
with_office = record market { store = record market.store { stores = office_row ∷ [] } }

known : org shop_id with_office ≡ some shop
unfolding find text_eq
known = refl

there : office shop_id with_office ≡ some office_row
unfolding find text_eq
there = refl

ensure_head_office_store-again_example :
    Ends
      (λ r u. (r ≡ some office_row) × SameBase with_office u)
      (λ u. SameBase with_office u)
      (ensure_head_office_store shop_id with_office)
ensure_head_office_store-again_example =
    ensure_head_office_store-again shop_id shop office_row with_office known there

session_amount_within_caps_lem_example :
    ((session_amount_within_caps 500001 zar default_session_caps ≡ within)
      × (500001 * 10 ^ session_cap_decimals
          ≤ default_session_caps.max_per_tx * 10 ^ currency_decimals zar))
    ⊎ ((session_amount_within_caps 500001 zar default_session_caps
          ≡ exceeded per_tx default_session_caps.max_per_tx (normalize_vault_amount 500001 zar))
        × (default_session_caps.max_per_tx * 10 ^ currency_decimals zar
            < 500001 * 10 ^ session_cap_decimals))
session_amount_within_caps_lem_example =
    session_amount_within_caps_lem 500001 zar default_session_caps

over_the_cap :
    session_amount_within_caps 500001 zar default_session_caps
    ≡ exceeded per_tx 5000000000 5000010000
unfolding session_amount_within_caps default_session_caps normalize_vault_amount currency_decimals
    session_cap_decimals to_upper text_eq
over_the_cap = refl

resolve_product_corridor-Returns_example :
    Returns
      (λ c u.
        (corridors : List ProductCorridor) × ((list_product_corridors shop_id with_office).0
          ≡ ok corridors)
        × (c.currency_code ≡ to_upper zar)
        × Chosen (select (has_currency (to_upper zar)) corridors) [] c)
      (resolve_product_corridor shop_id zar none with_office)
resolve_product_corridor-Returns_example =
    resolve_product_corridor-Returns shop_id zar none with_office

abbrev change : VoucherInput
change = record {
  merchant_id = shop_id;
  member_id = none;
  amount = codes "3";
  product_id = none;
  store_id = 1 ∷ [];
  till_number = none;
}

prepare-redeem-Fails_example :
    Fails (redeem_change_voucher desk [] alice (prepare_change_voucher desk change with_office).1)
prepare-redeem-Fails_example = prepare-redeem-Fails desk change [] alice with_office (λ n. refl) tt

allowed : IsOk (assert_allowed_conversion alice zar usd market)
unfolding assert_allowed_conversion tende.Conversion.home_fiat_for_wallet tende.World.remote
    tende.Currency.spend_currency_for_country tende.Conversion.is_usd_code text_eq to_upper
    tende.Conversion.require_corridor tende.Currency.treasury_corridor_for_fiat find
allowed = tt

converted : IsOk (convert_fiat_to_usd desk alice (codes "3") zar market)
unfolding convert_fiat_to_usd tende.Conversion.Execute.parse_amount tende.Treasury.vault_balance_of
    tende.World.remote tende.World.on_vault tende.Vault.unified_balance
    tende.Vault.convert_to_assets tende.Vault.pool tende.Base.Assoc.lookup text_eq to_upper
    tende.Vault.checked tende.Base.to_lower tende.Fx.get_rate tende.Fx.get_override tende.Fx.quote
    find tende.Conversion.Execute.usable_rate tende.Base.Assoc.insert trim_start
    tende.Conversion.Execute.after_spread tende.Conversion.Execute.conclude
    tende.Conversion.Execute.floor_units tende.Conversion.Execute.new_conversion_reference
    tende.Conversion.Execute.persist_conversion tende.Conversion.Execute.row_of
    tende.Currency.currency_decimals tende.Fx.answer tende.Fx.cache_key tende.Fx.fetch_live
    tende.Fx.is_zim_code tende.Fx.quote_cached tende.Fx.quote_live tende.Fx.to_provider_code
    tende.Revenue.digits_value tende.Revenue.get_revenue_config tende.Revenue.load_config
    tende.Revenue.negate tende.Revenue.non_negative tende.Revenue.parse_bps
    tende.Revenue.parse_digits tende.Revenue.parse_int tende.Revenue.parse_signed
    tende.Revenue.read_config tende.Revenue.serve tende.Treasury.Reserves.usdc_reserve_units
    tende.Treasury.vault_admin_credit tende.Treasury.vault_admin_debit tende.Vault.admin_credit
    tende.Vault.admin_debit tende.Vault.convert_to_shares tende.Vault.credit_assets
    tende.Vault.debit_assets tende.Vault.set_pool tende.World.clock tende.World.deliver
    tende.World.pass_time tende.World.schedule tende.World.set_memory tende.World.set_store
    tende.World.transact
converted = tt

ensured : IsOk (ensure_head_office_store shop_id market)
unfolding ensure_head_office_store tende.Stores.find_org tende.World.remote tende.Stores.ensure_for
    find text_eq tende.Stores.insert_store tende.World.fresh_id
ensured = tt

resolved : IsOk (resolve_product_corridor shop_id zar none with_office)
unfolding resolve_product_corridor list_product_corridors ensure_head_office_store
    tende.Stores.find_org tende.World.remote tende.Stores.ensure_for find text_eq
    tende.Stores.Corridors.or_org tende.Stores.Corridors.distinct_corridors
    tende.Stores.Corridors.add_corridor tende.Stores.Corridors.choose_corridor to_upper
resolved = tt

issued : IsOk (prepare_change_voucher desk change with_office)
unfolding prepare_change_voucher tende.Vouchers.load_merchant tende.World.remote find text_eq
    tende.Vouchers.Issue.resolve_store_context tende.Base.trim tende.Base.trim_end
    tende.Base.trim_start tende.Stores.resolve_store_for_merchant tende.Stores.scope_of
    tende.Vouchers.Issue.parse_voucher_amount tende.Vouchers.Issue.validate_product
    tende.World.clock tende.Vouchers.Issue.insert_voucher tende.World.fresh_id
issued = tt
