-- ===== src/Tests/Shop.antt =====
-- A world with a shop: a merchant with a request for a payout and a sale in escrow, a currency with its
-- treasury token, and enough in the vault.
use tende.Base.{Text, [], codes, none, pos, some, true, ◌∷◌}
use tende.Schema.{
  MerchantRow, CountryRow, StablecoinRow, SettlementRequestRow, SettlementStatus, SaleRow,
  SaleStatus, double,
}
use tende.World.{World, Store}
use tende.Vault.{Vault}
use tende.Env.{Env}
use tende.Currency.{zar, usd}
use tende.Settlement.{Member, Role, fiat}
use tende.Tests.Setting.{env, world, vault, alice, escrow, usdc_token}

abbrev pub desk : Env
desk = record env { parse_units = λ s d. some (pos 300) }

abbrev pub shop_id : Text
shop_id = codes "m"

abbrev pub head : Member
head = record { member_id = 7; merchant_id = shop_id; role = Role.org_admin }

abbrev pub clerk : Member
clerk = record { member_id = 8; merchant_id = shop_id; role = Role.cashier }

abbrev pub shop : MerchantRow
shop = record {
  merchant_id = shop_id;
  name = codes "Shop";
  wallet_address = some alice;
  currency_code = zar;
  settlement_currency = none;
  settlement_type = fiat;
  country_code = codes "ZA";
}

abbrev pub payout : SettlementRequestRow
payout = record {
  id = 1;
  merchant_id = shop_id;
  requested_by = 8;
  amount = codes "3.00";
  currency = zar;
  destination = codes "bank";
  status = SettlementStatus.pending;
  approved_by = none;
  executed_tx_hash = none;
  fee_bps = some 150;
  fee_amount = none;
  net_amount = none;
}

abbrev pub sale_row : SaleRow
sale_row = record {
  sale_id = 5;
  merchant_id = some shop_id;
  merchant_wallet = alice;
  consumer_wallet = some (codes "0xcc");
  amount = codes "3.00";
  currency = zar;
  status = SaleStatus.pending_fulfilment;
  fulfilment_status = none;
  fulfilment_url = none;
  fulfilment_error = none;
  release_tx = none;
}

abbrev country : CountryRow
country = record { country_code = codes "ZA"; currency_code = zar; is_active = true }

abbrev coin : StablecoinRow
coin = record {
  internal_code = codes "TTZA";
  base_currency_code = zar;
  is_treasury_token = true;
  is_deployed = true;
  is_primary = true;
  contract_address = some (codes "0x04");
}

abbrev full_vault : Vault
full_vault = record vault {
  pools =
      (
        zar,
        record {
          shares = (alice, 6000) ∷ (escrow, 4000) ∷ [];
          total_shares = 10000;
          total_assets = 10000;
        },
      )
      ∷ [];
  holdings = (usdc_token, 9000000) ∷ (codes "0x04", 500) ∷ [];
}

abbrev stock : Store
stock = record world.store {
  merchants = shop ∷ [];
  countries = country ∷ [];
  stablecoins = coin ∷ [];
  fx_overrides = record { from_currency = zar; to_currency = usd; rate = double 2 } ∷ [];
  settlement_requests = payout ∷ [];
  sales = sale_row ∷ [];
}

abbrev pub market : World
market = record world { chain = record world.chain { vault = full_vault }; store = stock }
