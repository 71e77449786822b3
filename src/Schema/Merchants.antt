-- ===== src/Schema/Merchants.antt =====
-- Merchants' stores and members, what they accept and how they are paid out (db/013, db/023, db/032), and
-- consumers' conversions (db/019).
use tende.Base.{ℕ, Bool, Option, Text}
use tende.Schema.Money.{Number}

pub record MerchantStoreRow : Type 0 where
  pub store_id : Text
  pub merchant_id : Text
  pub store_code : Text
  pub name : Text
  pub country_code : Text
  pub currency_code : Text
  pub is_active : Bool

pub record MemberRow : Type 0 where
  pub id : ℕ
  pub merchant_id : Text
  pub store_scope : Option Text

pub record AcceptedCurrency : Type 0 where
  pub merchant_id : Text
  pub currency_code : Text

pub data SettlementStatus : Type 0 where
  pending approved rejected executed failed : SettlementStatus

-- `amount` is the text that the column gives back.
pub record SettlementRequestRow : Type 0 where
  pub id : ℕ
  pub merchant_id : Text
  pub requested_by : ℕ
  pub amount : Text
  pub currency : Text
  pub destination : Text
  pub status : SettlementStatus
  pub approved_by : Option ℕ
  pub executed_tx_hash : Option ℕ
  pub fee_bps : Option ℕ
  pub fee_amount : Option Number
  pub net_amount : Option Number

-- `merchant_settlement_config`, its amount as the text that the column gives back.
pub record SettlementConfig : Type 0 where
  pub merchant_id : Text
  pub threshold_amount : Text
  pub threshold_currency : Option Text
  pub require_approval : Bool

-- `merchant_offramp_config`, with what the services read of it.
pub record OfframpRow : Type 0 where
  pub merchant_id : Text
  pub bank_name : Option Text
  pub bank_account_number : Option Text
  pub is_active : Bool

pub record ConversionRow : Type 0 where
  pub wallet : Text
  pub from_currency : Text
  pub to_currency : Text
  pub from_amount : ℕ
  pub to_amount : ℕ
  pub rate : Number
  pub spread_bps : ℕ
  pub fee_amount : ℕ
  pub fee_currency : Text
  pub debit_tx : ℕ
  pub credit_tx : ℕ
  pub reference : Text
  pub mint_tx : Option ℕ

-- `products`, with what the services read of it; prices are the texts that the columns give back.
pub record ProductRow : Type 0 where
  pub product_id : Text
  pub merchant_id : Text
  pub delivery_type : Text
  pub currency_code : Text
  pub is_fixed_price : Bool
  pub price : Option Text
  pub min_price : Option Text
  pub max_price : Option Text
  pub is_active : Bool
