-- ===== src/Schema/People.antt =====
-- Consumers, their KYC levels and credentials (db/001_initial_schema.sql, db/038), countries and
-- treasury tokens.
use tende.Base.{ℕ, Bool, Option, Text}

pub record ConsumerRow : Type 0 where
  pub consumer_id : Text
  pub wallet_address : Option Text
  pub kyc_level_id : ℕ
  pub country_code : Text

pub record MerchantRow : Type 0 where
  pub merchant_id : Text
  pub name : Text
  pub wallet_address : Option Text
  pub currency_code : Text
  pub settlement_currency : Option Text
  pub settlement_type : Text
  pub country_code : Text

pub record KycLevelRow : Type 0 where
  pub level_id : ℕ
  pub level_name : Text
  pub max_single_tx : Option ℕ
  pub max_daily_send : Option ℕ
  pub max_monthly_spend : Option ℕ

pub record CredentialRow : Type 0 where
  pub credential_id : Text
  pub wallet_address : Text
  pub pub_key_x : ℕ
  pub pub_key_y : ℕ
  pub sign_count : ℕ

-- `countries`, with what the services read of it.
pub record CountryRow : Type 0 where
  pub country_code : Text
  pub currency_code : Text
  pub is_active : Bool

-- `stablecoins` joined with `currencies` on the internal code.
pub record StablecoinRow : Type 0 where
  pub internal_code : Text
  pub base_currency_code : Text
  pub is_treasury_token : Bool
  pub is_deployed : Bool
  pub is_primary : Bool
  pub contract_address : Option Text
