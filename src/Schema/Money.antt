-- ===== src/Schema/Money.antt =====
-- Spending, withdrawals, deposits and exchange rates (db/038 and its neighbours; the interfaces
-- of server/src).
use tende.Base.{ℕ, Option, Text}

-- A JavaScript number, by the bits of its IEEE 754 double.
pub data Number : Type 0 where
  double : ℕ → Number

pub data SpendType : Type 0 where
  p2p purchase withdrawal escrow remittance : SpendType

pub record SpendEvent : Type 0 where
  pub consumer_id : Text
  pub wallet_address : Text
  pub spend_type : SpendType
  pub currency : Text
  pub amount_units : ℕ
  pub amount_limit_units : ℕ
  pub counterparty : Option Text
  pub tx_hash : Option ℕ
  pub created_at : ℕ

pub record TravelRuleBeneficiary : Type 0 where
  pub full_name : Text
  pub id_number : Option Text
  pub phone : Option Text
  pub country : Option Text
  pub relationship : Option Text

pub record PendingWithdrawal : Type 0 where
  pub withdrawal_id : ℕ
  pub consumer_id : Text
  pub from_wallet : Text
  pub to_address : Text
  pub gross_units : ℕ
  pub fee_units : ℕ
  pub net_units : ℕ
  pub fee_bps : ℕ
  pub challenge : Text
  pub amount_limit_units : ℕ
  pub beneficiary : TravelRuleBeneficiary
  pub expiry : ℕ

pub data WithdrawalStatus : Type 0 where
  pending executed failed : WithdrawalStatus

pub record WithdrawalRow : Type 0 where
  pub id : ℕ
  pub consumer_id : Text
  pub from_wallet : Text
  pub to_address : Text
  pub gross_units : ℕ
  pub fee_units : ℕ
  pub net_units : ℕ
  pub fee_bps : ℕ
  pub status : WithdrawalStatus
  pub beneficiary : TravelRuleBeneficiary
  pub withdraw_tx : Option ℕ
  pub fee_debit_tx : Option ℕ
  pub fee_credit_tx : Option ℕ

pub data ReferenceKind : Type 0 where
  voucher bank_deposit change_voucher : ReferenceKind

pub data ReferenceSource : Type 0 where
  consumer admin merchant : ReferenceSource

pub record DepositReference : Type 0 where
  pub id : ℕ
  pub reference : Text
  pub kind : ReferenceKind
  pub source : ReferenceSource
  pub wallet : Text
  pub amount : ℕ
  pub currency : Text
  pub mint_tx : Option ℕ
  pub credit_tx : Option ℕ

pub record FxOverride : Type 0 where
  pub from_currency : Text
  pub to_currency : Text
  pub rate : Number

pub data FxSource : Type 0 where
  override zimrate majors unavailable : FxSource

pub record CacheEntry : Type 0 where
  pub rate : Number
  pub source : FxSource
  pub expires_at : ℕ
  pub as_of : ℕ

pub record RevenueConfig : Type 0 where
  pub fx_spread_bps : ℕ
  pub settlement_fee_bps : ℕ
  pub withdrawal_fee_bps : ℕ

pub record CachedRevenue : Type 0 where
  pub cfg : RevenueConfig
  pub expires_at : ℕ
