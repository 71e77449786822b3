-- ===== src/Schema/Payments.antt =====
-- Escrow claims, change vouchers and merchant sales (db/031 and its neighbours; the interfaces of
-- server/src).
use tende.Base.{ℕ, Option, Text}

pub data ClaimStatus : Type 0 where
  pending claimed reclaimed : ClaimStatus

pub record PendingClaim : Type 0 where
  pub id : ℕ
  pub secret_hash : Text
  pub sender_wallet : Text
  pub recipient_phone : Text
  pub amount : ℕ
  pub currency : Text
  pub status : ClaimStatus
  pub escrow_tx : Text
  pub release_tx : Option ℕ
  pub claimed_by : Option Text
  pub expires_at : ℕ

pub data FulfilmentStatus : Type 0 where
  pending success failed : FulfilmentStatus

pub data SaleStatus : Type 0 where
  pending_fulfilment paid refunded other_status : SaleStatus

pub record SaleRow : Type 0 where
  pub sale_id : ℕ
  pub merchant_id : Option Text
  pub merchant_wallet : Text
  pub consumer_wallet : Option Text
  pub amount : Text
  pub currency : Text
  pub status : SaleStatus
  pub fulfilment_status : Option FulfilmentStatus
  pub fulfilment_url : Option Text
  pub fulfilment_error : Option Text
  pub release_tx : Option ℕ

-- A release of escrow that has been started and runs by itself.
pub record ReleaseJob : Type 0 where
  pub sale_id : ℕ
  pub to_wallet : Text
  pub amount_units : ℕ
  pub currency : Text
  pub paid_status : SaleStatus

-- What waits to run: an inquiry that `setImmediate` was given, one that has read the sale, one that waits
-- for the service's answer about the sale and its units, and a release.
pub data Task : Type 0 where
  fulfil : ℕ → Task
  ask : SaleRow → Task
  hear : SaleRow → ℕ → Task
  release : ReleaseJob → Task

pub data VoucherStatus : Type 0 where
  pending claimed expired cancelled : VoucherStatus

pub data DeliveryMode : Type 0 where
  qr tag : DeliveryMode

-- `amount` is the text that the column gives back.
pub record ChangeVoucherRow : Type 0 where
  pub voucher_id : ℕ
  pub merchant_id : Text
  pub amount : Text
  pub currency : Text
  pub status : VoucherStatus
  pub delivery_mode : DeliveryMode
  pub recipient_wallet : Option Text
  pub recipient_tag : Option Text
  pub claim_secret_hash : Text
  pub store_id : Text
  pub store_number : Option Text
  pub product_id : Option Text
  pub till_number : Option Text
  pub issued_by_member_id : Option ℕ
  pub debit_tx : Option ℕ
  pub credit_tx : Option ℕ
  pub mint_tx : Option ℕ
  pub expires_at : ℕ
