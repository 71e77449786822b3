-- ===== src/Vouchers/Issue.antt =====
-- prepareChangeVoucher of server/src/changeVoucherService.ts, and the check of a voucher's product. The
-- payload of the QR code and the link repeat what the answer holds and are left out.
use tende.Base.{
  ℕ, Action, Bool, List, Option, Text, [], codes, false, gets, http, if◌then◌else◌, leb_ℤ, none,
  not, or_else, or_raise, pos, pos_part, pure, raise_if, some, text_eq, thrown, to_upper, trim,
  true, ◌&&◌, ◌++◌, ◌+◌, ◌>>=◌, ◌>>◌, ◌∷◌,
}
use tende.Schema.{
  ChangeVoucherRow, VoucherStatus, DeliveryMode, ProductRow, MerchantStoreRow, Number,
}
use tende.World.{World, remote, set_store, fresh_id, clock}
use tende.Env.{Env, is_empty, Numbers}
use tende.Currency.{currency_decimals}
use tende.Stores.{resolve_store_for_merchant}
use tende.Vouchers.{load_merchant, voucher_ttl_ms}
use tende.Base.Rows.{find}

-- `fromMinorUnits` of productHelpers.ts
unfoldable pub from_minor_units : Numbers → Option Text → Option Number
from_minor_units n minor =
    let text = or_else minor [] in
    if is_empty text then none else some (n.div (n.parse text) (n.literal 100))

-- `===` of numbers
abbrev same_number : Numbers → Number → Number → Bool
same_number n a b = n.le a b && n.le b a

-- A fixed price whose bounds are the price itself.
unfoldable pub exact_denomination :
    Numbers → Bool → Option Number → Option Number → Option Number → Option Number
exact_denomination n true (some p) (some lo) (some hi) =
    if same_number n p lo && same_number n lo hi then some p else none
exact_denomination n true none lo hi = none
exact_denomination n true (some p) none hi = none
exact_denomination n true (some p) (some lo) none = none
exact_denomination n false p lo hi = none

abbrev below : Numbers → Number → Option Number → Bool
below n amount bound = elim bound [ none ↦ false | some b ↦ n.lt amount b ]

abbrev above : Numbers → Number → Option Number → Bool
above n amount bound = elim bound [ none ↦ false | some b ↦ n.lt b amount ]

abbrev differs : Numbers → Number → Option Number → Bool
differs n amount exact = elim exact [ none ↦ false | some p ↦ not (same_number n amount p) ]

unfoldable pub check_price : {S : Type 0} → Numbers → ProductRow → Number → Action S (Unit {0})
check_price n p amount =
    let price = from_minor_units n p.price in
    let lo = from_minor_units n p.min_price in
    let hi = from_minor_units n p.max_price in
    do
      raise_if (differs n amount (exact_denomination n p.is_fixed_price price lo hi))
          (http 400 "Amount must be the product's price")
      raise_if (below n amount lo) (http 400 "Amount is below the minimum")
      raise_if (above n amount hi) (http 400 "Amount is above the maximum")

unfoldable pub find_product : Text → Text → List ProductRow → Option ProductRow
find_product product_id merchant_id rows =
    find
      (λ p. text_eq p.product_id product_id && (text_eq p.merchant_id merchant_id && p.is_active))
      rows

pub record VoucherInput : Type 0 where
  pub merchant_id : Text
  pub member_id : Option ℕ
  pub amount : Text
  pub product_id : Option Text
  pub store_id : Text
  pub till_number : Option Text

pub record PreparedVoucher : Type 0 where
  pub voucher_id : ℕ
  pub secret : Text
  pub amount : ℕ
  pub currency : Text
  pub merchant_name : Text
  pub expires_at : ℕ

module _ (env : Env) where
  -- No product is asked for by an empty identifier.
  unfoldable pub validate_product : Text → Option Text → ℕ → Text → Action World (Unit {0})
  validate_product merchant_id product_id amount currency =
      let id = or_else product_id [] in
      if is_empty id then pure tt else (do
        found ← remote (gets (λ w. find_product id merchant_id w.store.products))
        p ← or_raise found (http 404 "Product not found")
        raise_if (not (text_eq p.delivery_type (codes "VOUCHER")))
            (http 400 "Product must be delivery type VOUCHER")
        raise_if (not (text_eq p.currency_code currency)) (http 400 "Product currency differs")
        check_price env.numbers p (env.numbers.of_units amount (currency_decimals currency)))

  unfoldable pub resolve_store_context : VoucherInput → Action World MerchantStoreRow
  resolve_store_context p = do
    raise_if (is_empty (trim p.store_id)) (http 400 "storeId required")
    resolve_store_for_merchant p.merchant_id (trim p.store_id) p.member_id

  unfoldable pub parse_voucher_amount : Text → Text → Action World ℕ
  parse_voucher_amount amount currency = do
    units ←
        or_raise (env.parse_units amount (currency_decimals currency))
          (thrown "invalid FixedNumber")
    raise_if (leb_ℤ units (pos 0)) (http 400 "Amount must be positive")
    pure (pos_part units)

  unfoldable pub voucher_row :
      VoucherInput → MerchantStoreRow → Text → ℕ → Text → ℕ → ℕ → ChangeVoucherRow
  voucher_row p store currency units secret expires_at id = record {
    voucher_id = id;
    merchant_id = p.merchant_id;
    amount = env.numeric_8 units;
    currency = currency;
    status = VoucherStatus.pending;
    delivery_mode = DeliveryMode.qr;
    recipient_wallet = none;
    recipient_tag = none;
    claim_secret_hash = env.hash secret;
    store_id = store.store_id;
    store_number = some store.store_code;
    product_id = p.product_id;
    till_number = p.till_number;
    issued_by_member_id = p.member_id;
    debit_tx = none;
    credit_tx = none;
    mint_tx = none;
    expires_at = expires_at;
  }

  unfoldable pub insert_voucher :
      VoucherInput → MerchantStoreRow → Text → ℕ → Text → ℕ → Action World ℕ
  insert_voucher p store currency units secret expires_at = remote (do
    id ← fresh_id
    set_store (λ s. record s {
      change_vouchers =
          s.change_vouchers ++ voucher_row p store currency units secret expires_at id ∷ [];
    })
    pure id)

  -- The secret is drawn from sixteen random bytes.
  unfoldable pub prepare_change_voucher : VoucherInput → Action World PreparedVoucher
  prepare_change_voucher p = do
    merchant ← load_merchant p.merchant_id
    store ← resolve_store_context p
    let currency = to_upper store.currency_code
    units ← parse_voucher_amount p.amount currency
    validate_product p.merchant_id p.product_id units currency
    now ← clock
    let secret = env.random_hex now 16
    let expires_at = now + voucher_ttl_ms
    id ← insert_voucher p store currency units secret expires_at
    pure (record {
      voucher_id = id;
      secret = secret;
      amount = units;
      currency = currency;
      merchant_name = merchant.0.name;
      expires_at = expires_at;
    })
