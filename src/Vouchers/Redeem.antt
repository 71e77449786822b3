-- ===== src/Vouchers/Redeem.antt =====
-- getChangeVoucherSummary and redeemChangeVoucher of server/src/changeVoucherService.ts.
use tende.Base.{
  ℕ, Action, Bool, Error, List, Option, Text, [], codes, false, gets, http, if◌then◌else◌, ltb,
  none, not, or_else, or_raise, pos_part, pure, raise, raise_if, some, text_eq, thrown, to_lower,
  true, ◌>>=◌, ◌>>◌,
}
use mathlib.Core.Option
use tende.Schema.{ChangeVoucherRow, VoucherStatus, MerchantRow}
use tende.World.{World, remote, clock}
use tende.Env.{Env, is_empty}
use tende.Treasury.{as_uint}
use tende.Vouchers.{big_int, execute_transfer, record_top_up, update_vouchers, Transfer}
use tende.Base.Rows.{find}

-- A voucher joined with its merchant.
pub record Joined : Type 0 where
  pub voucher : ChangeVoucherRow
  pub merchant : MerchantRow

unfoldable pub join_merchant : List MerchantRow → ChangeVoucherRow → Option Joined
join_merchant merchants v =
    Option.map (λ m. record { voucher = v; merchant = m })
      (find (λ m. text_eq m.merchant_id v.merchant_id) merchants)

unfoldable pub is_open : VoucherStatus → Bool
is_open VoucherStatus.pending = true
is_open VoucherStatus.claimed = false
is_open VoucherStatus.expired = false
is_open VoucherStatus.cancelled = false

-- Why a voucher that is not pending is refused.
unfoldable pub refusal : VoucherStatus → Error
refusal VoucherStatus.claimed = http 409 "This change voucher has already been claimed"
refusal VoucherStatus.pending = http 400 "This change voucher is no longer valid"
refusal VoucherStatus.expired = http 400 "This change voucher is no longer valid"
refusal VoucherStatus.cancelled = http 400 "This change voucher is no longer valid"

abbrev set_expired : ChangeVoucherRow → ChangeVoucherRow
set_expired v = record v { status = VoucherStatus.expired }

-- The mint that was made, if one was; `COALESCE` keeps the old one where there is none.
unfoldable pub mint_of : Option (ℕ × ℕ) → Option ℕ → Option ℕ
mint_of none old = old
mint_of (some m) old = some m.0

unfoldable pub set_claimed : Text → Transfer → ChangeVoucherRow → ChangeVoucherRow
set_claimed wallet t v = record v {
  status = VoucherStatus.claimed;
  recipient_wallet = some (to_lower wallet);
  debit_tx = some t.debit_tx;
  credit_tx = some t.credit_tx;
  mint_tx = mint_of (Option.bind t.top_up (λ i. i.mint)) v.mint_tx;
}

pub record Redeemed : Type 0 where
  pub voucher_id : ℕ
  pub amount : ℕ
  pub currency : Text
  pub debit_tx : ℕ
  pub credit_tx : ℕ

pub record Summary : Type 0 where
  pub voucher_id : ℕ
  pub status : VoucherStatus
  pub amount : Text
  pub currency : Text
  pub merchant_name : Text
  pub expires_at : ℕ
  pub is_expired : Bool

module _ (env : Env) where
  unfoldable pub find_joined : Text → Action World (Option Joined)
  find_joined secret = remote (
      gets (λ w.
        Option.bind
          (find (λ v. text_eq v.claim_secret_hash (env.hash secret)) w.store.change_vouchers)
          (join_merchant w.store.merchants)))

  -- `ethers.formatUnits(row.amount, …)` first makes a BigInt of the text.
  unfoldable pub summarize : Joined → Action World (Option Summary)
  summarize j = do
    units ← or_raise (big_int j.voucher.amount) (thrown "SyntaxError")
    now ← clock
    pure (
        some (record {
          voucher_id = j.voucher.voucher_id;
          status = j.voucher.status;
          amount =
              env.format_units (pos_part units)
                (if text_eq j.voucher.currency (codes "USDC") then 6 else 2);
          currency = j.voucher.currency;
          merchant_name = j.merchant.name;
          expires_at = j.voucher.expires_at;
          is_expired = ltb j.voucher.expires_at now;
        }))

  unfoldable pub summarize_found : Option Joined → Action World (Option Summary)
  summarize_found none = pure none
  summarize_found (some j) = summarize j

  unfoldable pub get_change_voucher_summary : Text → Action World (Option Summary)
  get_change_voucher_summary secret = do found ← find_joined secret; summarize_found found

  -- A voucher that is too old is marked so before it is refused.
  unfoldable pub refuse_expired : ChangeVoucherRow → ℕ → Action World (Unit {0})
  refuse_expired v now =
      if ltb v.expires_at now
      then (do
        update_vouchers v.voucher_id set_expired
        raise (http 410 "This change voucher has expired"))
      else pure tt

  unfoldable pub pay_voucher : Joined → Text → Text → Action World Redeemed
  pay_voucher j merchant_wallet consumer_wallet =
      let v = j.voucher in
      do
        units ← or_raise (big_int v.amount) (thrown "SyntaxError")
        amount ← as_uint units
        t ← execute_transfer env merchant_wallet consumer_wallet amount v.currency
        update_vouchers v.voucher_id (set_claimed consumer_wallet t)
        record_top_up (or_else v.store_number (codes "STORE")) v.voucher_id merchant_wallet
            v.currency t.top_up
        pure (record {
          voucher_id = v.voucher_id;
          amount = amount;
          currency = v.currency;
          debit_tx = t.debit_tx;
          credit_tx = t.credit_tx;
        })

  unfoldable pub redeem_change_voucher : Text → Text → Action World Redeemed
  redeem_change_voucher secret consumer_wallet = do
    found ← find_joined secret
    j ← or_raise found (http 404 "Change voucher not found")
    raise_if (not (is_open j.voucher.status)) (refusal j.voucher.status)
    now ← clock
    refuse_expired j.voucher now
    let wallet = or_else j.merchant.wallet_address []
    raise_if (is_empty wallet) (http 500 "Merchant wallet not configured")
    pay_voucher j wallet consumer_wallet
