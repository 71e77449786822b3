-- ===== src/Vouchers.antt =====
-- server/src/changeVoucherService.ts: change that a merchant owes a consumer, issued as a voucher with a
-- secret and paid out where the secret is shown. The texts for display are left out. Sending change to a
-- payment tag, which resolves the tag on the chain, is not modelled.
pub mod Issue
pub mod Redeem
pub mod Amounts
use tende.Base.{
  ℕ, Action, Bool, Option, Text, [], codes, every, gets, http, if◌then◌else◌, is_digit, ltb, map,
  none, not, or_else, or_raise, pos, pure, raise_if, some, sub_ℕ, text_eq, thrown, to_lower,
  to_upper, trim, ℤ, ◌*◌, ◌++◌, ◌-◌, ◌==◌, ◌>>=◌, ◌>>◌, ◌∷◌,
}
use mathlib.Core.Option
use tende.Schema.{ChangeVoucherRow, DepositReference, ReferenceKind, ReferenceSource, MerchantRow}
use tende.World.{World, remote, set_store, fresh_id}
use tende.Env.{Env, is_empty}
use tende.Treasury.{
  vault_balance_of, vault_admin_debit, vault_admin_credit, credit_fiat_with_treasury_backing,
  Issuance,
}
use tende.Revenue.{digits_value}
use tende.CashIn.{is_used}
use tende.Base.Rows.{find, update_where}

abbrev pub voucher_ttl_ms : ℕ
voucher_ttl_ms = 15 * 60 * 1000

-- `BigInt(text)` of decimal digits with or without a sign; anything else throws. Literals with a prefix,
-- which no column gives back, are left out.
unfoldable pub natural : Text → Option ℕ
natural s = if every is_digit s then some (digits_value 0 s) else none

unfoldable pub signed : Text → Option ℤ
unfolding natural
signed [] = some (pos 0)
signed (c ∷ s) =
    if c == b'-'
    then Option.map (sub_ℕ 0) (natural s)
    else if c == b'+'
    then Option.map pos (natural s)
    else Option.map pos (natural (c ∷ s))

unfoldable pub big_int : Text → Option ℤ
unfolding signed
big_int s = signed (trim s)

-- A merchant with a wallet.
unfoldable pub load_merchant : Text → Action World (MerchantRow × Text)
load_merchant merchant_id = do
  found ← remote (gets (λ w. find (λ m. text_eq m.merchant_id merchant_id) w.store.merchants))
  m ← or_raise found (http 404 "Merchant not found")
  let wallet = or_else m.wallet_address []
  raise_if (is_empty wallet) (http 400 "Merchant has no wallet address configured")
  pure (m, wallet)

pub record Transfer : Type 0 where
  pub debit_tx : ℕ
  pub credit_tx : ℕ
  pub top_up : Option Issuance

module _ (env : Env) where
  -- A merchant's balance that is short is topped up first.
  unfoldable pub top_up_merchant : Text → ℕ → ℕ → Text → Action World (Option Issuance)
  top_up_merchant merchant_wallet balance amount currency =
      if ltb balance amount
      then (do
        issued ← credit_fiat_with_treasury_backing env merchant_wallet (amount - balance) currency
        pure (some issued))
      else pure none

  unfoldable pub execute_transfer : Text → Text → ℕ → Text → Action World Transfer
  execute_transfer merchant_wallet consumer_wallet amount currency = do
    balance ← vault_balance_of env merchant_wallet currency
    top_up ← top_up_merchant merchant_wallet balance amount currency
    debit_tx ← vault_admin_debit env merchant_wallet amount currency
    credit_tx ← vault_admin_credit env consumer_wallet amount currency
    pure (record { debit_tx = debit_tx; credit_tx = credit_tx; top_up = top_up })

unfoldable pub change_voucher_mint_reference : Text → ℕ → Text
change_voucher_mint_reference store_number voucher_id =
    trim (if is_empty store_number then codes "STORE" else store_number)
    ++ codes "/CV-"
    ++ voucher_id ∷ []

abbrev pub is_voucher : ℕ → ChangeVoucherRow → Bool
is_voucher id v = v.voucher_id == id

abbrev set_mint_tx : ℕ → ChangeVoucherRow → ChangeVoucherRow
set_mint_tx tx v = record v { mint_tx = some tx }

unfoldable pub update_vouchers : ℕ → (ChangeVoucherRow → ChangeVoucherRow) → Action World (Unit {0})
update_vouchers id f = remote (
    set_store
      (λ s. record s { change_vouchers = update_where (is_voucher id) f s.change_vouchers }))

-- The reference of a mint, which is unique in its table, and its link from the voucher.
unfoldable pub record_mint_ref : Text → ℕ → Text → Text → ℕ → ℕ → ℕ → Action World (Unit {0})
record_mint_ref store_number voucher_id wallet currency mint_tx mint_amount credit_tx = do
  remote (do
    rows ← gets (λ w. w.store.deposit_references)
    raise_if (is_used (change_voucher_mint_reference store_number voucher_id) rows)
        (thrown "duplicate key")
    id ← fresh_id
    set_store (λ s. record s {
      deposit_references =
          s.deposit_references
          ++ record {
            id = id;
            reference = change_voucher_mint_reference store_number voucher_id;
            kind = ReferenceKind.change_voucher;
            source = ReferenceSource.merchant;
            wallet = to_lower wallet;
            amount = mint_amount;
            currency = to_upper currency;
            mint_tx = some mint_tx;
            credit_tx = some credit_tx;
          }
            ∷ [];
    }))
  update_vouchers voucher_id (set_mint_tx mint_tx)

-- Only a top-up that minted is recorded.
unfoldable pub record_top_up : Text → ℕ → Text → Text → Option Issuance → Action World (Unit {0})
record_top_up store_number voucher_id wallet currency none = pure tt
record_top_up store_number voucher_id wallet currency (some issued) = elim issued.mint [
  | none ↦ pure tt
  | some mint ↦
      record_mint_ref store_number voucher_id wallet currency mint.0 mint.1 issued.credit_tx
]
