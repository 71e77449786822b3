-- ===== src/Settlement.antt =====
-- server/src/settlement.routes.ts: merchants' requests for a payout, their approval by the head office,
-- and the execution. `Member` is who a verified token says is asking, and an error is the response that
-- names it. The balance page, which only formats what is stored, is not modelled.
pub mod Pay
pub mod Requests
pub mod Decisions
pub mod Approval
pub mod Creation
pub mod Backing
use tende.Base.{
  ℕ, Action, Bool, List, Option, Text, [], codes, drop, false, gets, http, if◌then◌else◌, length,
  none, not, or_else, or_raise, pure, raise_if, select, some, text_eq, thrown, to_upper, true, ◌&&◌,
  ◌++◌, ◌-◌, ◌>>=◌, ◌>>◌, ◌||◌, ◌∷◌,
}
use mathlib.Core.Option
use tende.Currency.{usdc, usd, zar}
use tende.Schema.{
  SettlementRequestRow, SettlementStatus, SettlementConfig, OfframpRow, MerchantRow, Number,
}
use tende.World.{World, remote, set_store, fresh_id}
use tende.Env.{Env, is_empty}
use tende.Base.Rows.{find, newest_first}

-- `req.member`, of memberAuth.middleware.ts
pub data Role : Type 0 where
  org_admin store_manager cashier : Role

pub record Member : Type 0 where
  pub member_id : ℕ
  pub merchant_id : Text
  pub role : Role

abbrev pub is_org_admin : Member → Bool
is_org_admin m = elim m.role [ org_admin ↦ true | _ ↦ false ]

unfoldable pub require_org_admin : {S : Type 0} → Member → Action S (Unit {0})
require_org_admin m =
    raise_if (not (is_org_admin m)) (http 403 "Org admin (head office) access required")

unfoldable pub decimals_for : Text → ℕ
decimals_for c = if text_eq (to_upper c) usdc || text_eq (to_upper c) usd then 6 else 2

pub record MerchantMeta : Type 0 where
  pub wallet_address : Option Text
  pub settlement_type : Text
  pub settlement_currency : Option Text

abbrev pub fiat : Text
fiat = codes "FIAT"

abbrev pub onchain : Text
onchain = codes "ONCHAIN"

unfoldable pub meta_of : Option MerchantRow → MerchantMeta
meta_of none = record {
  wallet_address = none;
  settlement_type = fiat;
  settlement_currency = some zar;
}
meta_of (some m) = record {
  wallet_address = m.wallet_address;
  settlement_type = m.settlement_type;
  settlement_currency = m.settlement_currency;
}

unfoldable pub find_merchant : Text → List MerchantRow → Option MerchantRow
find_merchant id rows = find (λ m. text_eq m.merchant_id id) rows

unfoldable pub get_merchant_meta : Text → Action World MerchantMeta
get_merchant_meta merchant_id = do
  row ← remote (gets (λ w. find_merchant merchant_id w.store.merchants))
  pure (meta_of row)

unfoldable pub get_config : Text → Action World SettlementConfig
get_config merchant_id = do
  row ←
      remote (gets (λ w. find (λ c. text_eq c.merchant_id merchant_id) w.store.settlement_configs))
  pure (
      or_else row (record {
        merchant_id = merchant_id;
        threshold_amount = codes "0";
        threshold_currency = none;
        require_approval = true;
      }))

unfoldable pub put_config : SettlementConfig → List SettlementConfig → List SettlementConfig
put_config c [] = c ∷ []
put_config c (d ∷ ds) = if text_eq d.merchant_id c.merchant_id then c ∷ ds else d ∷ put_config c ds

-- The last four characters.
unfoldable pub last_4 : Text → Text
last_4 s = drop (length s - 4) s

abbrev dots : Text
dots = codes "···"

unfoldable pub payout_label : Option OfframpRow → Option Text
payout_label none = none
payout_label (some r) =
    let number = or_else r.bank_account_number [] in
    let bank = or_else r.bank_name [] in
    if is_empty number
    then none
    else some
        (if is_empty bank then dots ++ last_4 number else bank ++ b' ' ∷ dots ++ last_4 number)

unfoldable pub bank_payout_label : Text → Action World (Option Text)
bank_payout_label merchant_id = do
  rows ← remote (gets (λ w. w.store.offramps))
  pure (
      payout_label
        (find (λ r. text_eq r.merchant_id merchant_id && r.is_active) (newest_first [] rows)))

module _ (env : Env) where
  -- `POST /config`: the amount is given as a text, or not at all.
  unfoldable pub set_config :
      Member → Option Text → Option Text → Option Bool → Action World SettlementConfig
  set_config member threshold_amount threshold_currency require_approval = do
    require_org_admin member
    remote (do
      amount ←
          or_raise (env.numeric_2 (or_else threshold_amount (codes "0")))
            (thrown "invalid input syntax for type numeric")
      set_store (λ s. record s {
        settlement_configs =
            put_config
              (record {
                merchant_id = member.merchant_id;
                threshold_amount = amount;
                threshold_currency = threshold_currency;
                require_approval = or_else require_approval true;
              })
              s.settlement_configs;
      }))
    get_config member.merchant_id

-- `GET /requests`
unfoldable pub list_requests : Member → Action World (List SettlementRequestRow)
list_requests member = remote (
    gets (λ w.
      newest_first []
        (select (λ r. text_eq r.merchant_id member.merchant_id) w.store.settlement_requests)))
