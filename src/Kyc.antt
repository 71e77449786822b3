-- ===== src/Kyc.antt =====
-- server/src/kycSpendService.ts: what a consumer may send, by the limits of the KYC level and what
-- was spent since the start of the UTC day and month. Limits are in cents of ZAR. The sum over given
-- kinds of spending, which no caller asks for, is not modelled.
pub mod Limits
pub mod Units
pub mod Answers
use mathlib.Core.Option
use tende.Base.{
  ℕ, Action, Bool, Error, List, Option, Text, [], catch, false, gets, if◌then◌else◌, leb, ltb, map,
  none, not, or_raise, pure, some, text_eq, thrown, to_lower, to_upper, ◌&&◌, ◌++◌, ◌+◌, ◌==◌,
  ◌>>=◌, ◌>>◌, ◌||◌, ◌∷◌,
}
use tende.Schema.{ConsumerRow, KycLevelRow, SpendEvent, SpendType, Number}
use tende.World.{World, remote, clock, set_store}
use tende.Env.{Env}
use tende.Currency.{currency_decimals, usdc, usd, zar}
use tende.Fx.{get_rate}
use tende.Calendar.{start_of_day, start_of_month}
use tende.Base.Rows.{find}

pub record KycLimits : Type 0 where
  pub level_name : Text
  pub max_single_tx : Option ℕ
  pub max_daily_send : Option ℕ
  pub max_monthly_spend : Option ℕ

pub data Refusal : Type 0 where
  single_exceeded daily_exceeded monthly_exceeded level_missing : Refusal

pub record Allowance : Type 0 where
  pub limits : KycLimits
  pub spent_today : ℕ
  pub spent_month : ℕ
  pub amount_limit_units : ℕ

pub data SpendCheck : Type 0 where
  allowed : Allowance → SpendCheck
  refused : Refusal → SpendCheck

abbrev pub out_of_range : Error
out_of_range = thrown "RangeError"

-- `quote.rate && quote.rate > 0 ? quote.rate : 18`
unfoldable pub rate_or_fallback : Env → Option Number → Number
rate_or_fallback env none = env.numbers.literal 18
rate_or_fallback env (some r) =
    if env.numbers.lt (env.numbers.literal 0) r then r else env.numbers.literal 18

-- `x != null && n > x`
unfoldable pub exceeds : ℕ → Option ℕ → Bool
exceeds n none = false
exceeds n (some limit) = ltb limit n

unfoldable pub limits_of : KycLevelRow → KycLimits
limits_of k = record {
  level_name = k.level_name;
  max_single_tx = k.max_single_tx;
  max_daily_send = k.max_daily_send;
  max_monthly_spend = k.max_monthly_spend;
}

-- The join of a consumer with its level.
unfoldable pub level_of : Text → List ConsumerRow → List KycLevelRow → Option KycLimits
unfolding limits_of
level_of id consumers levels = elim (find (λ c. text_eq c.consumer_id id) consumers) [
  | none ↦ none
  | some c ↦ Option.map limits_of (find (λ k. k.level_id == c.kyc_level_id) levels)
]

unfoldable pub get_consumer_kyc_limits : Text → Action World (Option KycLimits)
get_consumer_kyc_limits id = remote (gets (λ w. level_of id w.store.consumers w.store.kyc_levels))

-- `SUM(amount_limit_units)` of a wallet's events from a time on
unfoldable pub spent_since : Text → ℕ → List SpendEvent → ℕ
spent_since wallet since [] = 0
spent_since wallet since (e ∷ es) =
    let rest = spent_since wallet since es in
    if text_eq (to_lower e.wallet_address) wallet && leb since e.created_at
    then e.amount_limit_units + rest
    else rest

unfoldable pub sum_spent : Text → ℕ → Action World ℕ
sum_spent wallet since =
    remote (gets (λ w. spent_since (to_lower wallet) since w.store.spend_events))

-- What a caller says of a payment.
pub record Spend : Type 0 where
  pub consumer_id : Text
  pub wallet_address : Text
  pub spend_type : SpendType
  pub currency : Text
  pub amount_units : ℕ
  pub amount_limit_units : Option ℕ
  pub counterparty : Option Text
  pub tx_hash : Option ℕ

module _ (env : Env) where
  unfoldable pub to_limit_units : ℕ → Text → Action World ℕ
  to_limit_units amount currency =
      let code = to_upper currency in
      let dec = currency_decimals code in
      if dec == 2 && (not (text_eq code usdc) && not (text_eq code usd))
      then pure amount
      else let major = env.numbers.of_units amount dec in
        if not (env.numbers.is_finite major) || not (env.numbers.lt (env.numbers.literal 0) major)
        then pure 0
        else if text_eq code usdc || text_eq code usd
        then (do
          quote ← get_rate env usd zar
          let rate = rate_or_fallback env quote.rate
          or_raise
              (env.numbers.round
                (env.numbers.mul (env.numbers.mul major rate) (env.numbers.literal 100)))
              out_of_range)
        else or_raise (env.numbers.round (env.numbers.mul major (env.numbers.literal 100)))
            out_of_range

  unfoldable pub check_limits : Text → ℕ → Text → KycLimits → Action World SpendCheck
  check_limits wallet amount currency limits = do
    units ← to_limit_units amount currency
    if exceeds units limits.max_single_tx then pure (refused single_exceeded) else do
      now ← clock
      today ← sum_spent wallet (start_of_day now)
      month ← sum_spent wallet (start_of_month now)
      pure (
          if exceeds (today + units) limits.max_daily_send
          then refused daily_exceeded
          else if exceeds (month + units) limits.max_monthly_spend
          then refused monthly_exceeded
          else allowed (record {
            limits = limits;
            spent_today = today;
            spent_month = month;
            amount_limit_units = units;
          }))

  unfoldable pub check_level : Text → ℕ → Text → Option KycLimits → Action World SpendCheck
  check_level wallet amount currency none = pure (refused level_missing)
  check_level wallet amount currency (some limits) = check_limits wallet amount currency limits

  unfoldable pub assert_kyc_send_allowed : Text → Text → ℕ → Text → Action World SpendCheck
  assert_kyc_send_allowed consumer_id wallet amount currency = do
    limits ← get_consumer_kyc_limits consumer_id
    check_level wallet amount currency limits

  unfoldable pub known_limit_units : Option ℕ → ℕ → Text → Action World ℕ
  known_limit_units none amount currency = to_limit_units amount currency
  known_limit_units (some units) amount currency = pure units

  -- A failure to record is logged and goes no further.
  unfoldable pub record_spend_event : Spend → Action World (Unit {0})
  record_spend_event p = do
    units ← known_limit_units p.amount_limit_units p.amount_units p.currency
    catch
        (remote (do
          now ← clock
          set_store (λ s. record s {
            spend_events =
                s.spend_events
                ++ record {
                  consumer_id = p.consumer_id;
                  wallet_address = to_lower p.wallet_address;
                  spend_type = p.spend_type;
                  currency = to_upper p.currency;
                  amount_units = p.amount_units;
                  amount_limit_units = units;
                  counterparty = Option.map to_lower p.counterparty;
                  tx_hash = p.tx_hash;
                  created_at = now;
                }
                  ∷ [];
          })))
        (λ _. pure tt)
