-- ===== src/Revenue.antt =====
-- server/src/revenueConfig.ts: the platform's fee rates, read from `app_config` and cached for 30
-- seconds, and the fees of a withdrawal, on integer units, and of a settlement, on doubles.
pub mod Fees
pub mod Cache
pub mod Frames
use mathlib.Core.Option
use tende.Base.{
  ℕ, Action, Option, Text, [], catch, codes, gets, if◌then◌else◌, is_digit, leb, ltb, map, negsuc,
  none, or_else, pos, pure, raise_if, some, sub_ℕ, thrown, trim_start, ℤ, ◌*◌, ◌+◌, ◌-◌, ◌/◌, ◌==◌,
  ◌>>=◌, ◌>>◌, ◌∷◌,
}
use tende.Schema.{RevenueConfig, CachedRevenue, Number}
use tende.Env.{Numbers}
use tende.World.{World, remote, clock, set_memory}
use tende.Base.Assoc.{Map, lookup}

abbrev pub default_bps : ℕ
default_bps = 150

abbrev pub defaults : RevenueConfig
defaults = record {
  fx_spread_bps = default_bps;
  settlement_fee_bps = default_bps;
  withdrawal_fee_bps = default_bps;
}

abbrev pub ttl_ms : ℕ
ttl_ms = 30000

-- `parseInt(s, 10)`: white space, a sign, and the digits that follow; none is NaN.
unfoldable pub digits_value : ℕ → Text → ℕ
digits_value n [] = n
digits_value n (c ∷ s) =
    let rest = digits_value (n * 10 + (c - b'0')) s in if is_digit c then rest else n

unfoldable pub parse_digits : Text → Option ℕ
unfolding digits_value
parse_digits [] = none
parse_digits (c ∷ s) = if is_digit c then some (digits_value 0 (c ∷ s)) else none

unfoldable pub negate : Option ℕ → Option ℤ
negate none = none
negate (some n) = some (sub_ℕ 0 n)

unfoldable pub parse_signed : Text → Option ℤ
unfolding negate parse_digits
parse_signed [] = none
parse_signed (c ∷ s) =
    if c == b'-'
    then negate (parse_digits s)
    else if c == b'+'
    then Option.map pos (parse_digits s)
    else Option.map pos (parse_digits (c ∷ s))

unfoldable pub parse_int : Text → Option ℤ
unfolding parse_signed
parse_int s = parse_signed (trim_start s)

unfoldable pub non_negative : Option ℤ → ℕ → ℕ
non_negative none fallback = fallback
non_negative (some (pos n)) fallback = n
non_negative (some (negsuc n)) fallback = fallback

unfoldable pub parse_bps : Option Text → ℕ → ℕ
unfolding parse_int non_negative
parse_bps raw fallback = non_negative (parse_int (or_else raw [])) fallback

abbrev pub fx_spread_key : Text
fx_spread_key = codes "revenue.fx_spread_bps"

abbrev pub settlement_fee_key : Text
settlement_fee_key = codes "revenue.settlement_fee_bps"

abbrev pub withdrawal_fee_key : Text
withdrawal_fee_key = codes "revenue.withdrawal_fee_bps"

unfoldable pub read_config : Map Text → RevenueConfig
read_config rows = record {
  fx_spread_bps = parse_bps (lookup fx_spread_key rows) default_bps;
  settlement_fee_bps = parse_bps (lookup settlement_fee_key rows) default_bps;
  withdrawal_fee_bps = parse_bps (lookup withdrawal_fee_key rows) default_bps;
}

-- The query and the write of the cache; an error gives the defaults and leaves the cache alone.
unfoldable pub load_config : Action World RevenueConfig
load_config =
    catch
      (do
        rows ← remote (gets (λ w. w.store.app_config))
        now ← clock
        let cfg = read_config rows
        set_memory
            (λ m. record m { revenue = some (record { cfg = cfg; expires_at = now + ttl_ms }) })
        pure cfg)
      (λ _. pure defaults)

-- The clock is read only where there is a cached value.
unfoldable pub serve : Option CachedRevenue → Action World RevenueConfig
serve none = load_config
serve (some cache) = do
  now ← clock
  if ltb now cache.expires_at then pure cache.cfg else load_config

unfoldable pub get_revenue_config : Action World RevenueConfig
get_revenue_config = do cache ← gets (λ w. w.memory.revenue); serve cache

unfoldable pub invalidate_revenue_config_cache : Action World (Unit {0})
invalidate_revenue_config_cache = set_memory (λ m. record m { revenue = none })

pub record Fee : Type 0 where
  pub fee_units : ℕ
  pub net_units : ℕ

unfoldable pub calc_withdrawal_fee_units : {S : Type 0} → ℕ → ℕ → Action S Fee
calc_withdrawal_fee_units gross fee_bps =
    if leb fee_bps 0 then pure (record { fee_units = 0; net_units = gross }) else do
      let fee = (gross * fee_bps + 9999) / 10000
      raise_if (leb gross fee) (thrown "Withdrawal fee would consume the entire amount")
      pure (record { fee_units = fee; net_units = gross - fee })

pub record SettlementFee : Type 0 where
  pub fee : Number
  pub net : Number

unfoldable pub calc_settlement_fee : Numbers → Number → ℕ → SettlementFee
calc_settlement_fee n gross fee_bps =
    let cents : Number → Number =
      λ x. n.div (n.math_round (n.mul x (n.literal 100))) (n.literal 100) in
    let fee = n.div (n.math_round (n.mul gross (n.literal fee_bps))) (n.literal 10000) in
    record { fee = cents fee; net = cents (n.sub gross fee) }
