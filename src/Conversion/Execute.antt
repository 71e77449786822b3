-- ===== src/Conversion/Execute.antt =====
-- The two directions of a conversion in server/src/conversionService.ts.
use mathlib.Core.Option
use tende.Base.{
  ℕ, Action, Error, Option, Text, [], catch, codes, http, leb, leb_ℤ, ltb, none, not, or_raise, pos,
  pos_part, pure, raise_if, take, thrown, to_lower, to_upper, ◌*◌, ◌++◌, ◌/◌, ◌>>=◌, ◌>>◌, ◌^◌, ◌∷◌,
  if◌then◌else◌, raise, ◌&&◌,
}
use tende.Schema.{ConversionRow, Number, FxSource}
use tende.World.{World, remote, set_store, clock}
use tende.Env.{Env}
use tende.Currency.{usd, usdc, currency_decimals}
use tende.Treasury.{
  vault_balance_of, vault_admin_debit, vault_admin_credit, credit_fiat_with_treasury_backing,
}
use tende.Treasury.Reserves.{usdc_reserve_units}
use tende.Revenue.{get_revenue_config}
use tende.Fx.{get_rate, FxQuote}
use tende.Withdrawal.Prepare.{insufficient_balance}
use tende.Conversion.{assert_allowed_conversion, is_usd_code, invalid_pair}

pub record ConvertResult : Type 0 where
  pub from : Text
  pub to : Text
  pub debited : ℕ
  pub credited : ℕ
  pub rate : Number
  pub spread_bps : ℕ
  pub fee : ℕ
  pub debit_tx : ℕ
  pub credit_tx : ℕ
  pub reference : Text
  pub mint_tx : Option ℕ
  pub source : FxSource

abbrev pub invalid_amount : Error
invalid_amount = http 400 "Invalid amount"

abbrev pub not_positive : Error
not_positive = http 400 "Amount must be positive"

abbrev pub too_small : Error
too_small = http 400 "Amount is too small to convert"

abbrev pub fx_unavailable : Error
fx_unavailable = http 503 "FX_UNAVAILABLE"

abbrev pub reserve_low : Error
reserve_low = http 409 "RESERVE_LOW"

-- What is not a positive number of units is refused.
unfoldable pub parse_amount : Env → Text → ℕ → Action World ℕ
parse_amount env amount decimals = do
  units ← or_raise (env.parse_units amount decimals) invalid_amount
  raise_if (leb_ℤ units (pos 0)) not_positive
  pure (pos_part units)

unfoldable pub row_of : Text → ConvertResult → Text → ConversionRow
row_of wallet r fee_currency = record {
  wallet = to_lower wallet;
  from_currency = r.from;
  to_currency = r.to;
  from_amount = r.debited;
  to_amount = r.credited;
  rate = r.rate;
  spread_bps = r.spread_bps;
  fee_amount = r.fee;
  fee_currency = fee_currency;
  debit_tx = r.debit_tx;
  credit_tx = r.credit_tx;
  reference = r.reference;
  mint_tx = r.mint_tx;
}

-- A row that cannot be inserted is only logged.
unfoldable pub persist_conversion : ConversionRow → Action World (Unit {0})
persist_conversion row =
    catch (remote (set_store (λ s. record s { conversions = s.conversions ++ row ∷ [] })))
      (λ e. pure tt)

module _ (env : Env) where
  -- The pair's initials and a part that the environment draws.
  unfoldable pub new_conversion_reference : Text → Text → Action World Text
  new_conversion_reference from to = do
    now ← clock
    pure (
        codes "FX-"
        ++ to_upper (take 1 from ++ take 1 to)
        ++ codes "-"
        ++ env.iso_day now
        ++ codes "-"
        ++ to_upper (env.random_hex now 3))

  -- A rate that is positive.
  unfoldable pub usable_rate : FxQuote → Action World Number
  usable_rate quote = do
    rate ← or_raise quote.rate fx_unavailable
    raise_if (env.numbers.le rate (env.numbers.literal 0)) fx_unavailable
    pure rate

  -- `amount * rate * (1 - bps / 10_000)`
  unfoldable pub after_spread : Number → Number → ℕ → Number
  after_spread amount rate bps =
      let n = env.numbers in
      n.mul (n.mul amount rate) (n.sub (n.literal 1) (n.div (n.literal bps) (n.literal 10000)))

  -- `BigInt(Math.floor(x))`, which throws on what is not finite
  unfoldable pub floor_units : Number → Action World ℕ
  floor_units x = do
    units ← or_raise (env.numbers.floor x) (thrown "RangeError")
    raise_if (leb units 0) too_small
    pure units

  unfoldable pub conclude : Text → Text → ConvertResult → Action World ConvertResult
  conclude wallet fee_currency r = do persist_conversion (row_of wallet r fee_currency); pure r

  unfoldable pub convert_fiat_to_usd : Text → Text → Text → Action World ConvertResult
  convert_fiat_to_usd wallet amount fiat_code =
      let fiat = to_upper fiat_code in
      let dec = currency_decimals fiat in
      let n = env.numbers in
      do
        fiat_units ← parse_amount env amount dec
        balance ← vault_balance_of env wallet fiat
        raise_if (ltb balance fiat_units) insufficient_balance
        quote ← get_rate env fiat usd
        rate ← usable_rate quote
        revenue ← get_revenue_config
        let fiat_float = n.div (n.literal fiat_units) (n.literal (10 ^ dec))
        usdc_units ←
            floor_units
              (n.mul (after_spread fiat_float rate revenue.fx_spread_bps) (n.literal 1000000))
        reserve ← usdc_reserve_units env
        raise_if (ltb reserve usdc_units) reserve_low
        debit_tx ← vault_admin_debit env wallet fiat_units fiat
        credit_tx ← vault_admin_credit env wallet usdc_units usdc
        reference ← new_conversion_reference fiat usd
        conclude wallet fiat (record {
          from = fiat;
          to = usd;
          debited = fiat_units;
          credited = usdc_units;
          rate = rate;
          spread_bps = revenue.fx_spread_bps;
          fee = fiat_units * revenue.fx_spread_bps / 10000;
          debit_tx = debit_tx;
          credit_tx = credit_tx;
          reference = reference;
          mint_tx = none;
          source = quote.source;
        })

  unfoldable pub convert_usd_to_fiat : Text → Text → Text → Action World ConvertResult
  convert_usd_to_fiat wallet amount fiat_code =
      let fiat = to_upper fiat_code in
      let dec = currency_decimals fiat in
      let n = env.numbers in
      do
        usdc_units ← parse_amount env amount 6
        balance ← vault_balance_of env wallet usdc
        raise_if (ltb balance usdc_units) insufficient_balance
        quote ← get_rate env usd fiat
        rate ← usable_rate quote
        revenue ← get_revenue_config
        let usd_float = n.div (n.literal usdc_units) (n.literal 1000000)
        fiat_units ←
            floor_units
              (n.mul (after_spread usd_float rate revenue.fx_spread_bps) (n.literal (10 ^ dec)))
        debit_tx ← vault_admin_debit env wallet usdc_units usdc
        issued ← credit_fiat_with_treasury_backing env wallet fiat_units fiat
        reference ← new_conversion_reference usd fiat
        conclude wallet usd (record {
          from = usd;
          to = fiat;
          debited = usdc_units;
          credited = fiat_units;
          rate = rate;
          spread_bps = revenue.fx_spread_bps;
          fee = usdc_units * revenue.fx_spread_bps / 10000;
          debit_tx = debit_tx;
          credit_tx = issued.credit_tx;
          reference = reference;
          mint_tx = Option.map (λ m. m.0) issued.mint;
          source = quote.source;
        })

  unfoldable pub execute_conversion : Text → Text → Text → Text → Action World ConvertResult
  execute_conversion wallet amount from_raw to_raw =
      let from = to_upper from_raw in
      let to = to_upper to_raw in
      do
        assert_allowed_conversion wallet from_raw to_raw
        if not (is_usd_code from) && is_usd_code to
            then convert_fiat_to_usd wallet amount from
            else (if is_usd_code from && not (is_usd_code to)
                then convert_usd_to_fiat wallet amount to
                else raise invalid_pair)
