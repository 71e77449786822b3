-- ===== src/Currency.antt =====
-- server/src/currencyHelper.ts: the ledger's decimals, and the currencies of a country.
use mathlib.Core.Option
use tende.Base.{
  ℕ, Action, Bool, Option, Text, codes, gets, http, if◌then◌else◌, is_some, or_else, or_raise, pure,
  text_eq, to_upper, ◌&&◌, ◌>>=◌,
}
use tende.Schema.{StablecoinRow}
use tende.World.{World, remote}
use tende.Base.Rows.{find}

abbrev pub usdc : Text
usdc = codes "USDC"

abbrev pub usd : Text
usd = codes "USD"

abbrev pub zar : Text
zar = codes "ZAR"

unfoldable pub currency_decimals : Text → ℕ
currency_decimals code = if text_eq (to_upper code) usdc then 6 else 2

-- The currency alone: the symbol and the decimals of `spendCurrencyForCountry` are for display.
unfoldable pub spend_currency_for_country : Text → Action World Text
spend_currency_for_country country = do
  rows ← remote (gets (λ w. w.store.countries))
  pure (
      or_else
        (Option.map (λ c. c.currency_code)
          (find (λ c. text_eq c.country_code (to_upper country)) rows))
        zar)

abbrev backs : Text → StablecoinRow → Bool
backs fiat s = s.is_treasury_token && text_eq s.base_currency_code (to_upper fiat)

-- `ORDER BY is_primary DESC LIMIT 1`: a primary token, or else the first.
unfoldable pub treasury_corridor_for_fiat : Text → Action World (Option Text)
treasury_corridor_for_fiat fiat = do
  rows ← remote (gets (λ w. w.store.stablecoins))
  let primary = find (λ s. backs fiat s && s.is_primary) rows
  let chosen = if is_some primary then primary else find (backs fiat) rows
  pure (Option.map (λ s. s.internal_code) chosen)

unfoldable pub currency_for_country : Text → Action World Text
currency_for_country country = do
  rows ← remote (gets (λ w. w.store.countries))
  row ←
      or_raise (find (λ c. text_eq c.country_code (to_upper country)) rows)
        (http 400 "Unknown country")
  pure row.currency_code
