-- ===== src/Conversion.antt =====
-- server/src/conversionService.ts: a consumer's conversion between a treasury-backed currency and USD. The
-- texts of amounts in the result, which are for display, are left out, and so is the random part of a
-- reference, which is drawn from the environment's.
pub mod Pairs
pub mod Moves
pub mod Execute
use mathlib.Core.Option
use tende.Base.{
  ℕ, Action, Bool, Error, Option, Text, [], codes, false, gets, http, if◌then◌else◌, map, none, not,
  or_else, raise, raise_if, some, text_eq, to_lower, to_upper, ◌>>=◌, ◌>>◌, ◌||◌,
}
use tende.Currency.{usd, usdc, zar, spend_currency_for_country, treasury_corridor_for_fiat}
use tende.World.{World, remote}
use tende.Base.Rows.{find}
use tende.Schema.{ConsumerRow}
use tende.Env.{is_empty}

unfoldable pub is_usd_code : Text → Bool
is_usd_code currency = text_eq (to_upper currency) usd || text_eq (to_upper currency) usdc

abbrev has_wallet : Text → ConsumerRow → Bool
has_wallet wallet c = elim c.wallet_address [
  | none ↦ false
  | some a ↦ text_eq (to_lower a) (to_lower wallet)
]

unfoldable pub home_fiat_for_wallet : Text → Action World Text
home_fiat_for_wallet wallet = do
  row ← remote (gets (λ w. find (has_wallet wallet) w.store.consumers))
  spend_currency_for_country (or_else (Option.map (λ c. c.country_code) row) (codes "ZA"))

abbrev pub treasury_to_treasury : Error
treasury_to_treasury = http 400 "TREASURY_TO_TREASURY"

abbrev pub invalid_pair : Error
invalid_pair = http 400 "INVALID_PAIR"

-- The corridors are read for the message only.
unfoldable pub refuse_fiats : Text → Text → Action World (Unit {0})
refuse_fiats from to = do
  corridor_from ← treasury_corridor_for_fiat from
  corridor_to ← treasury_corridor_for_fiat to
  raise treasury_to_treasury

unfoldable pub require_corridor : Text → Text → Action World (Unit {0})
require_corridor local leg = do
  corridor ← treasury_corridor_for_fiat leg
  raise_if (is_empty (or_else corridor [])) invalid_pair
  raise_if (not (text_eq leg zar || text_eq leg local)) invalid_pair

-- Only between the consumer's own currency, or ZAR, and USD.
unfoldable pub assert_allowed_conversion : Text → Text → Text → Action World (Unit {0})
assert_allowed_conversion wallet from_raw to_raw =
    let from = to_upper from_raw in
    let to = to_upper to_raw in
    do
      local ← home_fiat_for_wallet wallet
      if is_usd_code from
          then (if is_usd_code to then raise invalid_pair else require_corridor local to)
          else (if is_usd_code to then require_corridor local from else refuse_fiats from to)
