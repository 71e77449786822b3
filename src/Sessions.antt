-- ===== src/Sessions.antt =====
-- server/src/sessionService.ts: the caps of a session key, and the amounts that are held against them.
-- Amounts are positive units, as the payment's route has checked.
use tende.Base.{Bool, Text, if◌then◌else◌, ltb, not, true, ℕ, ◌*◌, ◌-◌, ◌/◌, ◌==◌, ◌^◌}
use tende.Currency.{currency_decimals}
pub mod Caps

unfoldable pub session_cap_decimals : ℕ
session_cap_decimals = 6

-- `ethers.parseUnits` of a whole number
abbrev parse_whole_units : ℕ → ℕ → ℕ
parse_whole_units major decimals = major * 10 ^ decimals

abbrev pub kyc1_max_major : ℕ
kyc1_max_major = 5000

abbrev pub kyc1_daily_major : ℕ
kyc1_daily_major = 20000

pub record SessionCaps : Type 0 where
  pub max_per_tx : ℕ
  pub daily_cap : ℕ

unfoldable pub default_session_caps : SessionCaps
default_session_caps = record {
  max_per_tx = parse_whole_units kyc1_max_major session_cap_decimals;
  daily_cap = parse_whole_units kyc1_daily_major session_cap_decimals;
}

pub data CapReason : Type 0 where
  per_tx : CapReason
  daily : CapReason

pub data CapCheck : Type 0 where
  within : CapCheck
  exceeded : CapReason → ℕ → ℕ → CapCheck

unfoldable pub normalize_vault_amount : ℕ → Text → ℕ
normalize_vault_amount units currency =
    let dec = currency_decimals currency in
    if dec == session_cap_decimals
    then units
    else if ltb session_cap_decimals dec
    then units / 10 ^ (dec - session_cap_decimals)
    else units * 10 ^ (session_cap_decimals - dec)

unfoldable pub session_amount_within_caps : ℕ → Text → SessionCaps → CapCheck
session_amount_within_caps units currency caps =
    let normalized = normalize_vault_amount units currency in
    if ltb caps.max_per_tx normalized then exceeded per_tx caps.max_per_tx normalized else within

-- What the module's contract knows of a session key.
pub record OnChainSession : Type 0 where
  active : Bool
  max_per_tx : ℕ

unfoldable pub session_needs_renewal : OnChainSession → Bool
session_needs_renewal on_chain =
    if not on_chain.active then true else ltb on_chain.max_per_tx default_session_caps.max_per_tx
