-- ===== src/Sessions/Caps.antt =====
-- Which payments sessionAmountWithinCaps of server/src/sessionService.ts lets pass.
use tende.Base.{
  Text, inl, inr, text_eq, to_upper, ℕ, ◌*◌, ◌^◌, ◌≡◌, ◌≤◌, ◌<◌, ◌⊎◌, Bool, false, if◌then◌else◌,
  ltb, refl, true, ◌-◌, ◌/◌, ◌==◌, arith,
}
use tende.Sessions.{
  normalize_vault_amount, SessionCaps, session_amount_within_caps, session_cap_decimals, within,
  exceeded, per_tx,
}
use tende.Currency.{currency_decimals, usdc}

-- The ledger has two scales.
normalize_vault_amount-cases :
    (units : ℕ) (currency : Text)
    → ((currency_decimals currency ≡ 6) × (normalize_vault_amount units currency ≡ units))
      ⊎ ((currency_decimals currency ≡ 2) × (normalize_vault_amount units currency ≡ units * 10000))
unfolding normalize_vault_amount currency_decimals session_cap_decimals
normalize_vault_amount-cases units currency = by_scale (text_eq (to_upper currency) usdc)
  where
    at_scale : ℕ → ℕ
    at_scale dec =
        if dec == 6
        then units
        else if ltb 6 dec
        then units / 10 ^ (dec - 6)
        else units * 10 ^ (6 - dec)

    scale : Bool → ℕ
    scale b = if b then 6 else 2

    by_scale :
        (b : Bool)
        → ((scale b ≡ 6) × (at_scale (scale b) ≡ units))
          ⊎ ((scale b ≡ 2) × (at_scale (scale b) ≡ units * 10000))
    by_scale true = inl (refl, refl)
    by_scale false = inr (refl, refl)

-- A payment passes when its amount, in major units of its own currency, is at most the cap in major
-- units (the two are compared over a common denominator), and only then. Otherwise the answer names the cap
-- for one transaction, never the daily one, and gives the amount at the scale of the cap.
pub session_amount_within_caps_lem :
    (units : ℕ) (currency : Text) (caps : SessionCaps)
    → ((session_amount_within_caps units currency caps ≡ within)
        × (units * 10 ^ session_cap_decimals ≤ caps.max_per_tx * 10 ^ currency_decimals currency))
      ⊎ ((session_amount_within_caps units currency caps
            ≡ exceeded per_tx caps.max_per_tx (normalize_vault_amount units currency))
          × (caps.max_per_tx * 10 ^ currency_decimals currency < units * 10 ^ session_cap_decimals))
unfolding session_amount_within_caps session_cap_decimals
session_amount_within_caps_lem units currency caps =
    elim (normalize_vault_amount-cases units currency) [
      | inl (six, same) ↦ ground arith
      | inr (two, scaled) ↦ ground arith
    ]
