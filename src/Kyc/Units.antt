-- ===== src/Kyc/Units.antt =====
-- What toLimitUnits of server/src/kycSpendService.ts makes of an amount.
use tende.Base.{
  Bool, Bool-cases, Text, arith, false, inl, inr, not, ok, refl, some, text_eq, to_upper,
  to_upper_idem, true, ℕ, ◌&&◌, ◌==◌, ◌||◌, ◌≡◌, ◌⊎◌,
}
use tende.Currency.{usdc, usd, currency_decimals, zar}
use tende.Env.{Env}
use tende.Schema.{Number}
use tende.World.{World}
use tende.Kyc.{to_limit_units, rate_or_fallback}
use tende.Fx.{FxQuote, get_rate}
use tende.World.Returns.{Returns, if-Returns, bind-Returns, self-Returns, or_raise_value}

abbrev pub is_dollars : Text → Bool
is_dollars currency = text_eq (to_upper currency) usdc || text_eq (to_upper currency) usd

module _ (env : Env) (amount : ℕ) (currency : Text) where
  abbrev pub major : Number
  major = env.numbers.of_units amount (currency_decimals (to_upper currency))

  abbrev pub is_counted : Bool
  is_counted = env.numbers.is_finite major && env.numbers.lt (env.numbers.literal 0) major

  -- Cents of a home currency are the units of the limits; an amount in dollars counts as the cents that its
  -- rate to the rand, asked for at `w`, gives, rounded, or as none where it is no positive number.
  abbrev pub InLimitUnits : World → ℕ → Type 0
  InLimitUnits w units =
      ((is_dollars currency ≡ false) × (units ≡ amount))
      ⊎ ((is_dollars currency ≡ true) × (is_counted ≡ false) × (units ≡ 0))
      ⊎ ((is_dollars currency ≡ true)
          × (is_counted ≡ true)
          × ((quote : FxQuote) × (u : World) × (get_rate env usd zar w ≡ (ok quote, u))
              × (env.numbers.round (
                    env.numbers.mul (env.numbers.mul major (rate_or_fallback env quote.rate))
                      (env.numbers.literal 100))
                  ≡ some units)))

  home_decimals : is_dollars currency ≡ false → currency_decimals (to_upper currency) ≡ 2
  unfolding currency_decimals
  home_decimals h = ground (arith, to_upper_idem currency)

  pub to_limit_units-Returns :
      (w : World) → Returns (λ units _. InLimitUnits w units) (to_limit_units env amount currency w)
  unfolding to_limit_units
  to_limit_units-Returns w =
      let P : ℕ → World → Type 0 = λ units _. InLimitUnits w units in
      let code = to_upper currency in
      elim (Bool-cases (is_dollars currency)) [
        | inl foreign ↦
            if-Returns P
              (currency_decimals code == 2 && (not (text_eq code usdc) && not (text_eq code usd))) _
              _ w (λ h. absurd (ground arith))
              (λ _.
                if-Returns P
                  (not (env.numbers.is_finite major)
                    || not (env.numbers.lt (env.numbers.literal 0) major))
                  _ _ w (λ h. inr (inl (foreign, ground arith, refl)))
                  (λ h.
                    if-Returns P (text_eq code usdc || text_eq code usd) _ _ w
                      (λ _.
                        bind-Returns P (λ quote u. get_rate env usd zar w ≡ (ok quote, u))
                          (get_rate env usd zar w) _ (self-Returns (get_rate env usd zar w))
                          λ quote u asked.
                            or_raise_value P
                              (env.numbers.round (
                                env.numbers.mul
                                  (env.numbers.mul major (rate_or_fallback env quote.rate))
                                  (env.numbers.literal 100)))
                              _ u
                              (λ units rounded.
                                inr (inr (foreign, ground arith, (quote, u, asked, rounded)))))
                      (λ home. absurd (ground arith))))
        | inr home ↦
            if-Returns P
              (currency_decimals code == 2 && (not (text_eq code usdc) && not (text_eq code usd))) _
              _ w (λ _. inl (home, refl)) (λ h. absurd (ground (arith, home_decimals home)))
      ]
