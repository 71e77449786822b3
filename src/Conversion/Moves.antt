-- ===== src/Conversion/Moves.antt =====
-- What a conversion moves: the ledger of the one currency falls by what is debited, and that of USDC rises
-- by what is credited.
use tende.Base.{
  ℕ, Option, Text, ap, arith, leb_ℤ, negsuc, none, or_raise, pos, pos_part, pure, raise_if, refl,
  some, subst, sym, to_lower, ℤ, ◌<◌, ◌>>=◌, ◌>>◌, ◌∙◌, ◌≡◌, ◌≤◌, ltb, to_upper, ◌+◌, ◌≢◌, ◌⊎◌,
  false, to_upper_idem,
}
use native.Mathlib.Nat.{le_refl}
use tende.Vault.Conservation.{assets}
use tende.World.{World, Chain}
use tende.World.Frames.{Quiet, no_transaction, quiet, SameBase}
use tende.World.Queries.{read-Returns}
use tende.World.Returns.{
  Returns, Returns-mono, bind-Returns, raise_if-Returns, Within-Returns, if-Returns, Ends-Returns,
  Quiet-Returns,
}
use tende.Env.{Env, is_empty}
use tende.Currency.{usdc, usd, currency_decimals}
use tende.Treasury.{vault_admin_debit, vault_admin_credit, vault_balance_of}
use tende.Treasury.Balances.{vault_balance_of-Quiet}
use tende.Treasury.Moves.{
  Debited, Credited, Untouched, vault_admin_debit-Ends, vault_admin_credit-Ends,
}
use tende.Revenue.Frames.{get_revenue_config-Quiet}
use tende.Fx.Frames.{get_rate-Quiet}
use tende.Conversion.Execute.{
  ConvertResult, convert_fiat_to_usd, conclude, parse_amount, floor_units, usable_rate,
  new_conversion_reference, persist_conversion, invalid_amount, row_of, not_positive, reserve_low,
}
use tende.Base.Assoc.{at}
use tende.Treasury.Reserves.{usdc_reserve_units, is_zero_token}
use tende.Schema.{Number, ConversionRow}
use tende.Fx.{FxQuote, get_rate}
use tende.Revenue.{get_revenue_config}

-- The vault's USDC.
abbrev pub usdc_held : World → ℕ
usdc_held w = at (to_lower w.chain.usdc_token) w.chain.vault.holdings

usdc_reserve-Returns :
    (env : Env) (w : World)
    → Returns (λ n u. (n ≤ usdc_held w) × (u.chain ≡ w.chain)) (usdc_reserve_units env w)
unfolding usdc_reserve_units
usdc_reserve-Returns env w =
    let P : ℕ → World → Type 0 = λ n u. (n ≤ usdc_held w) × (u.chain ≡ w.chain) in
    if-Returns P (is_empty env.config.vault) _ _ w (λ _. (omega arith, refl))
      (λ _.
        bind-Returns P (λ t u. (t ≡ w.chain.usdc_token) × SameBase w u) _ _
          (read-Returns (λ v. v.chain.usdc_token) w (λ n. refl))
          λ t u (et, same).
            if-Returns P (is_zero_token t) _ _ u (λ _. (omega arith, same.chain))
              (λ _.
                Returns-mono P (λ n v. (n ≡ at (to_lower t) u.chain.vault.holdings) × SameBase u v)
                  _
                  (λ n v (en, same_v). (
                    subst (λ k. k ≤ usdc_held w)
                        (sym (
                          en
                          ∙ ap (λ c. at (to_lower t) c.vault.holdings) same.chain
                          ∙ ap (λ x. at (to_lower x) w.chain.vault.holdings) et))
                        (le_refl _),
                    same_v.chain ∙ same.chain,
                  ))
                  (read-Returns (λ v. at (to_lower t) v.chain.vault.holdings) u (λ n. refl))))

parse_amount-Returns :
    (env : Env) (amount : Text) (decimals : ℕ) (w : World)
    → Returns
        (λ n u. (env.parse_units amount decimals ≡ some (pos n)) × (0 < n) × (u ≡ w))
        (parse_amount env amount decimals w)
unfolding parse_amount
parse_amount-Returns env amount decimals w = go (env.parse_units amount decimals)
  where
    go :
        (o : Option ℤ)
        → Returns
            (λ n u. (o ≡ some (pos n)) × (0 < n) × (u ≡ w))
            ((do
              units ← or_raise o invalid_amount
              raise_if (leb_ℤ units (pos 0)) not_positive
              pure (pos_part units))
              w)
    go none = tt
    go (some (negsuc n)) =
        raise_if-Returns _ (leb_ℤ (negsuc n) (pos 0)) not_positive w _ λ h. absurd (ground arith)
    go (some (pos n)) =
        raise_if-Returns _ (leb_ℤ (pos n) (pos 0)) not_positive w _ λ h. (refl, ground arith, refl)

floor_units-Quiet : (env : Env) (x : Number) → Quiet (floor_units env x)
unfolding floor_units
floor_units-Quiet env x = search quiet depth 10

usable_rate-Quiet : (env : Env) (q : FxQuote) → Quiet (usable_rate env q)
unfolding usable_rate
usable_rate-Quiet env q = search quiet depth 10

reference-Quiet : (env : Env) (from to : Text) → Quiet (new_conversion_reference env from to)
unfolding new_conversion_reference
reference-Quiet env from to = search quiet depth 10

persist-Quiet : (row : ConversionRow) → Quiet (persist_conversion row)
unfolding persist_conversion
persist-Quiet row = search quiet depth 10

conclude-Returns :
    (env : Env) (wallet fee_currency : Text) (r : ConvertResult) (w : World)
    → Returns (λ r' u. (r' ≡ r) × (u.chain ≡ w.chain)) (conclude env wallet fee_currency r w)
unfolding conclude
conclude-Returns env wallet fee_currency r w =
    bind-Returns (λ r' u. (r' ≡ r) × (u.chain ≡ w.chain)) (λ _ u. u.chain ≡ w.chain)
      (persist_conversion (row_of wallet r fee_currency) w) (λ _. pure r)
      (Within-Returns no_transaction _ (persist-Quiet (row_of wallet r fee_currency)) w)
      (λ _ u same. (refl, same))

-- The debit of one currency and the credit of another, and nothing else on the chain.
abbrev pub Exchanged : Text → ℕ → Text → ℕ → Chain → Chain → Type 0
Exchanged from debited to credited c c' =
    (assets from c'.vault + debited ≡ assets from c.vault)
    × (assets to c'.vault ≡ assets to c.vault + credited)
    × (c'.vault.holdings ≡ c.vault.holdings)

exchange :
    (from to : Text) (debited credited : ℕ) (u v x : World)
    → from ≢ to
    → Debited from debited u v
    → Credited to credited v x
    → Exchanged from debited to credited u.chain x.chain
exchange from to debited credited u v x differ (less, other) (more, rest) = (
  omega (arith, less, rest.others from (λ e. differ (sym e))),
  omega (arith, more, other.others to differ),
  rest.held ∙ other.held,
)

debit-Returns :
    (env : Env) (wallet : Text) (amount : ℕ) (cur : Text) (w : World)
    → Returns (λ _ u. Debited (to_upper cur) amount w u) (vault_admin_debit env wallet amount cur w)
debit-Returns env wallet amount cur w =
    Ends-Returns (λ _ u. Debited (to_upper cur) amount w u)
      (λ u. Untouched (to_upper cur) w u ⊎ Debited (to_upper cur) amount w u)
      (vault_admin_debit env wallet amount cur w) (vault_admin_debit-Ends env wallet amount cur w)

credit-Returns :
    (env : Env) (wallet : Text) (amount : ℕ) (cur : Text) (w : World)
    → Returns
        (λ _ u. Credited (to_upper cur) amount w u)
        (vault_admin_credit env wallet amount cur w)
credit-Returns env wallet amount cur w =
    Ends-Returns (λ _ u. Credited (to_upper cur) amount w u)
      (λ u. Untouched (to_upper cur) w u ⊎ Credited (to_upper cur) amount w u)
      (vault_admin_credit env wallet amount cur w) (vault_admin_credit-Ends env wallet amount cur w)

ends_moved :
    (from to : Text) (debited credited : ℕ) (b e w g : World)
    → b.chain ≡ w.chain
    → g.chain ≡ e.chain
    → Exchanged from debited to credited b.chain e.chain
    → Exchanged from debited to credited w.chain g.chain
ends_moved from to debited credited b e w g start end moved =
    subst (λ c. Exchanged from debited to credited c g.chain) start
      (subst (λ c. Exchanged from debited to credited b.chain c) (sym end) moved)

within_reserve :
    (n held : ℕ) (a w : World)
    → held ≤ usdc_held a
    → ltb held n ≡ false
    → a.chain ≡ w.chain
    → n ≤ usdc_held w
within_reserve n held a w covers enough same =
    subst (λ (c : Chain). n ≤ at (to_lower c.usdc_token) c.vault.holdings) same (ground arith)

-- What a conversion into USD tells of its result.
abbrev pub IntoUsd : Env → Text → Text → Chain → ConvertResult → Chain → Type 0
IntoUsd env amount fiat c r c' =
    (env.parse_units amount (currency_decimals fiat) ≡ some (pos r.debited))
    × (0 < r.debited)
    × (r.credited ≤ at (to_lower c.usdc_token) c.vault.holdings)
    × Exchanged fiat r.debited usdc r.credited c c'

-- A conversion of a currency other than USDC into USD that succeeds debits the amount that was asked for,
-- which is positive, and credits USDC, no more than the vault holds of it; the ledgers of both currencies
-- move by just that, and the vault's tokens stay.
pub convert_fiat_to_usd-Returns :
    (env : Env) (wallet amount fiat_code : Text) (w : World)
    → to_upper fiat_code ≢ usdc
    → Returns
        (λ r u. IntoUsd env amount (to_upper fiat_code) w.chain r u.chain)
        (convert_fiat_to_usd env wallet amount fiat_code w)
unfolding convert_fiat_to_usd to_upper
convert_fiat_to_usd-Returns env wallet amount fiat_code w differ =
    let fiat = to_upper fiat_code in
    let P : ConvertResult → World → Type 0 = λ r u. IntoUsd env amount fiat w.chain r u.chain in
    bind-Returns P
      (λ n u. (env.parse_units amount (currency_decimals fiat) ≡ some (pos n)) × (0 < n) × (u ≡ w))
      (parse_amount env amount (currency_decimals fiat) w) _
      (parse_amount-Returns env amount (currency_decimals fiat) w)
      λ units u (parsed, positive, eu).
        Quiet-Returns P (vault_balance_of env wallet fiat) _ u
          (vault_balance_of-Quiet env wallet fiat)
          λ balance v ev. raise_if-Returns P (ltb balance units) _ v _ λ _.
            Quiet-Returns P (get_rate env fiat usd) _ v (get_rate-Quiet env fiat usd) λ quote x ex.
              Quiet-Returns P (usable_rate env quote) _ x (usable_rate-Quiet env quote) λ rate y ey.
                Quiet-Returns P get_revenue_config _ y get_revenue_config-Quiet λ revenue z ez.
                  Quiet-Returns P (floor_units env _) _ z (floor_units-Quiet env _)
                    λ usdc_units a ea.
                      bind-Returns P (λ n b. (n ≤ usdc_held a) × (b.chain ≡ a.chain))
                        (usdc_reserve_units env a) _ (usdc_reserve-Returns env a)
                        λ held b (covers, eb).
                          raise_if-Returns P (ltb held usdc_units) reserve_low b _ λ enough.
                            bind-Returns P (λ _ d. Debited (to_upper fiat) units b d)
                              (vault_admin_debit env wallet units fiat b) _
                              (debit-Returns env wallet units fiat b)
                              λ debit_tx d debited.
                                bind-Returns P (λ _ e. Credited (to_upper usdc) usdc_units d e)
                                  (vault_admin_credit env wallet usdc_units usdc d) _
                                  (credit-Returns env wallet usdc_units usdc d)
                                  λ credit_tx e credited.
                                    Quiet-Returns P (new_conversion_reference env fiat usd) _ e
                                      (reference-Quiet env fiat usd)
                                      λ reference f ef.
                                        Returns-mono P _ _
                                          (λ r g (er, eg).
                                            let before : a.chain ≡ w.chain =
                                              ea ∙ ez ∙ ey ∙ ex ∙ ev ∙ ap (λ u. u.chain) eu in
                                            subst (λ r. IntoUsd env amount fiat w.chain r g.chain)
                                              (sym er)
                                              (
                                                parsed,
                                                positive,
                                                within_reserve usdc_units held a w covers enough
                                                    before,
                                                ends_moved fiat usdc units usdc_units b e w g
                                                    (eb ∙ before) (eg ∙ ef)
                                                    (exchange fiat usdc units usdc_units b d e
                                                      differ
                                                      (subst (λ c. Debited c units b d)
                                                        (to_upper_idem fiat_code) debited)
                                                      credited),
                                              ))
                                          (conclude-Returns env wallet fiat _ f)
