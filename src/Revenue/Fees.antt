-- ===== src/Revenue/Fees.antt =====
-- The withdrawal fee: exact, rounded up in favour of the platform, and never the whole amount.
use tende.Base.{
  ℕ, err, ok, thrown, ◌*◌, ◌+◌, ◌<◌, ◌≡◌, ◌≤◌, ◌⊎◌, Bool-cases, arith, false, inl, inr, leb, refl,
  true, ◌-◌, ◌/◌,
}
use tende.Revenue.{Fee, calc_withdrawal_fee_units}

-- A fee and a net amount that `calc_withdrawal_fee_units` may return.
pub record IsFee (gross fee_bps : ℕ) (f : Fee) : Type 0 where
  pub total : f.fee_units + f.net_units ≡ gross
  pub at_least : gross * fee_bps ≤ f.fee_units * 10000
  pub less_than_one_over : f.fee_units * 10000 < gross * fee_bps + 10000

free_IsFee :
    (gross fee_bps : ℕ)
    → leb fee_bps 0 ≡ true
    → IsFee gross fee_bps (record { fee_units = 0; net_units = gross })
free_IsFee gross fee_bps free = let e : fee_bps ≡ 0 = ground arith in rw e (omega arith)

rounded_IsFee :
    (gross fee_bps : ℕ)
    → leb gross ((gross * fee_bps + 9999) / 10000) ≡ false
    → let fee = (gross * fee_bps + 9999) / 10000 in
      IsFee gross fee_bps (record { fee_units = fee; net_units = gross - fee })
rounded_IsFee gross fee_bps part = ground arith

-- For a positive amount the fee is the rate's share of it rounded up to a unit, fee and net add up to
-- the amount, and the net is positive; the call fails exactly where the fee would be the amount or
-- more. The state is left alone.
pub calc_withdrawal_fee_units_lem :
    {S : Type 0} (gross fee_bps : ℕ) (s : S)
    → 0 < gross
    → ((f : Fee) × (calc_withdrawal_fee_units gross fee_bps s ≡ (ok f, s))
        × IsFee gross fee_bps f
        × (0 < f.net_units))
      ⊎ ((calc_withdrawal_fee_units gross fee_bps s
            ≡ (err (thrown "Withdrawal fee would consume the entire amount"), s))
          × (gross * 10000 < gross * fee_bps + 10000))
unfolding calc_withdrawal_fee_units
calc_withdrawal_fee_units_lem gross fee_bps s h = elim (Bool-cases (leb fee_bps 0)) [
  | inl free ↦
      rw free
        (inl (record { fee_units = 0; net_units = gross }, refl, free_IsFee gross fee_bps free, h))
  | inr charged ↦ rw charged (elim (Bool-cases (leb gross ((gross * fee_bps + 9999) / 10000))) [
    | inl whole ↦ rw whole (inr (refl, ground arith))
    | inr part ↦ rw part (inl (_, refl, rounded_IsFee gross fee_bps part, ground arith))
  ])
]
