-- ===== src/Vault/Solvency.antt =====
-- The holders of src/Vault.sol together never own more than the recorded assets, and nobody's
-- balance falls by another's credit or debit.
use native.Mathlib.Nat.{
  le-div_iff_mul-le, mul-le-mul_right, le_of_mul-le-mul_right, le_trans, div-mul-le_self, zero-div,
  div-add-mod', mod-lt, div-le_of_le-mul,
}
use native.Mathlib.Decide.{dec_lt}
use tende.Base.{
  ℕ, [], arith, false, ◌*◌, ◌+◌, ◌/◌, ◌<◌, ◌∷◌, ◌≡◌, ◌≤◌, ap, refl, true, ◌-◌, Bool-cases, inl, inr,
  ltb, ◌%◌,
}
use tende.Vault.{Pool}
use tende.Vault.Writes.{rounded, shares_of, assets_of, burnt}
use tende.Base.Assoc.{Map, sum}

-- What the holders listed in `m` could withdraw, each on its own.
abbrev pub claims : Pool → Map ℕ → ℕ
claims p [] = 0
claims p ((k, s) ∷ m) = assets_of p s false + claims p m

assets_of-mul-le : (p : Pool) (s : ℕ) → assets_of p s false * p.total_shares ≤ s * p.total_assets
assets_of-mul-le p s = ground (arith, div-mul-le_self (s * p.total_assets) p.total_shares)

claims-mul-le : (p : Pool) (m : Map ℕ) → claims p m * p.total_shares ≤ sum m * p.total_assets
unfolding sum
claims-mul-le p [] = omega arith
claims-mul-le p ((k, s) ∷ m) = omega (arith, claims-mul-le p m, assets_of-mul-le p s)

claims_of_empty : (p : Pool) (m : Map ℕ) → p.total_shares ≡ 0 → claims p m ≡ 0
claims_of_empty p [] e = refl
claims_of_empty p ((k, s) ∷ m) e = ground (arith, claims_of_empty p m e)

-- Where the shares add up to the recorded total, the holders' balances, each rounded down, add up
-- to at most the recorded assets.
pub claims-le-total_assets :
    (p : Pool) → sum p.shares ≡ p.total_shares → claims p p.shares ≤ p.total_assets
claims-le-total_assets p counted = elim (dec_lt 0 p.total_shares) [
  | yes some_shares ↦
      le_of_mul-le-mul_right
        (le_trans (claims-mul-le p p.shares)
          (omega (arith, ap (λ (t : ℕ). t * p.total_assets) counted)))
        some_shares
  | no none_issued ↦ omega (arith, claims_of_empty p p.shares (omega arith))
]

le_zero : (n : ℕ) → ¬ (0 < n) → n ≡ 0
le_zero n h = omega arith

-- A price that does not fall, `a / b ≤ c / d`, keeps every balance.
balance_mono : (s a b c d : ℕ) → 0 < b → 0 < d → a * d ≤ c * b → s * a / b ≤ s * c / d
balance_mono s a b c d hb hd h = (le-div_iff_mul-le hd).1 (
    le_of_mul-le-mul_right
      (omega (arith, mul-le-mul_right d (div-mul-le_self (s * a) b), mul-le-mul_right s h)) hb)

-- The pool with other totals. The shares of the holder that acts are not read by another's balance.
abbrev repriced : Pool → ℕ → ℕ → Pool
repriced p total_shares total_assets = record p {
  total_shares = total_shares;
  total_assets = total_assets;
}

-- A credit of src/Vault.sol lowers no holder's balance: the shares of the amount are rounded down.
pub credit_keeps_balance :
    (p : Pool) (s amount : ℕ)
    → assets_of p s false
      ≤ assets_of
          (repriced p (p.total_shares + shares_of p amount false) (p.total_assets + amount))
          s
          false
credit_keeps_balance p s amount = elim (dec_lt 0 p.total_shares) [
  | no none_issued ↦ ground arith
  | yes issued ↦ elim (dec_lt 0 p.total_assets) [
    | no worthless ↦ ground (
      arith,
      zero-div p.total_shares,
      ap (λ (t : ℕ). s * t / p.total_shares) (le_zero p.total_assets worthless),
    )
    | yes priced ↦ ground (
      arith,
      div-mul-le_self (amount * p.total_shares) p.total_assets,
      balance_mono s p.total_assets p.total_shares (p.total_assets + amount)
          (p.total_shares + amount * p.total_shares / p.total_assets),
    )
  ]
]

le-rounded_up : (n d : ℕ) → 0 < d → n ≤ rounded n d true * d
le-rounded_up n d h = elim (Bool-cases (ltb 0 (n % d))) [
  | inl inexact ↦ rw inexact (omega (arith, div-add-mod' n d, mod-lt n h))
  | inr exact ↦ rw exact (ground (arith, div-add-mod' n d))
]

-- What is burnt is worth at least the amount.
amount-le-burnt :
    (p : Pool) (held amount : ℕ)
    → amount ≤ assets_of p held false
    → amount * p.total_shares ≤ burnt p held amount * p.total_assets
amount-le-burnt p held amount h = ground (
  arith,
  assets_of-mul-le p held,
  mul-le-mul_right p.total_shares h,
  le-rounded_up (amount * p.total_shares) p.total_assets,
)

burnt-le : (p : Pool) (held amount : ℕ) → burnt p held amount ≤ held
burnt-le p held amount = ground arith

assets_of-le : (p : Pool) (s : ℕ) → s ≤ p.total_shares → assets_of p s false ≤ p.total_assets
assets_of-le p s h = elim (dec_lt 0 p.total_shares) [
  | no none_issued ↦ ground arith
  | yes issued ↦ ground (
    arith,
    div-le_of_le-mul p.total_shares {m = s * p.total_assets} {n = p.total_assets}
        (mul-le-mul_right p.total_assets h),
  )
]

-- Multiplied out, both sides say `amount * shares ≤ burn * assets` for what is left.
cross :
    (burn amount shares assets : ℕ)
    → amount * (shares + burn) ≤ burn * (assets + amount)
    → (assets + amount) * shares ≤ assets * (shares + burn)
cross burn amount shares assets h = omega arith

cross_sub :
    (burn amount shares assets : ℕ)
    → burn ≤ shares
    → amount ≤ assets
    → amount * shares ≤ burn * assets
    → assets * (shares - burn) ≤ (assets - amount) * shares
cross_sub burn amount shares assets hb ha h =
    let es : shares ≡ shares - burn + burn = omega arith in
    let ea : assets ≡ assets - amount + amount = omega arith in
    omega (
      arith,
      cross burn amount (shares - burn) (assets - amount) (rw (← es, ← ea) h),
      ap (λ (t : ℕ). t * (shares - burn)) ea,
      ap (λ (t : ℕ). (assets - amount) * t) es,
    )

-- Shares burnt at no less than the price do not lower another balance.
burn_keeps_balance :
    (p : Pool) (s burn amount : ℕ)
    → burn + s ≤ p.total_shares
    → amount ≤ p.total_assets
    → amount * p.total_shares ≤ burn * p.total_assets
    → assets_of p s false
      ≤ assets_of (repriced p (p.total_shares - burn) (p.total_assets - amount)) s false
burn_keeps_balance p s burn amount room small dear = elim (dec_lt 0 (p.total_shares - burn)) [
  | no all_burnt ↦ ground (
    arith,
    zero-div p.total_shares,
    ap (λ (t : ℕ). t * p.total_assets / p.total_shares) (le_zero s (omega arith)),
  )
  | yes some_left ↦ ground (
    arith,
    cross_sub burn amount p.total_shares p.total_assets,
    balance_mono s p.total_assets p.total_shares (p.total_assets - amount) (p.total_shares - burn),
  )
]

-- A debit of src/Vault.sol lowers no other holder's balance: the shares that it burns are rounded
-- up, or are all that the holder has.
pub debit_keeps_balance :
    (p : Pool) (s held amount : ℕ)
    → held + s ≤ p.total_shares
    → amount ≤ assets_of p held false
    → assets_of p s false
      ≤ assets_of
          (repriced p (p.total_shares - burnt p held amount) (p.total_assets - amount))
          s
          false
debit_keeps_balance p s held amount room cover =
    burn_keeps_balance p s (burnt p held amount) amount (omega (arith, burnt-le p held amount))
      (le_trans cover (assets_of-le p held (omega arith))) (amount-le-burnt p held amount cover)
