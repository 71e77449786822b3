-- ===== src/Vault/Fairness.antt =====
-- Nobody's balance in src/Vault.sol falls by another's credit or debit.
use tende.Base.{ℕ, Text, arith, false, text_eq_iff, ◌+◌, ◌-◌, ◌≡◌, ◌≢◌, ◌≤◌, ap, ◌∙◌}
use tende.Vault.{Vault, pool, credit_assets, debit_assets}
use tende.Vault.Writes.{
  pool-set_pool_self, credit_assets_lem, debit_assets_lem, assets_of, shares_of, burnt,
}
use tende.Vault.Solvency.{credit_keeps_balance, debit_keeps_balance}
use tende.Base.Assoc.{Map, at, insert, lookup-insert}
use tende.Base.Atomic.{Atomic, Atomic-mono}

-- What `unifiedBalanceOf` gives where no product leaves 256 bits.
abbrev pub balance : Text → Text → Vault → ℕ
balance user cur v = assets_of (pool cur v) (at user (pool cur v).shares) false

at-insert_other :
    (user other : Text) (n : ℕ) (m : Map ℕ) → user ≢ other → at other (insert user n m) ≡ at other m
at-insert_other user other n m ne =
    ground (arith, lookup-insert user other n m, text_eq_iff user other)

module _ (user other cur : Text) (amount : ℕ) (v : Vault) where
  -- A credit of one user lowers nobody else's balance; where it reverts, nothing changes.
  pub credit_assets-balance :
      user ≢ other
      → Atomic v
          (λ _ v'. balance other cur v ≤ balance other cur v')
          (credit_assets user cur amount v)
  credit_assets-balance ne =
      let p = pool cur v in
      Atomic-mono v (credit_assets user cur amount v)
        (λ _ v' e.
          let written = ap (pool cur) e ∙ pool-set_pool_self cur _ v in
          rw
            (
              written,
              at-insert_other user other (at user p.shares + shares_of p amount false) p.shares ne,
            )
            (credit_keeps_balance p (at other p.shares) amount))
        (credit_assets_lem v user cur amount)

  -- Where two users' shares are within the total, a debit of the one does not lower the balance of
  -- the other; where it reverts, nothing changes.
  pub debit_assets-balance :
      user ≢ other
      → at user (pool cur v).shares + at other (pool cur v).shares ≤ (pool cur v).total_shares
      → Atomic v
          (λ _ v'. balance other cur v ≤ balance other cur v')
          (debit_assets user cur amount v)
  debit_assets-balance ne room =
      let p = pool cur v in
      Atomic-mono v (debit_assets user cur amount v)
        (λ _ v' (cover, h1, h2, e).
          let written = ap (pool cur) e ∙ pool-set_pool_self cur _ v in
          rw
            (
              written,
              at-insert_other user other (at user p.shares - burnt p (at user p.shares) amount)
                  p.shares ne,
            )
            (debit_keeps_balance p (at other p.shares) (at user p.shares) amount room cover))
        (debit_assets_lem v user cur amount)
