-- ===== src/Treasury/Calls.antt =====
-- What a ledger call of server/src/treasuryService.ts that answers has run on the vault.
-- A run, as what it returned.
use tende.Base.{Action, Result, Text, err, ok, raise_if, refl, to_lower, to_upper, ℕ, ◌>>◌, ◌≡◌}
use tende.Base.Atomic.{Atomic}
use tende.Vault.{Vault}
use tende.Env.{Env, is_empty}
use tende.World.{World}
use tende.World.Returns.{Returns, raise_if-Returns, Ends-Returns}
use tende.Treasury.{
  vault_admin_debit, vault_admin_credit, admin_debit, admin_credit, no_vault, remote, transact,
}
use tende.Vault.Conservation.{admin_debit-Takes, admin_credit-Adds}
use tende.World.Rules.{remote-transact-Ends}

Atomic-self :
    (v : Vault) (P : Unit {0} → Vault → Type 0) (r : Result (Unit {0}) × Vault)
    → Atomic v P r
    → Atomic v (λ _ v'. r ≡ (ok tt, v')) r
Atomic-self v P (ok a, v') h = refl
Atomic-self v P (err e, v') h = h

-- The call of the vault succeeded, and the database and the memory are as they were.
abbrev pub Called : Action Vault (Unit {0}) → World → World → Type 0
Called m w u =
    (m w.chain.vault ≡ (ok tt, u.chain.vault)) × (u.store ≡ w.store) × (u.memory ≡ w.memory)

guarded-Called :
    (env : Env) (w : World) (m : Action Vault (Unit {0})) (P : Unit {0} → Vault → Type 0)
    → Atomic w.chain.vault P (m w.chain.vault)
    → Returns
        (λ _ u. Called m w u)
        ((do raise_if (is_empty env.config.vault) no_vault; remote (transact m)) w)
guarded-Called env w m P h =
    raise_if-Returns (λ _ u. Called m w u) (is_empty env.config.vault) no_vault w _
      λ _.
        Ends-Returns (λ _ u. Called m w u) _ (remote (transact m) w)
          (remote-transact-Ends m (λ v'. m w.chain.vault ≡ (ok tt, v')) w
            (Atomic-self w.chain.vault P (m w.chain.vault) h))

module _ (env : Env) (wallet : Text) (amount : ℕ) (currency : Text) (w : World) where
  pub vault_admin_debit-Called :
      Returns
        (λ _ u. Called (admin_debit (to_lower wallet) amount (to_upper currency)) w u)
        (vault_admin_debit env wallet amount currency w)
  unfolding vault_admin_debit
  vault_admin_debit-Called =
      guarded-Called env w (admin_debit (to_lower wallet) amount (to_upper currency)) _
        (admin_debit-Takes (to_lower wallet) (to_upper currency) amount w.chain.vault)

  pub vault_admin_credit-Called :
      Returns
        (λ _ u. Called (admin_credit (to_lower wallet) amount (to_upper currency)) w u)
        (vault_admin_credit env wallet amount currency w)
  unfolding vault_admin_credit
  vault_admin_credit-Called =
      guarded-Called env w (admin_credit (to_lower wallet) amount (to_upper currency)) _
        (admin_credit-Adds (to_lower wallet) (to_upper currency) amount w.chain.vault)
