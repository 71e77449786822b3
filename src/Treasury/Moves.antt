-- ===== src/Treasury/Moves.antt =====
-- What the ledger calls of server/src/treasuryService.ts do to the recorded assets, whatever the
-- network does.
use tende.Base.{
  ℕ, Text, ap, inl, refl, to_lower, to_upper, ◌+◌, ◌≡◌, ◌⊎◌, Action, inr, raise_if, ◌>>◌,
}
use tende.Vault.{Vault, pool, admin_credit, admin_debit}
use tende.Vault.Conservation.{assets, SameBut, Adds, Takes, admin_credit-Adds, admin_debit-Takes}
use tende.World.{World, remote, transact}
use tende.World.Rules.{
  Ends, ledger, Elsewhere, Elsewhere-refl, raise_if-Ends, remote-transact-Ends, Ends-mono,
}
use tende.World.Returns.{Returns, Returns-mono, Ends-Returns}
use tende.Env.{Env, is_empty}
use tende.Treasury.{vault_admin_credit, vault_admin_debit, no_vault}
use tende.Base.Atomic.{Atomic}

-- The ledger of a currency rose, or fell, by the amount, and nothing else changed but the network.
abbrev pub Credited : Text → ℕ → World → World → Type 0
Credited cur amount w w' = (ledger cur w' ≡ ledger cur w + amount) × Elsewhere cur w w'

abbrev pub Debited : Text → ℕ → World → World → Type 0
Debited cur amount w w' = (ledger cur w' + amount ≡ ledger cur w) × Elsewhere cur w w'

abbrev pub Untouched : Text → World → World → Type 0
Untouched cur w w' = (ledger cur w' ≡ ledger cur w) × Elsewhere cur w w'

-- A call that no vault is configured for, or that is lost, has done nothing or all of it.
guarded-Ends :
    (env : Env) (cur : Text) (w : World) (m : Action Vault (Unit {0})) (Q : Vault → Type 0)
    → ((v' : Vault) → Q v' → SameBut cur w.chain.vault v')
    → Atomic w.chain.vault (λ _ v'. Q v') (m w.chain.vault)
    → Ends
        (λ _ w'. Q w'.chain.vault × Elsewhere cur w w')
        (λ w'. ((w'.chain.vault ≡ w.chain.vault) ⊎ Q w'.chain.vault) × Elsewhere cur w w')
        ((do raise_if (is_empty env.config.vault) no_vault; remote (transact m)) w)
guarded-Ends env cur w m Q same h =
    raise_if-Ends (λ _ w'. Q w'.chain.vault × Elsewhere cur w w')
      (λ w'. ((w'.chain.vault ≡ w.chain.vault) ⊎ Q w'.chain.vault) × Elsewhere cur w w')
      (is_empty env.config.vault) no_vault w (λ _. remote (transact m))
      (inl refl, Elsewhere-refl cur w)
      λ _.
        Ends-mono _ _ _ _ (remote (transact m) w)
          (λ _ w' (q, s, k). (q, elsewhere w' (same w'.chain.vault q) s k))
          (λ w' (d, s, k). (d, failed w' d s k)) (remote-transact-Ends m Q w h)
  where
    elsewhere :
        (w' : World)
        → SameBut cur w.chain.vault w'.chain.vault
        → w'.store ≡ w.store
        → w'.memory ≡ w.memory
        → Elsewhere cur w w'
    elsewhere w' b s k = record {
      others = λ c ne. ap (λ p. p.total_assets) (b.pools c ne);
      held = b.held;
      stored = s;
      kept = k;
    }

    failed :
        (w' : World)
        → (w'.chain.vault ≡ w.chain.vault) ⊎ Q w'.chain.vault
        → w'.store ≡ w.store
        → w'.memory ≡ w.memory
        → Elsewhere cur w w'
    failed w' (inl e) s k = record {
      others = λ c ne. ap (λ v. (pool c v).total_assets) e;
      held = ap (λ v. v.holdings) e;
      stored = s;
      kept = k;
    }
    failed w' (inr q) s k = elsewhere w' (same w'.chain.vault q) s k

module _ (env : Env) (wallet : Text) (amount : ℕ) (currency : Text) (w : World) where
  pub vault_admin_credit-Ends :
      Ends
        (λ _ w'. Credited (to_upper currency) amount w w')
        (λ w'. Untouched (to_upper currency) w w' ⊎ Credited (to_upper currency) amount w w')
        (vault_admin_credit env wallet amount currency w)
  unfolding vault_admin_credit
  vault_admin_credit-Ends =
      Ends-mono _ _ _ _ (vault_admin_credit env wallet amount currency w)
        (λ _ w' (q, other). (q.0, other)) (λ w' h. either w' h.0 h.1)
        (guarded-Ends env (to_upper currency) w
          (admin_credit (to_lower wallet) amount (to_upper currency))
          (λ v'. Adds (to_upper currency) amount w.chain.vault v') (λ v' q. q.1)
          (admin_credit-Adds (to_lower wallet) (to_upper currency) amount w.chain.vault))
    where
      either :
          (w' : World)
          → (w'.chain.vault ≡ w.chain.vault)
            ⊎ Adds (to_upper currency) amount w.chain.vault w'.chain.vault
          → Elsewhere (to_upper currency) w w'
          → Untouched (to_upper currency) w w' ⊎ Credited (to_upper currency) amount w w'
      either w' (inl e) other = inl (ap (assets (to_upper currency)) e, other)
      either w' (inr q) other = inr (q.0, other)

  pub vault_admin_debit-Ends :
      Ends
        (λ _ w'. Debited (to_upper currency) amount w w')
        (λ w'. Untouched (to_upper currency) w w' ⊎ Debited (to_upper currency) amount w w')
        (vault_admin_debit env wallet amount currency w)
  unfolding vault_admin_debit
  vault_admin_debit-Ends =
      Ends-mono _ _ _ _ (vault_admin_debit env wallet amount currency w)
        (λ _ w' (q, other). (q.0, other)) (λ w' h. either w' h.0 h.1)
        (guarded-Ends env (to_upper currency) w
          (admin_debit (to_lower wallet) amount (to_upper currency))
          (λ v'. Takes (to_upper currency) amount w.chain.vault v') (λ v' q. q.1)
          (admin_debit-Takes (to_lower wallet) (to_upper currency) amount w.chain.vault))
    where
      either :
          (w' : World)
          → (w'.chain.vault ≡ w.chain.vault)
            ⊎ Takes (to_upper currency) amount w.chain.vault w'.chain.vault
          → Elsewhere (to_upper currency) w w'
          → Untouched (to_upper currency) w w' ⊎ Debited (to_upper currency) amount w w'
      either w' (inl e) other = inl (ap (assets (to_upper currency)) e, other)
      either w' (inr q) other = inr (q.0, other)

  -- Neither touches the database or the memory.
  pub vault_admin_credit_stored :
      Returns
        (λ _ u. (u.store ≡ w.store) × (u.memory ≡ w.memory))
        (vault_admin_credit env wallet amount currency w)
  vault_admin_credit_stored =
      Returns-mono _ (λ _ u. Credited (to_upper currency) amount w u)
        (vault_admin_credit env wallet amount currency w) (λ _ u h. (h.1.stored, h.1.kept))
        (Ends-Returns (λ _ u. Credited (to_upper currency) amount w u)
          (λ u. Untouched (to_upper currency) w u ⊎ Credited (to_upper currency) amount w u)
          (vault_admin_credit env wallet amount currency w) vault_admin_credit-Ends)

  pub vault_admin_debit_stored :
      Returns
        (λ _ u. (u.store ≡ w.store) × (u.memory ≡ w.memory))
        (vault_admin_debit env wallet amount currency w)
  vault_admin_debit_stored =
      Returns-mono _ (λ _ u. Debited (to_upper currency) amount w u)
        (vault_admin_debit env wallet amount currency w) (λ _ u h. (h.1.stored, h.1.kept))
        (Ends-Returns (λ _ u. Debited (to_upper currency) amount w u)
          (λ u. Untouched (to_upper currency) w u ⊎ Debited (to_upper currency) amount w u)
          (vault_admin_debit env wallet amount currency w) vault_admin_debit-Ends)
