-- ===== src/CashIn/Once.antt =====
-- A reference pays out once.
use tende.Base.{
  ℕ, List, Text, [], ap, arith, false, refl, text_eq_refl, true, ◌++◌, ◌==◌, ◌∙◌, ◌∷◌, ◌≡◌, ◌≤◌,
}
use tende.Schema.{DepositReference}
use tende.World.{World, remote, set_store, fresh_id}
use tende.World.Frames.{store_kept, KeepsStore, within}
use tende.World.Queries.{transact-KeepsStore}
use tende.World.Returns.{
  Returns, Fails, IsOk, returned, Returns-mono, bind-Returns, raise_if-Returns, remote-Returns,
  store-Returns, Within-Returns,
}
use tende.Env.{Env, is_empty}
use tende.Treasury.{
  no_vault, mint_treasury_token, vault_admin_credit, treasury_token_address_for_fiat,
}
use tende.World.{Store}
use tende.CashIn.{
  record_transactions, CashInInput, CashInResult, is_used, reserve, reserved, set_transactions,
  cash_in, already_used,
}
use tende.Base.Rows.{update_where}

mint_treasury_token-KeepsStore :
    (env : Env) (amount : ℕ) (fiat : Text) → KeepsStore (mint_treasury_token env amount fiat)
unfolding mint_treasury_token treasury_token_address_for_fiat
mint_treasury_token-KeepsStore env amount fiat = search (within, transact-KeepsStore) depth 20

vault_admin_credit-KeepsStore :
    (env : Env) (wallet : Text) (amount : ℕ) (currency : Text)
    → KeepsStore (vault_admin_credit env wallet amount currency)
unfolding vault_admin_credit
vault_admin_credit-KeepsStore env wallet amount currency =
    search (within, transact-KeepsStore) depth 20

is_used-append :
    (p : CashInInput) (id : ℕ) (rows : List DepositReference)
    → is_used p.reference (rows ++ reserved p id ∷ []) ≡ true
unfolding is_used reserved
is_used-append p id [] = ground (arith, text_eq_refl p.reference)
is_used-append p id (r ∷ rows) = ground (arith, is_used-append p id rows)

is_used-update_where :
    (reference : Text) (id mint_tx credit_tx : ℕ) (rows : List DepositReference)
    → is_used reference (update_where (λ d. d.id == id) (set_transactions mint_tx credit_tx) rows)
      ≡ is_used reference rows
unfolding is_used update_where set_transactions
is_used-update_where reference id mint_tx credit_tx [] = refl
is_used-update_where reference id mint_tx credit_tx (r ∷ rows) =
    ground (arith, is_used-update_where reference id mint_tx credit_tx rows)

-- What reserving tells.
abbrev pub Reserved : Text → World → World → Type 0
Reserved reference w u =
    (is_used reference w.store.deposit_references ≡ false)
    × (is_used reference u.store.deposit_references ≡ true)

reserve-Returns :
    (p : CashInInput) (w : World) → Returns (λ _ u. Reserved p.reference w u) (reserve p w)
unfolding reserve fresh_id set_store
reserve-Returns p w =
    let P : ℕ → World → Type 0 = λ _ u. Reserved p.reference w u in
    remote-Returns P _ w λ n e.
      raise_if-Returns P (is_used p.reference w.store.deposit_references) already_used _ _
        λ fresh. (fresh, is_used-append p w.store.next_id w.store.deposit_references)

record_transactions-Returns :
    (reference : Text) (id mint_tx credit_tx : ℕ) (w : World)
    → Returns
        (λ _ u.
          is_used reference u.store.deposit_references
          ≡ is_used reference w.store.deposit_references)
        (record_transactions id mint_tx credit_tx w)
unfolding record_transactions
record_transactions-Returns reference id mint_tx credit_tx w =
    let f : Store → Store = λ s. record s {
      deposit_references =
          update_where (λ d. d.id == id) (set_transactions mint_tx credit_tx) s.deposit_references;
    } in
    Returns-mono
      (λ _ u.
        is_used reference u.store.deposit_references ≡ is_used reference w.store.deposit_references)
      (λ _ u. (u.store ≡ f w.store) × (u.chain ≡ w.chain) × (u.memory ≡ w.memory))
      (remote (set_store f) w)
      (λ _ u h.
        ap (λ s. is_used reference s.deposit_references) h.0
        ∙ is_used-update_where reference id mint_tx credit_tx w.store.deposit_references)
      (store-Returns f w)

-- A deposit that succeeds was under a reference that had not been used and now has been, and reports
-- the amount that was asked for.
pub cash_in-Returns :
    (env : Env) (p : CashInInput) (w : World)
    → Returns
        (λ r u. Reserved p.reference w u × (r.amount_units ≡ p.amount_units))
        (cash_in env p w)
unfolding cash_in
cash_in-Returns env p w =
    let P : CashInResult → World → Type 0 =
      λ r u. Reserved p.reference w u × (r.amount_units ≡ p.amount_units) in
    raise_if-Returns P (is_empty env.config.vault) no_vault w _ λ _.
      bind-Returns P (λ _ u. Reserved p.reference w u) (reserve p w) _ (reserve-Returns p w)
        λ id u (fresh, used).
          bind-Returns P (λ _ v. (v.store ≡ u.store) × (u.net.now ≤ v.net.now))
            (mint_treasury_token env p.amount_units p.currency u) _
            (Within-Returns store_kept (mint_treasury_token env p.amount_units p.currency)
              (mint_treasury_token-KeepsStore env p.amount_units p.currency) u)
            λ mint_tx v kept.
              bind-Returns P (λ _ x. (x.store ≡ v.store) × (v.net.now ≤ x.net.now))
                (vault_admin_credit env p.wallet p.amount_units p.currency v) _
                (Within-Returns store_kept
                  (vault_admin_credit env p.wallet p.amount_units p.currency)
                  (vault_admin_credit-KeepsStore env p.wallet p.amount_units p.currency) v)
                λ credit_tx x kept2.
                  bind-Returns P
                    (λ _ y.
                      is_used p.reference y.store.deposit_references
                      ≡ is_used p.reference x.store.deposit_references)
                    (record_transactions id mint_tx credit_tx x) _
                    (record_transactions-Returns p.reference id mint_tx credit_tx x)
                    λ _ y same. (
                      (
                        fresh,
                        same
                            ∙ ap (λ s. is_used p.reference s.deposit_references) (kept2.0 ∙ kept.0)
                            ∙ used,
                      ),
                      refl,
                    )

-- Once a deposit has succeeded, none under the same reference succeeds on the references that it left.
pub cash_in_once :
    (env : Env) (p q : CashInInput) (w u : World)
    → q.reference ≡ p.reference
    → IsOk (cash_in env p w)
    → u.store.deposit_references ≡ (cash_in env p w).1.store.deposit_references
    → Fails (cash_in env q u)
cash_in_once env p q w u same done left =
    let (r, er, ((fresh, used), amount)) = returned _ _ (cash_in-Returns env p w) done in
    Returns-mono _ _ (cash_in env q u) (λ r' v ((unused, now), amount'). cc)
      (cash_in-Returns env q u)
