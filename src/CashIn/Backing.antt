-- ===== src/CashIn/Backing.antt =====
-- A deposit is backed: it mints as much as it credits.
use tende.Base.{ℕ, Text, arith, subst, to_lower, to_upper, ◌+◌, ◌≡◌, ◌⊎◌, ap, refl, ◌∙◌}
use tende.Vault.{Vault, pool, receive_mint}
use tende.Vault.Conservation.{assets}
use tende.World.{World, remote, transact}
use tende.World.Rules.{ledger, remote-transact-Ends}
use tende.World.Frames.{no_transaction, Quiet, quiet}
use tende.World.Returns.{
  Returns, Returns-mono, bind-Returns, raise_if-Returns, Ends-Returns, Within-Returns,
}
use tende.Env.{Env, is_empty}
use tende.Treasury.{
  no_vault, mint_treasury_token, vault_admin_credit, treasury_token_address_for_fiat,
}
use tende.Treasury.Moves.{Credited, Untouched, vault_admin_credit-Ends}
use tende.CashIn.{CashInInput, CashInResult, reserve, record_transactions, cash_in}
use tende.Base.Assoc.{at, sum, sum-insert}
use tende.Base.Atomic.{Atomic}

-- The vault holds more tokens by the amount, and owes what it did.
abbrev pub Mints : ℕ → Vault → Vault → Type 0
Mints amount v v' = (sum v'.holdings ≡ sum v.holdings + amount) × (v'.pools ≡ v.pools)

receive_mint-Mints :
    (token : Text) (amount : ℕ) (v : Vault)
    → Atomic v (λ _ v'. Mints amount v v') (receive_mint token amount v)
unfolding receive_mint
receive_mint-Mints token amount v =
    ground (arith, sum-insert token (at token v.holdings + amount) v.holdings)

assets_of_pools : (cur : Text) (v v' : Vault) → v'.pools ≡ v.pools → assets cur v' ≡ assets cur v
unfolding pool
assets_of_pools cur v v' same = rw same refl

token_for_fiat-Quiet : (env : Env) (fiat : Text) → Quiet (treasury_token_address_for_fiat env fiat)
unfolding treasury_token_address_for_fiat
token_for_fiat-Quiet env fiat = search quiet depth 20

mint_treasury_token-Mints :
    (env : Env) (amount : ℕ) (fiat : Text) (w : World)
    → Returns
        (λ _ u. Mints amount w.chain.vault u.chain.vault)
        (mint_treasury_token env amount fiat w)
unfolding mint_treasury_token
mint_treasury_token-Mints env amount fiat w =
    let P : ℕ → World → Type 0 = λ _ u. Mints amount w.chain.vault u.chain.vault in
    bind-Returns P (λ _ u. u.chain ≡ w.chain) (treasury_token_address_for_fiat env fiat w) _
      (Within-Returns no_transaction (treasury_token_address_for_fiat env fiat)
        (token_for_fiat-Quiet env fiat) w)
      λ token u same. raise_if-Returns P (is_empty token) _ u _ λ given.
        Returns-mono P
          (λ _ v.
            Mints amount u.chain.vault v.chain.vault × (v.store ≡ u.store) × (v.memory ≡ u.memory))
          (remote (transact (receive_mint (to_lower token) amount)) u)
          (λ _ v (minted, s, k). subst (λ c. Mints amount c.vault v.chain.vault) same minted)
          (Ends-Returns
            (λ _ v.
              Mints amount u.chain.vault v.chain.vault
              × (v.store ≡ u.store)
              × (v.memory ≡ u.memory))
            (λ v.
              ((v.chain.vault ≡ u.chain.vault) ⊎ Mints amount u.chain.vault v.chain.vault)
              × (v.store ≡ u.store)
              × (v.memory ≡ u.memory))
            (remote (transact (receive_mint (to_lower token) amount)) u)
            (remote-transact-Ends (receive_mint (to_lower token) amount)
              (λ v'. Mints amount u.chain.vault v') u
              (receive_mint-Mints (to_lower token) amount u.chain.vault)))

vault_admin_credit-Credited :
    (env : Env) (wallet : Text) (amount : ℕ) (currency : Text) (w : World)
    → Returns
        (λ _ u. Credited (to_upper currency) amount w u)
        (vault_admin_credit env wallet amount currency w)
vault_admin_credit-Credited env wallet amount currency w =
    Ends-Returns (λ _ u. Credited (to_upper currency) amount w u)
      (λ u. Untouched (to_upper currency) w u ⊎ Credited (to_upper currency) amount w u)
      (vault_admin_credit env wallet amount currency w)
      (vault_admin_credit-Ends env wallet amount currency w)

reserve-Quiet : (p : CashInInput) → Quiet (reserve p)
unfolding reserve
reserve-Quiet p = search quiet depth 20

record_transactions-Quiet :
    (id mint_tx credit_tx : ℕ) → Quiet (record_transactions id mint_tx credit_tx)
unfolding record_transactions
record_transactions-Quiet id mint_tx credit_tx = search quiet depth 20

-- The tokens that the vault holds and the assets that it records in the deposit's currency.
abbrev pub Backed : CashInInput → World → World → Type 0
Backed p w u =
    (sum u.chain.vault.holdings ≡ sum w.chain.vault.holdings + p.amount_units)
    × (ledger (to_upper p.currency) u ≡ ledger (to_upper p.currency) w + p.amount_units)

-- A deposit that succeeds has raised the tokens that the vault holds and the recorded assets of its
-- currency by its amount, both.
pub cash_in-Backed :
    (env : Env) (p : CashInInput) (w : World) → Returns (λ r u. Backed p w u) (cash_in env p w)
unfolding cash_in
cash_in-Backed env p w =
    let P : CashInResult → World → Type 0 = λ r u. Backed p w u in
    raise_if-Returns P (is_empty env.config.vault) no_vault w _ λ _.
      bind-Returns P (λ _ u. u.chain ≡ w.chain) (reserve p w) _
        (Within-Returns no_transaction (reserve p) (reserve-Quiet p) w)
        λ id u kept.
          bind-Returns P (λ _ v. Mints p.amount_units u.chain.vault v.chain.vault)
            (mint_treasury_token env p.amount_units p.currency u) _
            (mint_treasury_token-Mints env p.amount_units p.currency u)
            λ mint_tx v minted.
              bind-Returns P (λ _ x. Credited (to_upper p.currency) p.amount_units v x)
                (vault_admin_credit env p.wallet p.amount_units p.currency v) _
                (vault_admin_credit-Credited env p.wallet p.amount_units p.currency v)
                λ credit_tx x credited.
                  bind-Returns P (λ _ y. y.chain ≡ x.chain)
                    (record_transactions id mint_tx credit_tx x) _
                    (Within-Returns no_transaction (record_transactions id mint_tx credit_tx)
                      (record_transactions-Quiet id mint_tx credit_tx) x)
                    λ _ y same.
                      let cur = to_upper p.currency in
                      let held_y : sum y.chain.vault.holdings ≡ sum v.chain.vault.holdings =
                        ap (λ c. sum c.vault.holdings) same ∙ ap sum credited.1.held in
                      let held_u : sum u.chain.vault.holdings ≡ sum w.chain.vault.holdings =
                        ap (λ c. sum c.vault.holdings) kept in
                      let owed_y : ledger cur y ≡ ledger cur x =
                        ap (λ c. assets cur c.vault) same in
                      let owed_v : ledger cur v ≡ ledger cur u =
                        assets_of_pools cur u.chain.vault v.chain.vault minted.1 in
                      let owed_u : ledger cur u ≡ ledger cur w =
                        ap (λ c. assets cur c.vault) kept in
                      (omega (arith, minted.0), omega (arith, credited.0))
