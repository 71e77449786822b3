-- ===== src/Treasury/Reserves.antt =====
-- The vault's reserves in server/src/treasuryService.ts: the token behind a currency, the USDC that the
-- vault holds, and the sweep of treasury tokens out of the vault.
use tende.Base.{
  ℕ, Action, Bool, Text, gets, if◌then◌else◌, ltb, modify, pure, raise_if, text_eq, thrown,
  to_lower, ◌-◌, ◌>>=◌, ◌>>◌, ◌||◌, ◌==◌,
}
use tende.World.{World, remote, transact}
use tende.Env.{Env, is_empty}
use tende.Vault.{Vault, zero_address}
use tende.Treasury.{no_vault, resolve_treasury_token, treasury_token_balance}
use tende.Base.Assoc.{at, insert}

-- The vault's side of `forcedTransfer`, which reverts where the vault holds too little.
unfoldable pub forced_transfer : Text → Text → Text → ℕ → Action Vault (Unit {0})
forced_transfer holder token recipient amount = do
  v ← gets (λ v. v)
  raise_if (text_eq recipient zero_address) (thrown "ZeroAddress")
  raise_if (amount == 0) (thrown "ZeroAmount")
  raise_if (ltb (at token v.holdings) amount) (thrown "ERC20InsufficientBalance")
  modify (λ v.
      if text_eq recipient holder
      then v
      else record v { holdings = insert token (at token v.holdings - amount) v.holdings })

abbrev pub is_zero_token : Text → Bool
is_zero_token token = is_empty token || text_eq (to_lower token) zero_address

module _ (env : Env) where
  unfoldable pub sweep_treasury_from_vault : Text → ℕ → Text → Action World ℕ
  sweep_treasury_from_vault recipient amount country = do
    raise_if (is_empty env.config.vault) no_vault
    token ← resolve_treasury_token env country
    raise_if (is_empty token) (thrown "No treasury token configured")
    reserve ← treasury_token_balance env country
    raise_if (ltb reserve amount) (thrown "Insufficient treasury backing in vault reserve")
    remote (
        transact (
          forced_transfer (to_lower env.config.vault) (to_lower token) (to_lower recipient) amount))

  unfoldable pub usdc_reserve_units : Action World ℕ
  usdc_reserve_units = if is_empty env.config.vault then pure 0 else do
    usdc ← remote (gets (λ w. w.chain.usdc_token))
    if is_zero_token usdc
        then pure 0
        else remote (gets (λ w. at (to_lower usdc) w.chain.vault.holdings))
