-- ===== src/Treasury.antt =====
-- server/src/treasuryService.ts and the lookups of treasuryDeployService.ts: the vault's ledger as
-- the services call it, and the issuance of treasury tokens behind fiat claims. A currency's code in
-- upper case stands for its hash, an address is keyed in lower case, and the backend's key, which
-- the server does not start without, holds the roles.
pub mod Moves
pub mod Calls
pub mod Conserve
pub mod Reserves
pub mod Balances
use tende.Base.{
  ℕ, Action, Bool, Error, List, Option, Text, [], catch, codes, filter_some, gets, if◌then◌else◌,
  is_some, ltb, map, none, not, or_else, or_raise, pure, raise_if, some, text_eq, thrown, to_lower,
  to_upper, ◌&&◌, ◌++◌, ◌+◌, ◌-◌, ◌>>=◌, ◌>>◌, ◌||◌, ◌∷◌, negsuc, pos, raise, ℤ,
}
use tende.Schema.{StablecoinRow, CountryRow}
use tende.Vault.{admin_credit, admin_debit, withdraw_to_external, unified_balance, receive_mint}
use tende.World.{World, remote, transact, on_vault}
use tende.Env.{Env, is_empty}
use tende.Base.Assoc.{at}
use tende.Base.Rows.{find}

abbrev pub no_vault : Error
no_vault = thrown "No vault address configured"

-- A negative amount is no `uint256`, and its call is never sent.
unfoldable pub as_uint : {S : Type 0} → ℤ → Action S ℕ
as_uint (pos n) = pure n
as_uint (negsuc n) = raise (thrown "value out-of-bounds")

abbrev is_deployed_treasury : StablecoinRow → Bool
is_deployed_treasury s = s.is_treasury_token && (s.is_deployed && is_some s.contract_address)

-- The address column of the first row.
unfoldable pub address_of : Option StablecoinRow → Text
address_of none = []
address_of (some s) = or_else s.contract_address []

unfoldable pub country_currency : Text → List CountryRow → Option Text
country_currency country [] = none
country_currency country (c ∷ cs) =
    if text_eq c.country_code country then some c.currency_code else country_currency country cs

pub record Issuance : Type 0 where
  pub credit_tx : ℕ
  -- the mint's transaction and amount, where one was needed
  pub mint : Option (ℕ × ℕ)

module _ (env : Env) where
  unfoldable pub vault_balance_of : Text → Text → Action World ℕ
  vault_balance_of wallet currency = do
    raise_if (is_empty env.config.vault) no_vault
    remote (on_vault (unified_balance (to_lower wallet) (to_upper currency)))

  unfoldable pub vault_admin_credit : Text → ℕ → Text → Action World ℕ
  vault_admin_credit wallet amount currency = do
    raise_if (is_empty env.config.vault) no_vault
    remote (transact (admin_credit (to_lower wallet) amount (to_upper currency)))

  unfoldable pub vault_admin_debit : Text → ℕ → Text → Action World ℕ
  vault_admin_debit wallet amount currency = do
    raise_if (is_empty env.config.vault) no_vault
    remote (transact (admin_debit (to_lower wallet) amount (to_upper currency)))

  -- `withdrawToExternal`
  unfoldable pub vault_withdraw : Text → Text → Text → ℕ → Action World ℕ
  vault_withdraw wallet recipient token amount = do
    raise_if (is_empty env.config.vault) no_vault
    remote (
        transact (
          withdraw_to_external (to_lower env.config.vault) (to_lower wallet) (to_lower recipient)
            (to_lower token) amount))

  -- `vaultErc20Balance`, and the `balanceOf` of a treasury token at the vault
  unfoldable pub vault_erc20_balance : Text → Action World ℕ
  vault_erc20_balance token = do
    raise_if (is_empty env.config.vault) no_vault
    remote (gets (λ w. at (to_lower token) w.chain.vault.holdings))

  unfoldable pub treasury_token_address_for_fiat : Text → Action World Text
  treasury_token_address_for_fiat fiat = do
    let code = to_upper fiat
    rows ← remote (gets (λ w. w.store.stablecoins))
    let address =
        address_of (find (λ s. text_eq s.base_currency_code code && is_deployed_treasury s) rows)
    pure (
        if not (is_empty address)
        then address
        else if text_eq code (codes "ZAR")
        then env.config.treasury_token_za
        else if text_eq code (codes "ZWL") || text_eq code (codes "ZIG")
        then env.config.treasury_token_zw
        else [])

  unfoldable pub treasury_token_for_country : Text → Text
  treasury_token_for_country country =
      if text_eq (to_upper country) (codes "ZA")
      then env.config.treasury_token_za
      else if text_eq (to_upper country) (codes "ZW")
      then env.config.treasury_token_zw
      else []

  -- `treasuryTokenAddressForCountry`, and the fallback of `resolveTreasuryToken`
  unfoldable pub resolve_treasury_token : Text → Action World Text
  resolve_treasury_token country = do
    w ← remote (gets (λ w. w))
    let fiat = or_else (country_currency (to_upper country) w.store.countries) []
    let from_db = address_of (
        find (λ s. text_eq s.base_currency_code fiat && is_deployed_treasury s) w.store.stablecoins)
    pure (if not (is_empty from_db) then from_db else treasury_token_for_country country)

  -- `treasuryTokenBalanceOf(vault, country)`
  unfoldable pub treasury_token_balance : Text → Action World ℕ
  treasury_token_balance country = do
    token ← resolve_treasury_token country
    raise_if (is_empty token) (thrown "No treasury token configured")
    remote (gets (λ w. at (to_lower token) w.chain.vault.holdings))

  unfoldable pub country_code_for_fiat : Text → Action World Text
  country_code_for_fiat fiat = do
    rows ← remote (gets (λ w. w.store.countries))
    row ←
        or_raise (find (λ c. text_eq c.currency_code (to_upper fiat) && c.is_active) rows)
          (thrown "No country configured")
    pure row.country_code

  -- The loop of `sumAllUserFiatClaimsOnChain`; a wallet that cannot be read is skipped.
  unfoldable pub sum_balances : Text → ℕ → List Text → Action World ℕ
  sum_balances fiat total [] = pure total
  sum_balances fiat total (wallet ∷ wallets) = do
    balance ← catch (vault_balance_of wallet fiat) (λ _. pure 0)
    sum_balances fiat (total + balance) wallets

  unfoldable pub sum_all_user_fiat_claims : Text → Action World ℕ
  sum_all_user_fiat_claims fiat = do
    consumers ← remote (gets (λ w. filter_some (map (λ c. c.wallet_address) w.store.consumers)))
    merchants ← remote (gets (λ w. filter_some (map (λ m. m.wallet_address) w.store.merchants)))
    sum_balances fiat 0 (consumers ++ merchants)

  unfoldable pub unallocated_treasury_backing : Text → Action World ℕ
  unallocated_treasury_backing fiat = if is_empty env.config.vault then pure 0 else do
    country ← country_code_for_fiat fiat
    vault_tt ← treasury_token_balance country
    user_claims ← sum_all_user_fiat_claims fiat
    pure (if ltb user_claims vault_tt then vault_tt - user_claims else 0)

  -- Minted to the vault, as every caller of the modelled services does.
  unfoldable pub mint_treasury_token : ℕ → Text → Action World ℕ
  mint_treasury_token amount fiat = do
    token ← treasury_token_address_for_fiat fiat
    raise_if (is_empty token) (thrown "No treasury token configured")
    remote (transact (receive_mint (to_lower token) amount))

  unfoldable pub mint_shortfall : ℕ → Text → Action World (Option (ℕ × ℕ))
  mint_shortfall needed fiat =
      if ltb 0 needed
      then (do mint_tx ← mint_treasury_token needed fiat; pure (some (mint_tx, needed)))
      else pure none

  unfoldable pub credit_fiat_with_treasury_backing : Text → ℕ → Text → Action World Issuance
  credit_fiat_with_treasury_backing wallet amount fiat = do
    raise_if (is_empty env.config.vault) no_vault
    unallocated ← unallocated_treasury_backing fiat
    mint ← mint_shortfall (if ltb unallocated amount then amount - unallocated else 0) fiat
    credit_tx ← vault_admin_credit wallet amount fiat
    pure (record { credit_tx = credit_tx; mint = mint })
