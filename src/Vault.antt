-- ===== src/Vault.antt =====
-- The unified ledger of src/Vault.sol, as far as the server calls it: shares and assets for each
-- currency, the admin's credits and debits, and withdrawals of a backing token. A mapping is an
-- association list that reads zero where nothing was written. Addresses are keyed in lower case,
-- and a currency's code stands for its hash, which is never zero. Roles and events are left out:
-- the server's signer holds the roles.
pub mod Writes
pub mod Conservation
pub mod Solvency
pub mod Fairness
use tende.Base.{
  ℕ, ◌+◌, ◌-◌, ◌*◌, ◌/◌, ◌%◌, ◌^◌, Bool, true, false, ◌&&◌, ◌||◌, ltb, ◌==◌, if◌then◌else◌, or_else,
  Text, codes, text_eq, Action, thrown, pure, raise, gets, modify, raise_if, ◌>>=◌, ◌>>◌, or_raise,
  [],
}
use tende.Base.Assoc.{Map, lookup, insert, at}

pub record Pool : Type 0 where
  pub shares : Map ℕ
  pub total_shares : ℕ
  pub total_assets : ℕ

pub record Vault : Type 0 where
  -- by currency
  pub pools : Map Pool
  -- `tokenCurrency`, by token address
  pub token_currency : Map Text
  -- the vault's ERC-20 balance, by token address
  pub holdings : Map ℕ

abbrev pub empty_pool : Pool
empty_pool = record { shares = []; total_shares = 0; total_assets = 0 }

unfoldable pub pool : Text → Vault → Pool
pool cur v = or_else (lookup cur v.pools) empty_pool

unfoldable pub set_pool : Text → Pool → Vault → Vault
set_pool cur p v = record v { pools = insert cur p v.pools }

abbrev pub zero_address : Text
zero_address = codes "0x0000000000000000000000000000000000000000"

-- Solidity 0.8 reverts where a sum or a product leaves 256 bits.
unfoldable pub checked : {S : Type 0} → ℕ → Action S ℕ
checked n s = (if ltb n (2 ^ 256) then pure n else raise (thrown "Panic(0x11)")) s

unfoldable pub convert_to_shares : {S : Type 0} → Pool → ℕ → Bool → Action S ℕ
convert_to_shares p assets round_up =
    if p.total_shares == 0 || p.total_assets == 0 then pure assets else do
      product ← checked (assets * p.total_shares)
      let quotient = product / p.total_assets
      if round_up && ltb 0 (product % p.total_assets) then checked (quotient + 1) else pure quotient

unfoldable pub convert_to_assets : {S : Type 0} → Pool → ℕ → Bool → Action S ℕ
convert_to_assets p shares round_up = if p.total_shares == 0 then pure 0 else do
  product ← checked (shares * p.total_assets)
  let quotient = product / p.total_shares
  if round_up && ltb 0 (product % p.total_shares) then checked (quotient + 1) else pure quotient

unfoldable pub credit_assets : Text → Text → ℕ → Action Vault (Unit {0})
credit_assets user cur assets = do
  p ← gets (pool cur)
  new_shares ← convert_to_shares p assets false
  held ← checked (at user p.shares + new_shares)
  total_shares ← checked (p.total_shares + new_shares)
  total_assets ← checked (p.total_assets + assets)
  modify (
      set_pool cur (record {
        shares = insert user held p.shares;
        total_shares = total_shares;
        total_assets = total_assets;
      }))

unfoldable pub debit_assets : Text → Text → ℕ → Action Vault (Unit {0})
debit_assets user cur assets = do
  p ← gets (pool cur)
  let user_shares = at user p.shares
  bal ← convert_to_assets p user_shares false
  raise_if (ltb bal assets) (thrown "InsufficientBalance")
  wanted ← if assets == bal then pure user_shares else convert_to_shares p assets true
  let burn_shares = if ltb user_shares wanted then user_shares else wanted
  raise_if (ltb p.total_shares burn_shares || ltb p.total_assets assets) (thrown "Panic(0x11)")
  modify (
      set_pool cur (record {
        shares = insert user (user_shares - burn_shares) p.shares;
        total_shares = p.total_shares - burn_shares;
        total_assets = p.total_assets - assets;
      }))

abbrev is_zero_address : Text → Bool
is_zero_address a = text_eq a zero_address

unfoldable pub admin_credit : Text → ℕ → Text → Action Vault (Unit {0})
admin_credit user amount cur = do
  raise_if (is_zero_address user) (thrown "ZeroAddress")
  raise_if (amount == 0) (thrown "ZeroAmount")
  credit_assets user cur amount

unfoldable pub admin_debit : Text → ℕ → Text → Action Vault (Unit {0})
admin_debit user amount cur = do
  raise_if (is_zero_address user) (thrown "ZeroAddress")
  raise_if (amount == 0) (thrown "ZeroAmount")
  debit_assets user cur amount

-- The ERC-20 transfer reverts, and the debit with it, where the vault does not hold the tokens. A transfer
-- to the vault itself, at `holder`, leaves its tokens as they were.
unfoldable pub withdraw_to_external : Text → Text → Text → Text → ℕ → Action Vault (Unit {0})
withdraw_to_external holder user recipient token amount = do
  raise_if (is_zero_address user) (thrown "ZeroAddress")
  raise_if (is_zero_address recipient) (thrown "ZeroAddress")
  raise_if (is_zero_address token) (thrown "ZeroAddress")
  raise_if (amount == 0) (thrown "ZeroAmount")
  v ← gets (λ v. v)
  cur ← or_raise (lookup token v.token_currency) (thrown "TokenNotSupported")
  raise_if (ltb (at token v.holdings) amount) (thrown "ERC20InsufficientBalance")
  debit_assets user cur amount
  modify (λ w.
      if text_eq recipient holder
      then w
      else record w { holdings = insert token (at token w.holdings - amount) w.holdings })

unfoldable pub unified_balance : Text → Text → Action Vault ℕ
unified_balance user cur = do p ← gets (pool cur); convert_to_assets p (at user p.shares) false

-- What a treasury token's `mint` to the vault does to the vault's holdings. The token's supply, its pause and
-- its block list are not part of the model, so that it does not revert for these.
unfoldable pub receive_mint : Text → ℕ → Action Vault (Unit {0})
receive_mint token amount = do
  raise_if (amount == 0) (thrown "ZeroAmount")
  modify (λ w. record w { holdings = insert token (at token w.holdings + amount) w.holdings })
