-- ===== src/Vault/Conservation.antt =====
-- What the admin's calls of src/Vault.sol do to the recorded assets: they are atomic, and move
-- the total of one currency by exactly the amount.
use tende.Base.{
  ℕ, Text, ap, arith, refl, ◌+◌, ◌≡◌, ◌≢◌, ltb, some, false, text_eq_refl, ◌-◌, Bool, if◌then◌else◌,
  text_eq, true,
}
use tende.Base.Atomic.{Atomic, Atomic-mono}
use tende.Vault.{
  Pool, Vault, pool, set_pool, credit_assets, debit_assets, admin_credit, admin_debit,
  withdraw_to_external,
}
use tende.Vault.Writes.{pool-set_pool, pool-set_pool_self, credit_assets_lem, debit_assets_lem}
use tende.Base.Assoc.{at, insert, lookup, lookup-insert}

abbrev pub assets : Text → Vault → ℕ
assets cur v = (pool cur v).total_assets

-- Everything but the pool of `cur` is as it was.
pub record SameBut (cur : Text) (v v' : Vault) : Type 0 where
  pub pools : (other : Text) → cur ≢ other → pool other v' ≡ pool other v
  pub tokens : v'.token_currency ≡ v.token_currency
  pub held : v'.holdings ≡ v.holdings

set_pool-SameBut : (cur : Text) (p : Pool) (v : Vault) → SameBut cur v (set_pool cur p v)
unfolding set_pool
set_pool-SameBut cur p v = record {
  pools = λ other ne. pool-set_pool cur other p v ne;
  tokens = refl;
  held = refl;
}

abbrev pub Adds : Text → ℕ → Vault → Vault → Type 0
Adds cur amount v v' = (assets cur v' ≡ assets cur v + amount) × SameBut cur v v'

abbrev pub Takes : Text → ℕ → Vault → Vault → Type 0
Takes cur amount v v' = (assets cur v' + amount ≡ assets cur v) × SameBut cur v v'

pub credit_assets-Adds :
    (user cur : Text) (amount : ℕ) (v : Vault)
    → Atomic v (λ _ v'. Adds cur amount v v') (credit_assets user cur amount v)
credit_assets-Adds user cur amount v =
    Atomic-mono v (credit_assets user cur amount v)
      (λ _ v' e.
        rw e (ap (λ q. q.total_assets) (pool-set_pool_self cur _ v), set_pool-SameBut cur _ v))
      (credit_assets_lem v user cur amount)

pub debit_assets-Takes :
    (user cur : Text) (amount : ℕ) (v : Vault)
    → Atomic v (λ _ v'. Takes cur amount v v') (debit_assets user cur amount v)
debit_assets-Takes user cur amount v =
    Atomic-mono v (debit_assets user cur amount v)
      (λ _ v' h. rw (h.3) (
        omega (arith, h.2, ap (λ q. q.total_assets) (pool-set_pool_self cur _ v)),
        set_pool-SameBut cur _ v,
      ))
      (debit_assets_lem v user cur amount)

-- The assets of `cur` fall by the amount, and so do the tokens that the vault holds, unless it is the one
-- that receives them.
abbrev pub Withdraws : Text → Text → Bool → ℕ → Vault → Vault → Type 0
Withdraws cur token to_self amount v v' =
    (assets cur v' + amount ≡ assets cur v)
    × (at token v'.holdings + (if to_self then 0 else amount) ≡ at token v.holdings)
    × ((other : Text) → cur ≢ other → pool other v' ≡ pool other v)

transfer_out :
    (cur token : Text) (to_self : Bool) (amount : ℕ) (v v' : Vault)
    → ltb (at token v.holdings) amount ≡ false
    → Takes cur amount v v'
    → Withdraws cur token to_self amount v (
        if to_self
        then v'
        else record v' { holdings = insert token (at token v'.holdings - amount) v'.holdings })
unfolding pool
transfer_out cur token true amount v v' held (less, same) =
    (less, rw (same.held) (omega arith), same.pools)
transfer_out cur token false amount v v' held (less, same) = (
  less,
  rw
      (
        lookup-insert token token (at token v'.holdings - amount) v'.holdings,
        text_eq_refl token,
        same.held,
      )
      (ground arith),
  same.pools,
)

module _ (user cur : Text) (amount : ℕ) (v : Vault) where
  -- An admin credit adds exactly the amount to the assets of its currency, and changes nothing
  -- else but shares of that currency; where it reverts, nothing changes.
  pub admin_credit-Adds : Atomic v (λ _ v'. Adds cur amount v v') (admin_credit user amount cur v)
  unfolding admin_credit
  admin_credit-Adds = ground (arith, credit_assets-Adds user cur amount v)

  -- An admin debit takes exactly the amount from the assets of its currency, and changes nothing
  -- else but shares of that currency; where it reverts, nothing changes.
  pub admin_debit-Takes : Atomic v (λ _ v'. Takes cur amount v v') (admin_debit user amount cur v)
  unfolding admin_debit
  admin_debit-Takes = ground (arith, debit_assets-Takes user cur amount v)

  -- A withdrawal of a token of the currency takes exactly the amount from the recorded assets and, unless
  -- the vault itself, at `holder`, is the recipient, from the tokens that the vault holds; it changes no
  -- other pool; where it reverts, nothing changes.
  pub withdraw_to_external-Withdraws :
      (holder recipient token : Text)
      → lookup token v.token_currency ≡ some cur
      → Atomic v
          (λ _ v'. Withdraws cur token (text_eq recipient holder) amount v v')
          (withdraw_to_external holder user recipient token amount v)
  unfolding withdraw_to_external
  withdraw_to_external-Withdraws holder recipient token known = ground (
    arith,
    debit_assets-Takes user cur amount v,
    transfer_out cur token (text_eq recipient holder) amount v (debit_assets user cur amount v).1,
  )
