-- ===== src/Treasury/Balances.antt =====
-- Reading a balance, or encoding an amount, changes nothing.
use tende.Base.{Action, Text, ap, arith, refl, ◌≡◌, negsuc, pos, ℕ, ℤ}
use tende.Vault.{Vault, checked, convert_to_assets, unified_balance}
use tende.World.{on_vault}
use tende.World.Frames.{
  Frame, Within, pure-Within, raise-Within, ReadOnly, Quiet, ReadOnly-Quiet, within,
}
use tende.Env.{Env}
use tende.Treasury.{vault_balance_of, as_uint}

unified_balance_reads : (user cur : Text) (v : Vault) → (unified_balance user cur v).1 ≡ v
unfolding unified_balance convert_to_assets checked
unified_balance_reads user cur v = ground arith

on_vault-ReadOnly :
    {A : Type 0} (m : Action Vault A) → ((v : Vault) → (m v).1 ≡ v) → ReadOnly (on_vault m)
unfolding on_vault
on_vault-ReadOnly m reads = record {
  holds = λ w. record {
    chain = ap (λ v. record w.chain { vault = v }) (reads w.chain.vault);
    store = refl;
    memory = refl;
  };
}

unified_balance-ReadOnly : (user cur : Text) → ReadOnly (on_vault (unified_balance user cur))
unified_balance-ReadOnly user cur =
    on_vault-ReadOnly (unified_balance user cur) (unified_balance_reads user cur)

pub vault_balance_of-ReadOnly :
    (env : Env) (wallet currency : Text) → ReadOnly (vault_balance_of env wallet currency)
unfolding vault_balance_of
vault_balance_of-ReadOnly env wallet currency = search (within, unified_balance-ReadOnly) depth 20

pub vault_balance_of-Quiet :
    (env : Env) (wallet currency : Text) → Quiet (vault_balance_of env wallet currency)
vault_balance_of-Quiet env wallet currency =
    ReadOnly-Quiet (vault_balance_of env wallet currency)
      (vault_balance_of-ReadOnly env wallet currency)

pub as_uint-Within : (F : Frame) (z : ℤ) → Within F (as_uint z)
unfolding as_uint
as_uint-Within F (pos n) = pure-Within F n
as_uint-Within F (negsuc n) = raise-Within F ℕ _
