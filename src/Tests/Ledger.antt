-- ===== src/Tests/Ledger.antt =====
-- The vault's ledger on a pool of 100 shares and 101 units.
use tende.Base.{arith, codes, refl, text_eq, ◌≢◌, ◌≤◌, false, text_eq_iff, true, ◌≡◌}
use tende.Vault.{pool, admin_credit, admin_debit, withdraw_to_external, credit_assets, debit_assets}
use tende.Vault.Conservation.{
  Adds, Takes, Withdraws, admin_credit-Adds, admin_debit-Takes, withdraw_to_external-Withdraws,
}
use tende.Vault.Fairness.{balance, credit_assets-balance, debit_assets-balance}
use tende.Currency.{zar, usdc}
use tende.Tests.Setting.{vault, alice, escrow, usdc_token}
use tende.Base.Assoc.{lookup}
use tende.Base.Atomic.{Atomic}

admin_credit-Adds_example :
    Atomic vault (λ _ v'. Adds zar 50 vault v') (admin_credit alice 50 zar vault)
admin_credit-Adds_example = admin_credit-Adds alice zar 50 vault

admin_debit-Takes_example :
    Atomic vault (λ _ v'. Takes zar 50 vault v') (admin_debit alice 50 zar vault)
admin_debit-Takes_example = admin_debit-Takes alice zar 50 vault

withdraw_to_external-Withdraws_example :
    Atomic vault
      (λ _ v'. Withdraws usdc usdc_token (text_eq (codes "0xbb") escrow) 98 vault v')
      (withdraw_to_external escrow alice (codes "0xbb") usdc_token 98 vault)
unfolding lookup text_eq
withdraw_to_external-Withdraws_example =
    withdraw_to_external-Withdraws alice usdc 98 vault escrow (codes "0xbb") usdc_token refl

alice-not_escrow : alice ≢ escrow
unfolding text_eq
alice-not_escrow h = let k : false ≡ true = (text_eq_iff alice escrow).1 h in cc

credit_assets-balance_example :
    Atomic vault
      (λ _ v'. balance escrow zar vault ≤ balance escrow zar v')
      (credit_assets alice zar 50 vault)
credit_assets-balance_example = credit_assets-balance alice escrow zar 50 vault alice-not_escrow

debit_assets-balance_example :
    Atomic vault
      (λ _ v'. balance escrow zar vault ≤ balance escrow zar v')
      (debit_assets alice zar 50 vault)
unfolding pool lookup text_eq
debit_assets-balance_example =
    debit_assets-balance alice escrow zar 50 vault alice-not_escrow (omega arith)
