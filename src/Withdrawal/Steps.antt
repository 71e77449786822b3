-- ===== src/Withdrawal/Steps.antt =====
-- What the steps of prepareWithdrawal of server/src/withdrawalService.ts leave alone.
use native.Mathlib.Nat.{le_refl, le_trans}
-- The list of prepared withdrawals is as it was, and time has not run back.
use tende.Base.{Action, Option, Text, none, refl, some, ℕ, ◌∙◌, ◌≡◌, ◌≤◌}
use tende.World.Frames.{Frame, Within, within, pure-Within, raise-Within, bind-Within, clock-Within}
use tende.World.{on_vault, set_memory, fresh_id, set_store, Store, clock}
use tende.Env.{Env}
use tende.Withdrawal.Prepare.{
  require_allowed, check_destination, check_balance, check_reserves, register_intent,
  is_registered_consumer, vault_backing_token_for_currency, is_trusted_counterparty,
}
use tende.Withdrawal.Beneficiary.{parse_travel_rule_beneficiary, RawBeneficiary}
use tende.Vault.{Vault}
use tende.Fx.Frames.{AllowsRates}
use tende.Kyc.{
  check_limits, check_level, assert_kyc_send_allowed, SpendCheck, sum_spent, KycLimits,
  get_consumer_kyc_limits, allowed, refused, Allowance,
}
use tende.Treasury.{vault_balance_of, vault_erc20_balance}
use tende.Passkey.{register_challenge}
use tende.Revenue.{get_revenue_config, Fee}
use tende.Kyc.Limits.{to_limit_units-Within}
use tende.Revenue.Frames.{get_revenue_config-Within}

abbrev pub list_kept : Frame
list_kept = record {
  Rel = λ w w'. (w'.memory.pending ≡ w.memory.pending) × (w.net.now ≤ w'.net.now);
  same = λ w. (refl, le_refl _);
  join = λ u v w p q. (q.0 ∙ p.0, le_trans p.1 q.1);
  network = λ w n h. (refl, h);
}

-- So it is, and so are the database and the cached fee rates.
abbrev pub fees_kept : Frame
fees_kept = record {
  Rel = λ w w'.
      (w'.store ≡ w.store)
      × (w'.memory.revenue ≡ w.memory.revenue)
      × (w'.memory.pending ≡ w.memory.pending)
      × (w.net.now ≤ w'.net.now);
  same = λ w. (refl, refl, refl, le_refl _);
  join = λ u v w p q. (q.0 ∙ p.0, q.1 ∙ p.1, q.2 ∙ p.2, le_trans p.3 q.3);
  network = λ w n h. (refl, refl, refl, h);
}

on_vault-fees_kept : {A : Type 0} (m : Action Vault A) → Within fees_kept (on_vault m)
unfolding on_vault
on_vault-fees_kept m = record { holds = λ w. (refl, refl, refl, le_refl _) }

rates-fees_kept : AllowsRates fees_kept
unfolding set_memory
rates-fees_kept k e = record { holds = λ w. (refl, refl, refl, le_refl _) }

register_challenge-list_kept : (c : Text) (ttl : ℕ) → Within list_kept (register_challenge c ttl)
unfolding register_challenge set_memory
register_challenge-list_kept c ttl =
    bind-Within list_kept clock _ (clock-Within list_kept)
      (λ now. record { holds = λ w. (refl, le_refl _) })

module _ (env : Env) where
  pub check_destination-fees_kept :
      (to from : Text) → Within fees_kept (check_destination env to from)
  unfolding check_destination is_registered_consumer is_trusted_counterparty
  check_destination-fees_kept to from = search within depth 30

  pub check_balance-fees_kept :
      (wallet : Text) (gross : ℕ) → Within fees_kept (check_balance env wallet gross)
  unfolding check_balance vault_balance_of
  check_balance-fees_kept wallet gross = search (within, on_vault-fees_kept) depth 20

  check_limits-fees_kept :
      (wallet : Text) (amount : ℕ) (currency : Text) (l : KycLimits)
      → Within fees_kept (check_limits env wallet amount currency l)
  unfolding check_limits sum_spent
  check_limits-fees_kept wallet amount currency l =
      search (within, to_limit_units-Within fees_kept rates-fees_kept env) depth 20

  check_level-fees_kept :
      (wallet : Text) (amount : ℕ) (currency : Text) (o : Option KycLimits)
      → Within fees_kept (check_level env wallet amount currency o)
  unfolding check_level
  check_level-fees_kept wallet amount currency none = pure-Within fees_kept _
  check_level-fees_kept wallet amount currency (some l) =
      check_limits-fees_kept wallet amount currency l

  pub kyc-fees_kept :
      (id wallet : Text) (amount : ℕ) (currency : Text)
      → Within fees_kept (assert_kyc_send_allowed env id wallet amount currency)
  unfolding assert_kyc_send_allowed get_consumer_kyc_limits
  kyc-fees_kept id wallet amount currency = search (within, check_level-fees_kept) depth 10

  pub check_reserves-list_kept :
      (wallet : Text) (net : ℕ) → Within list_kept (check_reserves env wallet net)
  unfolding check_reserves vault_backing_token_for_currency vault_erc20_balance
  check_reserves-list_kept wallet net = search within depth 30

  pub register_intent-list_kept :
      (from to : Text) (gross : ℕ) (fee : Fee) (fee_bps : ℕ) (name : Text)
      → Within list_kept (register_intent env from to gross fee fee_bps name)
  unfolding register_intent
  register_intent-list_kept from to gross fee fee_bps name =
      search (within, register_challenge-list_kept) depth 20

pub require_allowed-fees_kept : (c : SpendCheck) → Within fees_kept (require_allowed c)
unfolding require_allowed
require_allowed-fees_kept (allowed a) = pure-Within fees_kept a
require_allowed-fees_kept (refused r) = raise-Within fees_kept Allowance _

pub beneficiary-fees_kept :
    (o : RawBeneficiary) → Within fees_kept (parse_travel_rule_beneficiary o)
unfolding parse_travel_rule_beneficiary
beneficiary-fees_kept o = search within depth 20

pub fees-list_kept : Within list_kept get_revenue_config
unfolding set_memory
fees-list_kept =
    get_revenue_config-Within list_kept (λ c. record { holds = λ w. (refl, le_refl _) })

pub fresh_id-list_kept : Within list_kept fresh_id
unfolding fresh_id set_store
fresh_id-list_kept = record { holds = λ w. (refl, le_refl _) }

pub set_store-list_kept : (f : Store → Store) → Within list_kept (set_store f)
unfolding set_store
set_store-list_kept f = record { holds = λ w. (refl, le_refl _) }
