-- ===== src/Withdrawal/Prepare.antt =====
-- prepareWithdrawal of server/src/withdrawalService.ts, and the lookups that it makes of
-- server/src/safeRelayService.ts and server/src/treasuryService.ts.
use tende.Base.{
  ℕ, Action, Bool, Error, List, Text, [], any, catch, false, gets, http, if◌then◌else◌,
  is_hex_address, leb_ℤ, ltb, none, not, or_raise, pos, pos_part, pure, raise, raise_if, text_eq,
  thrown, to_lower, to_upper, ◌++◌, ◌+◌, ◌>>=◌, ◌>>◌, ◌∷◌, trim,
}
use tende.Schema.{TravelRuleBeneficiary, PendingWithdrawal, WithdrawalStatus, WithdrawalRow}
use tende.World.{World, remote, clock, set_store, set_memory, fresh_id}
use tende.Env.{Env, is_empty}
use tende.Currency.{usdc}
use tende.Treasury.{no_vault, vault_balance_of, vault_erc20_balance}
use tende.Revenue.{get_revenue_config, calc_withdrawal_fee_units, Fee}
use tende.Kyc.{
  Allowance, Refusal, SpendCheck, allowed, refused, single_exceeded, daily_exceeded,
  monthly_exceeded, level_missing, assert_kyc_send_allowed,
}
use tende.Passkey.{register_challenge, challenge_ttl_ms}
use tende.Withdrawal.Beneficiary.{RawBeneficiary, parse_travel_rule_beneficiary}
use tende.Base.Assoc.{lookup}

abbrev pub pending_ttl_ms : ℕ
pending_ttl_ms = 300000

unfoldable pub drop_pending :
    (PendingWithdrawal → Bool) → List PendingWithdrawal → List PendingWithdrawal
drop_pending p [] = []
drop_pending p (r ∷ rows) = let rest = drop_pending p rows in if p r then rest else r ∷ rest

unfoldable pub sweep : Action World (Unit {0})
sweep = do
  now ← clock
  set_memory (λ m. record m { pending = drop_pending (λ p. ltb p.expiry now) m.pending })

unfoldable pub refusal_error : Refusal → Error
refusal_error single_exceeded = http 403 "KYC_SINGLE_EXCEEDED"
refusal_error daily_exceeded = http 403 "KYC_DAILY_EXCEEDED"
refusal_error monthly_exceeded = http 403 "KYC_MONTHLY_EXCEEDED"
refusal_error level_missing = http 403 "KYC_LEVEL_MISSING"

unfoldable pub require_allowed : SpendCheck → Action World Allowance
require_allowed (allowed a) = pure a
require_allowed (refused r) = raise (refusal_error r)

abbrev pub insufficient_balance : Error
insufficient_balance = http 409 "INSUFFICIENT_BALANCE"

abbrev pub insufficient_reserves : Error
insufficient_reserves = http 503 "INSUFFICIENT_RESERVES"

pub record Request : Type 0 where
  pub consumer_id : Text
  pub from_wallet : Text
  pub to : Text
  pub amount : Text
  pub beneficiary : RawBeneficiary

pub record Prepared : Type 0 where
  pub withdrawal_id : ℕ
  pub challenge : Text
  pub to : Text
  pub gross : ℕ
  pub fee : ℕ
  pub net : ℕ
  pub fee_bps : ℕ

unfoldable pub row_of : PendingWithdrawal → WithdrawalRow
row_of p = record {
  id = p.withdrawal_id;
  consumer_id = p.consumer_id;
  from_wallet = to_lower p.from_wallet;
  to_address = to_lower p.to_address;
  gross_units = p.gross_units;
  fee_units = p.fee_units;
  net_units = p.net_units;
  fee_bps = p.fee_bps;
  status = WithdrawalStatus.pending;
  beneficiary = p.beneficiary;
  withdraw_tx = none;
  fee_debit_tx = none;
  fee_credit_tx = none;
}

unfoldable pub pending_of :
    Request
    → ℕ
    → Text
    → ℕ
    → Fee
    → ℕ
    → Text
    → Allowance
    → TravelRuleBeneficiary
    → ℕ
    → PendingWithdrawal
pending_of q id checksummed gross fee fee_bps challenge kyc beneficiary expiry = record {
  withdrawal_id = id;
  consumer_id = q.consumer_id;
  from_wallet = q.from_wallet;
  to_address = checksummed;
  gross_units = gross;
  fee_units = fee.fee_units;
  net_units = fee.net_units;
  fee_bps = fee_bps;
  challenge = challenge;
  amount_limit_units = kyc.amount_limit_units;
  beneficiary = beneficiary;
  expiry = expiry;
}

-- The list is kept by the process; a row that cannot be inserted is only logged.
unfoldable pub keep : PendingWithdrawal → Action World (Unit {0})
keep p = do
  set_memory (λ m. record m { pending = m.pending ++ p ∷ [] })
  catch (remote (set_store (λ s. record s { withdrawals = s.withdrawals ++ row_of p ∷ [] })))
      (λ _. pure tt)

module _ (env : Env) where
  unfoldable pub is_registered_consumer : Text → Action World Bool
  is_registered_consumer wallet =
      if is_empty env.config.consumer
      then pure false
      else catch (remote (gets (λ w. any (text_eq (to_lower wallet)) w.chain.registered)))
          (λ _. pure false)

  unfoldable pub is_trusted_counterparty : Text → Action World Bool
  is_trusted_counterparty wallet =
      if is_empty env.config.vault
      then pure false
      else catch (remote (gets (λ w. any (text_eq (to_lower wallet)) w.chain.trusted)))
          (λ _. pure false)

  unfoldable pub vault_backing_token_for_currency : Text → Action World Text
  vault_backing_token_for_currency currency = do
    raise_if (is_empty env.config.vault) no_vault
    token ← remote (gets (λ w. lookup (to_upper currency) w.chain.primary_tokens))
    or_raise token (thrown "No vault backing token registered")

  -- The check of both the preparation and the submission.
  unfoldable pub check_reserves : Text → ℕ → Action World Text
  check_reserves from_wallet net = do
    token ← vault_backing_token_for_currency usdc
    inventory ← vault_erc20_balance env token
    raise_if (ltb inventory net) insufficient_reserves
    pure token

  unfoldable pub check_balance : Text → ℕ → Action World (Unit {0})
  check_balance from_wallet gross = do
    balance ← vault_balance_of env from_wallet usdc
    raise_if (ltb balance gross) insufficient_balance

  unfoldable pub check_destination : Text → Text → Action World (Unit {0})
  check_destination to_address from_wallet = do
    raise_if (not (is_hex_address to_address)) (http 400 "INVALID_ADDRESS")
    raise_if (text_eq (to_lower to_address) (to_lower from_wallet))
        (http 400 "Cannot withdraw to yourself")
    registered ← is_registered_consumer to_address
    trusted ← is_trusted_counterparty to_address
    raise_if trusted (http 409 "PLATFORM_ADDRESS")
    raise_if registered (http 409 "USE_INTERNAL_TRANSFER")

  unfoldable pub parse_amount : Text → Action World ℕ
  parse_amount amount = do
    gross ← or_raise (env.parse_units amount 6) (http 400 "Invalid amount")
    raise_if (leb_ℤ gross (pos 0)) (http 400 "Amount must be positive")
    pure (pos_part gross)

  unfoldable pub register_intent : Text → Text → ℕ → Fee → ℕ → Text → Action World Text
  register_intent from_wallet to_address gross fee fee_bps full_name = do
    intent ←
        or_raise
          (env.encode_intent from_wallet to_address gross fee.fee_units fee.net_units fee_bps
            full_name)
          (thrown "invalid address")
    let challenge = env.hash intent
    register_challenge challenge challenge_ttl_ms
    pure challenge

  -- The steps from the check of the reserves on.
  unfoldable pub conclude :
      Request → ℕ → Fee → ℕ → TravelRuleBeneficiary → Allowance → Action World Prepared
  conclude q gross fee fee_bps beneficiary kyc = do
    token ← check_reserves q.from_wallet fee.net_units
    raise_if (not (is_hex_address env.config.treasury_address))
        (http 500 "Platform treasury not configured")
    id ← fresh_id
    challenge ← register_intent q.from_wallet (trim q.to) gross fee fee_bps beneficiary.full_name
    checksummed ← or_raise (env.get_address (trim q.to)) (thrown "bad address checksum")
    now ← clock
    keep (
        pending_of q id checksummed gross fee fee_bps challenge kyc beneficiary
          (now + pending_ttl_ms))
    pure (record {
      withdrawal_id = id;
      challenge = challenge;
      to = checksummed;
      gross = gross;
      fee = fee.fee_units;
      net = fee.net_units;
      fee_bps = fee_bps;
    })

  unfoldable pub prepare_withdrawal : Request → Action World Prepared
  prepare_withdrawal q = do
    sweep
    beneficiary ← parse_travel_rule_beneficiary q.beneficiary
    check_destination (trim q.to) q.from_wallet
    gross ← parse_amount q.amount
    check ← assert_kyc_send_allowed env q.consumer_id q.from_wallet gross usdc
    kyc ← require_allowed check
    check_balance q.from_wallet gross
    revenue ← get_revenue_config
    fee ← calc_withdrawal_fee_units gross revenue.withdrawal_fee_bps
    conclude q gross fee revenue.withdrawal_fee_bps beneficiary kyc
