-- ===== src/Tests/Withdrawals.antt =====
-- A submitted withdrawal, and what signing in leaves.
use tende.Base.{
  codes, ok, refl, text_eq, to_lower, to_upper, ◌≡◌, arith, subst, sym, true, is_hex_address,
  trim_start, trim, trim_end,
}
use tende.Passkey.{
  verify_assertion, verify_client_data, consume_challenge, consume_found, delete_challenge,
}
use tende.World.{remote, schedule, clock, pass_time, set_memory, set_store, transact, on_vault}
use tende.Vault.{
  withdraw_to_external, debit_assets, convert_to_assets, convert_to_shares, checked, admin_debit,
  admin_credit, credit_assets, pool, set_pool, unified_balance,
}
use tende.Treasury.{
  vault_balance_of, vault_erc20_balance, vault_withdraw, vault_admin_debit, vault_admin_credit,
}
use tende.Kyc.{record_spend_event, known_limit_units}
use tende.Withdrawal.Prepare.{
  sweep, drop_pending, check_balance, check_reserves, vault_backing_token_for_currency,
}
use tende.Withdrawal.Submit.{
  Submission, submit_withdrawal, find_pending, forget_pending, authorize, counter_regressed,
  set_counter, execute, take_fee, update_row, set_executed, spend_of,
}
use tende.World.Returns.{Returns, Fails, IsOk}
use tende.Withdrawal.Once.{Executed, submit_withdrawal-Returns, submit_withdrawal_once}
use tende.Passkey.{Assertion}
use tende.Passkey.Replay.{Verified, verify_assertion-Returns, verify_assertion_once}
use tende.AuthNonce.{verify_and_consume, issue_nonce}
use tende.AuthNonce.Proof.{Reason, verify_and_consume-Returns, issue_nonce-verify_and_consume}
use tende.Withdrawal.Prepare.{
  Request, prepare_withdrawal, conclude, pending_of, check_destination, is_registered_consumer,
  is_trusted_counterparty, parse_amount, require_allowed, register_intent, keep, row_of,
}
use tende.Withdrawal.Beneficiary.{
  nullish, string, parse_travel_rule_beneficiary, clean_str, coalesce, replace_runs, starts_with,
  all_of, is_country_code, is_relationship,
}
use tende.Kyc.{
  assert_kyc_send_allowed, get_consumer_kyc_limits, level_of, limits_of, check_level, check_limits,
  exceeds, to_limit_units, sum_spent, spent_since,
}
use tende.Calendar.{start_of_day, start_of_month, month_from, days_in_month, is_leap}
use tende.Currency.{currency_decimals}
use tende.Revenue.{
  get_revenue_config, serve, load_config, read_config, parse_bps, parse_int, parse_signed,
  parse_digits, digits_value, non_negative, negate, calc_withdrawal_fee_units,
}
use tende.Passkey.{register_challenge}
use tende.World.{fresh_id}
use tende.Tests.Setting.{env, world, alice}
use tende.Base.Assoc.{erase, insert, lookup}
use tende.Base.Rows.{find, update_where}

abbrev submission : Submission
submission = record {
  consumer_id = codes "a";
  from_wallet = alice;
  withdrawal_id = 9;
  credential_id = codes "k";
  authenticator_data = codes "d";
  client_data = codes "c";
  signature = codes "good";
}

submitted :
    (submit_withdrawal env submission world).0
    ≡ ok (record { tx_hash = 0; to = codes "0xbb"; amount = 100; net = 98; fee = 2 })
unfolding submit_withdrawal sweep drop_pending find_pending find forget_pending authorize
    verify_assertion verify_client_data consume_challenge consume_found delete_challenge lookup
    erase insert counter_regressed set_counter update_where remote schedule clock pass_time
    set_memory set_store check_balance check_reserves vault_backing_token_for_currency
    vault_balance_of vault_erc20_balance unified_balance convert_to_assets convert_to_shares checked
    pool set_pool execute vault_withdraw withdraw_to_external debit_assets transact on_vault
    take_fee vault_admin_debit vault_admin_credit admin_debit admin_credit credit_assets update_row
    set_executed spend_of record_spend_event known_limit_units text_eq to_lower to_upper
submitted = refl

submit_withdrawal-Returns_example :
    Returns (λ r u. Executed env submission world r u) (submit_withdrawal env submission world)
submit_withdrawal-Returns_example = submit_withdrawal-Returns env submission world

submit_withdrawal_once_example :
    Fails (submit_withdrawal env submission (submit_withdrawal env submission world).1)
submit_withdrawal_once_example =
    submit_withdrawal_once env submission submission world
      (submit_withdrawal env submission world).1 refl
      (subst (λ r. IsOk (r, (submit_withdrawal env submission world).1)) (sym submitted) tt) refl

abbrev assertion : Assertion
assertion = record {
  authenticator_data = codes "d";
  client_data = codes "c";
  signature = codes "good";
  pub_key_x = 3;
  pub_key_y = 4;
}

verified : (verify_assertion env assertion world).0 ≡ ok 7
unfolding verify_assertion verify_client_data consume_challenge consume_found delete_challenge
    lookup erase clock pass_time set_memory text_eq
verified = refl

verify_assertion-Returns_example :
    Returns (λ n u. Verified env assertion n world u) (verify_assertion env assertion world)
verify_assertion-Returns_example = verify_assertion-Returns env assertion world

verify_assertion_once_example :
    Fails (verify_assertion env assertion (verify_assertion env assertion world).1)
verify_assertion_once_example =
    verify_assertion_once env assertion assertion
      (record { kind = codes "webauthn.get"; challenge = codes "c"; origin = codes "app" })
      (record { kind = codes "webauthn.get"; challenge = codes "c"; origin = codes "app" }) world
      (verify_assertion env assertion world).1 refl refl refl
      (subst (λ r. IsOk (r, (verify_assertion env assertion world).1)) (sym verified) tt) refl

-- The stand-in recovers a signature to itself.
verify_and_consume-Returns_example :
    Returns
      (λ b u. Reason env (to_lower (codes "0xAA")) alice world u b)
      (verify_and_consume env (codes "0xAA") alice world)
verify_and_consume-Returns_example = verify_and_consume-Returns env (codes "0xAA") alice world

issue_nonce-verify_and_consume_example :
    (verify_and_consume env (codes "0xAA") alice (issue_nonce (codes "7") (codes "0xAA") world).1).0
    ≡ ok true
unfolding issue_nonce clock pass_time set_memory to_lower
issue_nonce-verify_and_consume_example =
    issue_nonce-verify_and_consume env (codes "7") (codes "0xAA") alice alice world
      (issue_nonce (codes "7") (codes "0xAA") world).1 refl refl refl (omega arith)

abbrev request : Request
request = record {
  consumer_id = codes "a";
  from_wallet = alice;
  to = codes " 0x00000000000000000000000000000000000000bb";
  amount = codes "0.0001";
  beneficiary = record {
    full_name = string (codes " Bo  Li ");
    name = nullish;
    id_number = nullish;
    phone = nullish;
    country = string (codes "za");
    relationship = string (codes "Other");
  };
}

prepared_id :
    (prepare_withdrawal env request world).0
    ≡ ok (record {
      withdrawal_id = 10;
      challenge = codes "Bo Li";
      to = codes "0x00000000000000000000000000000000000000bb";
      gross = 100;
      fee = 2;
      net = 98;
      fee_bps = 200;
    })
unfolding prepare_withdrawal sweep conclude pending_of check_destination is_registered_consumer
    is_trusted_counterparty parse_amount require_allowed register_intent keep row_of
    parse_travel_rule_beneficiary clean_str coalesce replace_runs starts_with trim trim_end all_of
    is_country_code is_relationship assert_kyc_send_allowed get_consumer_kyc_limits level_of
    limits_of check_level check_limits exceeds to_limit_units sum_spent spent_since start_of_day
    start_of_month month_from days_in_month is_leap currency_decimals get_revenue_config serve
    load_config read_config parse_bps parse_int parse_signed parse_digits digits_value non_negative
    negate calc_withdrawal_fee_units register_challenge fresh_id clock pass_time remote schedule
    set_memory set_store find lookup insert text_eq to_lower to_upper is_hex_address trim_start
    check_balance check_reserves vault_backing_token_for_currency vault_balance_of
    vault_erc20_balance unified_balance convert_to_assets on_vault checked pool drop_pending
prepared_id = refl
