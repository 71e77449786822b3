-- ===== src/Withdrawal/Submit.antt =====
-- submitWithdrawal of server/src/withdrawalService.ts.
use tende.Base.{
  ℕ, Action, Bool, Error, Option, Text, catch, gets, http, if◌then◌else◌, leb, ltb, none, not,
  or_raise, pure, raise, raise_if, some, text_eq, to_lower, ◌&&◌, ◌==◌, ◌>>=◌, ◌>>◌, ◌||◌,
}
use tende.Schema.{SpendType, CredentialRow, PendingWithdrawal, WithdrawalStatus, WithdrawalRow}
use tende.World.{World, remote, clock, set_store, set_memory}
use tende.Env.{Env}
use tende.Currency.{usdc}
use tende.Treasury.{vault_withdraw, vault_admin_debit, vault_admin_credit}
use tende.Kyc.{Spend, record_spend_event}
use tende.Passkey.{invalid_client_data, verify_assertion}
use tende.Withdrawal.Prepare.{sweep, drop_pending, check_balance, check_reserves}
use tende.Base.Rows.{find, update_where}

pub record Submission : Type 0 where
  pub consumer_id : Text
  pub from_wallet : Text
  pub withdrawal_id : ℕ
  pub credential_id : Text
  pub authenticator_data : Text
  pub client_data : Text
  pub signature : Text

pub record Withdrawn : Type 0 where
  pub tx_hash : ℕ
  pub to : Text
  pub amount : ℕ
  pub net : ℕ
  pub fee : ℕ

abbrev pub expired : Error
expired = http 410 "EXPIRED"

unfoldable pub find_pending : ℕ → Action World PendingWithdrawal
find_pending id = do
  found ← gets (λ w. find (λ p. p.withdrawal_id == id) w.memory.pending)
  row ← or_raise found expired
  now ← clock
  raise_if (ltb row.expiry now) expired
  pure row

unfoldable pub forget_pending : ℕ → Action World (Unit {0})
forget_pending id =
    set_memory (λ m. record m { pending = drop_pending (λ p. p.withdrawal_id == id) m.pending })

-- A counter that is in use must rise.
unfoldable pub counter_regressed : ℕ → ℕ → Bool
counter_regressed sign_count prev =
    not (sign_count == 0) && (not (prev == 0) && leb sign_count prev)

unfoldable pub set_counter : ℕ → CredentialRow → CredentialRow
set_counter n c = record c { sign_count = n }

unfoldable pub set_executed : ℕ → Option ℕ → Option ℕ → WithdrawalRow → WithdrawalRow
set_executed withdraw_tx fee_debit_tx fee_credit_tx r = record r {
  status = WithdrawalStatus.executed;
  withdraw_tx = some withdraw_tx;
  fee_debit_tx = fee_debit_tx;
  fee_credit_tx = fee_credit_tx;
}

unfoldable pub update_row : ℕ → (WithdrawalRow → WithdrawalRow) → Action World (Unit {0})
update_row id f =
    catch
      (remote (
        set_store (λ s. record s { withdrawals = update_where (λ r. r.id == id) f s.withdrawals })))
      (λ _. pure tt)

unfoldable pub spend_of : PendingWithdrawal → ℕ → Spend
spend_of row withdraw_tx = record {
  consumer_id = row.consumer_id;
  wallet_address = row.from_wallet;
  spend_type = SpendType.withdrawal;
  currency = usdc;
  amount_units = row.gross_units;
  amount_limit_units = some row.amount_limit_units;
  counterparty = some row.to_address;
  tx_hash = some withdraw_tx;
}

module _ (env : Env) where
  -- The passkey's signature of the challenge that the withdrawal was given.
  unfoldable pub authorize : Submission → PendingWithdrawal → Action World (Unit {0})
  authorize q row = do
    found ←
        remote (gets (λ w. find (λ c. text_eq c.credential_id q.credential_id) w.store.credentials))
    c ← or_raise found (http 404 "Unknown passkey credential")
    raise_if (not (text_eq (to_lower c.wallet_address) (to_lower row.from_wallet)))
        (http 403 "Credential does not match the sending wallet")
    client ← or_raise (env.parse_client_data q.client_data) invalid_client_data
    raise_if (not (text_eq client.challenge row.challenge))
        (http 400 "Signed challenge does not match this withdrawal")
    sign_count ← verify_assertion env (record {
      authenticator_data = q.authenticator_data;
      client_data = q.client_data;
      signature = q.signature;
      pub_key_x = c.pub_key_x;
      pub_key_y = c.pub_key_y;
    })
    raise_if (counter_regressed sign_count c.sign_count) (http 401 "Passkey counter regression")
    remote (
        set_store (λ s. record s {
          credentials =
              update_where (λ c. text_eq c.credential_id q.credential_id) (set_counter sign_count)
                s.credentials;
        }))

  -- The debit of the sender and the credit of the treasury.
  unfoldable pub take_fee : PendingWithdrawal → Action World (Option ℕ × Option ℕ)
  take_fee row =
      if ltb 0 row.fee_units
      then (do
        debit_tx ← vault_admin_debit env row.from_wallet row.fee_units usdc
        credit_tx ← vault_admin_credit env env.config.treasury_address row.fee_units usdc
        pure (some debit_tx, some credit_tx))
      else pure (none, none)

  unfoldable pub execute : PendingWithdrawal → ℕ → Text → Action World Withdrawn
  execute row id token = do
    withdraw_tx ← vault_withdraw env row.from_wallet row.to_address token row.net_units
    fee ← take_fee row
    update_row id (set_executed withdraw_tx fee.0 fee.1)
    record_spend_event env (spend_of row withdraw_tx)
    pure (record {
      tx_hash = withdraw_tx;
      to = row.to_address;
      amount = row.gross_units;
      net = row.net_units;
      fee = row.fee_units;
    })

  unfoldable pub submit_withdrawal : Submission → Action World Withdrawn
  submit_withdrawal q = do
    sweep
    row ← find_pending q.withdrawal_id
    raise_if
        (not (text_eq row.consumer_id q.consumer_id)
          || not (text_eq (to_lower row.from_wallet) (to_lower q.from_wallet)))
        (http 403 "Withdrawal does not belong to this account")
    authorize q row
    check_balance env row.from_wallet row.gross_units
    token ← check_reserves env row.from_wallet row.net_units
    forget_pending q.withdrawal_id
    catch (execute row q.withdrawal_id token) (λ e. (do
      update_row q.withdrawal_id (λ r. record r { status = WithdrawalStatus.failed })
      raise e))
