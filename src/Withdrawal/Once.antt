-- ===== src/Withdrawal/Once.antt =====
-- A withdrawal is executed for its owner, under the signature of its challenge, and once.
use tende.Base.{
  ℕ, Bool, List, Option, gets, not, not-false, refl, some, text_eq, text_eq_iff, to_lower, true,
  ◌++◌, ◌∙◌, ◌≡◌, Text, catch, none, raise, ◌>>◌, ◌||◌, ◌≤◌, ap, arith, subst, sym,
}
use tende.Schema.{CredentialRow, PendingWithdrawal, WithdrawalStatus}
use tende.World.{World, remote, set_store, set_memory}
use tende.World.Returns.{
  Returns-both, catch-Returns, Fails, IsOk, returned, Within-Returns, remote-Returns, Returns,
  Returns-any, Returns-mono, bind-Returns, raise_if-Returns, or_raise-Returns,
}
use tende.Env.{Env, ClientData}
use tende.Passkey.{Assertion, invalid_client_data, verify_assertion}
use tende.Passkey.Replay.{Verified, verify_assertion-Returns}
use tende.Withdrawal.Prepare.{sweep, drop_pending, check_balance, check_reserves}
use tende.Withdrawal.Kept.{
  pending_kept, execute-kept, has_id, find-drop_self, find-drop_none, is_expired, Swept,
  sweep-Returns, find_pending-Returns,
}
use tende.Kyc.{record_spend_event}
use tende.Treasury.{vault_withdraw}
use tende.Withdrawal.Submit.{
  spend_of, set_executed, Withdrawn, find_pending, forget_pending, update_row, execute, take_fee,
  submit_withdrawal, Submission, authorize, counter_regressed, set_counter,
}
use tende.Base.Rows.{find, update_where}

-- The amounts that a submission reports.
pub record Amounts (row : PendingWithdrawal) (r : Withdrawn) : Type 0 where
  pub gross : r.amount ≡ row.gross_units
  pub net : r.net ≡ row.net_units
  pub fee : r.fee ≡ row.fee_units
  pub to : r.to ≡ row.to_address

module _ (env : Env) where
  -- The owner's passkey signed the challenge of the withdrawal.
  pub record Signed (q : Submission) (row : PendingWithdrawal) (credentials : List CredentialRow)
      : Type 0 where
    pub content : ClientData
    pub parsed : env.parse_client_data q.client_data ≡ some content
    pub answers : content.challenge ≡ row.challenge
    pub credential : CredentialRow
    pub registered :
        find (λ c. text_eq c.credential_id q.credential_id) credentials ≡ some credential
    pub owned : to_lower credential.wallet_address ≡ to_lower row.from_wallet
    pub signature :
        env.verify_signature credential.pub_key_x credential.pub_key_y
          (q.authenticator_data ++ env.hash q.client_data)
          q.signature
        ≡ some true

  authorize-Returns :
      (q : Submission) (row : PendingWithdrawal) (w : World)
      → Returns (λ _ u. Signed q row w.store.credentials) (authorize env q row w)
  unfolding authorize
  authorize-Returns q row w =
      let P : Unit {0} → World → Type 0 = λ _ u. Signed q row w.store.credentials in
      let own : CredentialRow → Bool = λ c. text_eq c.credential_id q.credential_id in
      let Q : Option CredentialRow → World → Type 0 = λ o u. find own w.store.credentials ≡ o in
      bind-Returns P Q (remote (gets (λ w. find own w.store.credentials)) w) _
        (remote-Returns Q (gets (λ w. find own w.store.credentials)) w (λ n e. refl))
        λ found u is_found. or_raise-Returns P found _ u _ λ c registered.
          raise_if-Returns P (not (text_eq (to_lower c.wallet_address) (to_lower row.from_wallet)))
            _ u _
            λ owned.
              or_raise-Returns P (env.parse_client_data q.client_data) invalid_client_data u _
                λ content parsed.
                  raise_if-Returns P (not (text_eq content.challenge row.challenge)) _ u _
                    λ answers.
                      let a : Assertion = record {
                        authenticator_data = q.authenticator_data;
                        client_data = q.client_data;
                        signature = q.signature;
                        pub_key_x = c.pub_key_x;
                        pub_key_y = c.pub_key_y;
                      } in
                      bind-Returns P (λ n v. Verified env a n u v) (verify_assertion env a u) _
                        (verify_assertion-Returns env a u)
                        λ n v verified.
                          raise_if-Returns P (counter_regressed n c.sign_count) _ v _ λ rises.
                            Returns-mono P (λ _ _. Unit) _
                              (λ _ x _. record {
                                content = content;
                                parsed = parsed;
                                answers = (text_eq_iff _ _).0 (not-false _ answers);
                                credential = c;
                                registered = is_found ∙ registered;
                                owned = (text_eq_iff _ _).0 (not-false _ owned);
                                signature = verified.signed;
                              })
                              (Returns-any (
                                remote
                                  (set_store (λ s. record s {
                                    credentials = update_where own (set_counter n) s.credentials;
                                  }))
                                  v))

  execute-Amounts :
      (row : PendingWithdrawal) (id : ℕ) (token : Text) (w : World)
      → Returns (λ r u. Amounts row r) (execute env row id token w)
  unfolding execute
  execute-Amounts row id token w =
      let P : Withdrawn → World → Type 0 = λ r u. Amounts row r in
      bind-Returns P (λ _ _. Unit)
        (vault_withdraw env row.from_wallet row.to_address token row.net_units w) _ (Returns-any _)
        λ tx u _.
          bind-Returns P (λ _ _. Unit) (take_fee env row u) _ (Returns-any _)
            λ fee v _.
              bind-Returns P (λ _ _. Unit) (update_row id (set_executed tx fee.0 fee.1) v) _
                (Returns-any _)
                λ _ x _.
                  bind-Returns P (λ _ _. Unit) (record_spend_event env (spend_of row tx) x) _
                    (Returns-any _)
                    λ _ y _. record { gross = refl; net = refl; fee = refl; to = refl }

  execute-Returns :
      (row : PendingWithdrawal) (id : ℕ) (token : Text) (w : World)
      → Returns
          (λ r u. Amounts row r × (u.memory.pending ≡ w.memory.pending))
          (execute env row id token w)
  execute-Returns row id token w =
      Returns-both (λ r u. Amounts row r) (λ r u. u.memory.pending ≡ w.memory.pending)
        (execute env row id token w) (execute-Amounts row id token w)
        (Within-Returns pending_kept (execute env row id token) (execute-kept env row id token) w)

  pub record Executed (q : Submission) (w : World) (r : Withdrawn) (u : World) : Type 0 where
    pub row : PendingWithdrawal
    pub time : ℕ
    pub since : w.net.now ≤ time
    pub unexpired : time ≤ row.expiry
    pub found :
        find (has_id q.withdrawal_id) (drop_pending (is_expired time) w.memory.pending) ≡ some row
    pub consumer : row.consumer_id ≡ q.consumer_id
    pub wallet : to_lower row.from_wallet ≡ to_lower q.from_wallet
    pub signed : Signed q row w.store.credentials
    pub amounts : Amounts row r
    pub gone : find (has_id q.withdrawal_id) u.memory.pending ≡ none

  finish-Returns :
      (q : Submission) (row : PendingWithdrawal) (token : Text) (w : World)
      → Returns
          (λ r u. Amounts row r × (find (has_id q.withdrawal_id) u.memory.pending ≡ none))
          ((do
            forget_pending q.withdrawal_id
            catch (execute env row q.withdrawal_id token) (λ e. (do
              update_row q.withdrawal_id (λ r. record r { status = WithdrawalStatus.failed })
              raise e)))
            w)
  unfolding forget_pending set_memory
  finish-Returns q row token w =
      let P : Withdrawn → World → Type 0 =
        λ r u. Amounts row r × (find (has_id q.withdrawal_id) u.memory.pending ≡ none) in
      let rows = drop_pending (has_id q.withdrawal_id) w.memory.pending in
      let v : World = record w { memory = record w.memory { pending = rows } } in
      catch-Returns P (execute env row q.withdrawal_id token) _ v
        (Returns-mono P (λ r u. Amounts row r × (u.memory.pending ≡ rows)) _
          (λ r u (amounts, kept). (
            amounts,
            ap (find (has_id q.withdrawal_id)) kept
                ∙ find-drop_self q.withdrawal_id w.memory.pending,
          ))
          (execute-Returns row q.withdrawal_id token v))
        (λ e x.
          bind-Returns P (λ _ _. Unit)
            (update_row q.withdrawal_id (λ r. record r { status = WithdrawalStatus.failed }) x)
            (λ _. raise e) (Returns-any _) λ _ y _. tt)

  -- A submission that succeeded carried out a withdrawal that had been prepared under its id, by the
  -- same consumer and wallet, and had not expired at a time that is not before the submission; a passkey of that wallet had signed its challenge;
  -- the amounts are the prepared ones; and nothing is prepared under that id any more.
  pub submit_withdrawal-Returns :
      (q : Submission) (w : World) → Returns (λ r u. Executed q w r u) (submit_withdrawal env q w)
  unfolding submit_withdrawal Swept
  submit_withdrawal-Returns q w =
      let P : Withdrawn → World → Type 0 = λ r u. Executed q w r u in
      bind-Returns P (λ _ u. Swept w u) (sweep w) _ (sweep-Returns w)
        λ _ u (t, since, at_t, swept, same).
          bind-Returns P
            (λ row v.
              (find (has_id q.withdrawal_id) u.memory.pending ≡ some row)
              × (u.net.now ≤ row.expiry)
              × (v.store ≡ u.store))
            (find_pending q.withdrawal_id u) _ (find_pending-Returns q.withdrawal_id u)
            λ row v (found, fresh, same2).
              raise_if-Returns P
                (not (text_eq row.consumer_id q.consumer_id)
                  || not (text_eq (to_lower row.from_wallet) (to_lower q.from_wallet)))
                _ v _
                λ own.
                  bind-Returns P (λ _ x. Signed q row v.store.credentials) (authorize env q row v) _
                    (authorize-Returns q row v)
                    λ _ x signed.
                      bind-Returns P (λ _ _. Unit)
                        (check_balance env row.from_wallet row.gross_units x) _ (Returns-any _)
                        λ _ y _.
                          bind-Returns P (λ _ _. Unit)
                            (check_reserves env row.from_wallet row.net_units y) _ (Returns-any _)
                            λ token z _.
                              Returns-mono P
                                (λ r u.
                                  Amounts row r
                                  × (find (has_id q.withdrawal_id) u.memory.pending ≡ none))
                                _
                                (λ r last (amounts, gone). record {
                                  row = row;
                                  time = t;
                                  since = since;
                                  unexpired = omega (arith, fresh, at_t);
                                  found = ap (find (has_id q.withdrawal_id)) (sym swept) ∙ found;
                                  consumer = (text_eq_iff _ _).0 (ground arith);
                                  wallet = (text_eq_iff _ _).0 (ground arith);
                                  signed =
                                      subst (λ cs. Signed q row cs)
                                        (ap (λ s. s.credentials) (same2 ∙ same)) signed;
                                  amounts = amounts;
                                  gone = gone;
                                })
                                (finish-Returns q row token z)

  -- Once a submission has succeeded, none for the same withdrawal succeeds on the list of prepared
  -- withdrawals that it left.
  pub submit_withdrawal_once :
      (q q' : Submission) (w u : World)
      → q'.withdrawal_id ≡ q.withdrawal_id
      → IsOk (submit_withdrawal env q w)
      → u.memory.pending ≡ (submit_withdrawal env q w).1.memory.pending
      → Fails (submit_withdrawal env q' u)
  submit_withdrawal_once q q' w u same done left =
      let (r, er, first) = returned _ _ (submit_withdrawal-Returns q w) done in
      Returns-mono _ _ (submit_withdrawal env q' u)
        (λ r' v second.
          let absent : find (has_id q'.withdrawal_id) u.memory.pending ≡ none =
            rw (same, left) first.gone in
          let dropped =
            find-drop_none q'.withdrawal_id (is_expired second.time) u.memory.pending absent in
          let present = second.found in cc)
        (submit_withdrawal-Returns q' u)
