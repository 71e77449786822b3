-- ===== src/Settlement/Approval.antt =====
-- What an approval that succeeds has done.
use tende.Base.{
  Text, ℤ, Bool, ap, if◌then◌else◌, text_eq, ℕ, ◌==◌, ◌∙◌, ◌≡◌, ◌≤◌, false, raise, refl, some, sym,
  true, not, List, arith, ◌&&◌,
}
use tende.Schema.{SettlementRequestRow, SettlementStatus}
use tende.World.Queries.{keeps_store, read-Returns}
use tende.World.Frames.{KeepsStore, store_kept, SameBase}
use tende.Env.{Env}
use tende.Revenue.Frames.{get_revenue_config-KeepsStore}
use tende.Treasury.{
  vault_balance_of, vault_admin_debit, vault_withdraw, resolve_treasury_token,
  treasury_token_balance,
}
use tende.Treasury.Reserves.{sweep_treasury_from_vault}
use tende.Withdrawal.Prepare.{vault_backing_token_for_currency}
use tende.Settlement.Pay.{
  pay_out, pay_fiat, pay_onchain, execute_settlement, update_request, set_executed,
}
use tende.Base.Rows.{update_where, find, find-updated, find-holds}
use tende.World.{Store, World}
use tende.Settlement.Requests.{
  execute_or_fail, set_status, execution_failed, decide, execute_approved, reread, approve_request,
  approve, find_request, not_found, is_pending, not_pending,
}
use tende.Revenue.{SettlementFee, calc_settlement_fee}
use tende.World.Returns.{
  Returns, bind-Returns, catch-Returns, Within-Returns, Returns-any, Returns-mono, store-Returns,
  or_raise_value, respond-Returns, raise_if-Returns, or_raise-Returns,
}
use tende.Settlement.{
  meta_of, find_merchant, onchain, remote, set_store, get_merchant_meta, require_org_admin, Member,
  is_org_admin,
}
use tende.Settlement.Decisions.{Decidable}
use tende.Treasury.Balances.{as_uint-Within}

module _ (env : Env) where
  pay_fiat-KeepsStore :
      (wallet : Text) (units : ℤ) (currency to country : Text)
      → KeepsStore (pay_fiat env wallet units currency to country)
  unfolding pay_fiat vault_admin_debit sweep_treasury_from_vault resolve_treasury_token
      treasury_token_balance
  pay_fiat-KeepsStore wallet units currency to country =
      search (keeps_store, as_uint-Within) depth 30

  pay_onchain-KeepsStore :
      (wallet : Text) (units : ℤ) (currency to : Text)
      → KeepsStore (pay_onchain env wallet units currency to)
  unfolding pay_onchain vault_backing_token_for_currency vault_withdraw
  pay_onchain-KeepsStore wallet units currency to = search (keeps_store, as_uint-Within) depth 30

  pay_out-KeepsStore :
      (req : SettlementRequestRow) (kind : Text) → KeepsStore (pay_out env req kind)
  unfolding pay_out vault_balance_of
  pay_out-KeepsStore req kind =
      search
        (keeps_store, get_revenue_config-KeepsStore, pay_fiat-KeepsStore, pay_onchain-KeepsStore)
        depth 30

-- A request that was executed is marked so, and no other row of the database is written.
abbrev pub Executed : ℕ → Store → Store → Type 0
Executed id s s' =
    (tx : ℕ) × (fee_bps : ℕ) × (f : SettlementFee) × (s' ≡ record s {
      settlement_requests =
          update_where (λ r. r.id == id) (set_executed tx fee_bps f) s.settlement_requests;
    })

module _ (env : Env) where
  pub execute_settlement-Returns :
      (req : SettlementRequestRow) (kind : Text) (w : World)
      → Returns (λ _ u. Executed req.id w.store u.store) (execute_settlement env req kind w)
  unfolding execute_settlement update_request
  execute_settlement-Returns req kind w =
      let P : Unit {0} → World → Type 0 = λ _ u. Executed req.id w.store u.store in
      bind-Returns P (λ _ u. (u.store ≡ w.store) × (w.net.now ≤ u.net.now)) (pay_out env req kind w)
        _ (Within-Returns store_kept (pay_out env req kind) (pay_out-KeepsStore env req kind) w)
        λ paid u kept.
          let f = calc_settlement_fee env.numbers (env.numbers.parse req.amount) paid.1 in
          let write : Store → Store = λ s. record s {
            settlement_requests =
                update_where (λ r. r.id == req.id) (set_executed paid.0 paid.1 f)
                  s.settlement_requests;
          } in
          Returns-mono P
            (λ _ v. (v.store ≡ write u.store) × (v.chain ≡ u.chain) × (v.memory ≡ u.memory))
            (remote (set_store write) u) (λ _ v h. (paid.0, paid.1, f, h.0 ∙ ap write kept.0))
            (store-Returns write u)

  pub execute_or_fail-Returns :
      (req : SettlementRequestRow) (w : World)
      → Returns (λ _ u. Executed req.id w.store u.store) (execute_or_fail env req w)
  unfolding execute_or_fail
  execute_or_fail-Returns req w =
      catch-Returns (λ _ u. Executed req.id w.store u.store) (execute_settlement env req onchain) _
        w (execute_settlement-Returns req onchain w)
        λ e v.
          bind-Returns (λ _ u. Executed req.id w.store u.store) (λ _ _. Unit)
            (update_request req.id (set_status SettlementStatus.failed) v)
            (λ _. raise execution_failed) (Returns-any _) (λ _ u h. tt)

-- How an approved request stands: executed at once where the merchant is paid on the chain.
abbrev pub approved_status : Bool → SettlementStatus
approved_status is_onchain =
    if is_onchain then SettlementStatus.executed else SettlementStatus.approved

abbrev pub paid_onchain : Text → World → Bool
paid_onchain merchant_id w =
    text_eq (meta_of (find_merchant merchant_id w.store.merchants)).settlement_type onchain

-- The rows with a number that an approval has decided.
abbrev pub Decided : ℕ → SettlementStatus → ℕ → World → Type 0
Decided id status approver u =
    (r : SettlementRequestRow)
    → find (λ r. r.id == id) u.store.settlement_requests ≡ some r
    → (r.status ≡ status) × (r.approved_by ≡ some approver)

updated-Decided :
    (id approver : ℕ) (w u : World)
    → u.store.settlement_requests
      ≡ update_where
          (λ r. r.id == id)
          (decide SettlementStatus.approved approver)
          w.store.settlement_requests
    → Decided id SettlementStatus.approved approver u
unfolding decide
updated-Decided id approver w u e r er =
    let (x, ex, same) =
      find-updated (λ r. r.id == id) (decide SettlementStatus.approved approver) (λ x. refl)
        w.store.settlement_requests r (sym (ap (find (λ r. r.id == id)) e) ∙ er) in
    (ap (λ r. r.status) same, ap (λ r. r.approved_by) same)

executed-Decided :
    (id approver : ℕ) (u v : World)
    → Decided id SettlementStatus.approved approver u
    → Executed id u.store v.store
    → Decided id SettlementStatus.executed approver v
unfolding set_executed
executed-Decided id approver u v decided (tx, bps, f, e) r er =
    let (x, ex, same) =
      find-updated (λ r. r.id == id) (set_executed tx bps f) (λ x. refl) u.store.settlement_requests
        r (sym (ap (λ s. find (λ r. r.id == id) s.settlement_requests) e) ∙ er) in
    (ap (λ r. r.status) same, ap (λ r. r.approved_by) same ∙ (decided x ex).1)

execute_approved-Returns :
    (env : Env) (is_onchain : Bool) (req : SettlementRequestRow) (approver : ℕ) (u : World)
    → Decided req.id SettlementStatus.approved approver u
    → Returns
        (λ _ v. Decided req.id (approved_status is_onchain) approver v)
        (execute_approved env is_onchain req u)
unfolding execute_approved
execute_approved-Returns env true req approver u decided =
    Returns-mono (λ _ v. Decided req.id SettlementStatus.executed approver v)
      (λ _ v. Executed req.id u.store v.store) (execute_or_fail env req u)
      (λ _ v h. executed-Decided req.id approver u v decided h) (execute_or_fail-Returns env req u)
execute_approved-Returns env false req approver u decided = decided

reread-Returns :
    (id : ℕ) (w : World)
    → Returns
        (λ r u. (find (λ r. r.id == id) w.store.settlement_requests ≡ some r) × SameBase w u)
        (reread id w)
unfolding reread
reread-Returns id w =
    let P : SettlementRequestRow → World → Type 0 =
      λ r u. (find (λ r. r.id == id) w.store.settlement_requests ≡ some r) × SameBase w u in
    bind-Returns P (λ o u. (o ≡ find (λ r. r.id == id) w.store.settlement_requests) × SameBase w u)
      _ _ (read-Returns (λ v. find (λ r. r.id == id) v.store.settlement_requests) w (λ n. refl))
      λ o u (eo, same). or_raise_value P o _ u (λ r er. (sym eo ∙ er, same))

pub meta-Returns :
    (merchant_id : Text) (w : World)
    → Returns
        (λ m u. (m ≡ meta_of (find_merchant merchant_id w.store.merchants)) × SameBase w u)
        (get_merchant_meta merchant_id w)
unfolding get_merchant_meta
meta-Returns merchant_id w =
    bind-Returns (λ m u. (m ≡ meta_of (find_merchant merchant_id w.store.merchants)) × SameBase w u)
      (λ o u. (o ≡ find_merchant merchant_id w.store.merchants) × SameBase w u) _ _
      (read-Returns (λ v. find_merchant merchant_id v.store.merchants) w (λ n. refl))
      λ o u (eo, same). (ap meta_of eo, same)

same_request :
    (merchant_id : Text) (id : ℕ) (rows : List SettlementRequestRow) (q r : SettlementRequestRow)
    → find_request id merchant_id rows ≡ some q
    → (r.id == q.id) ≡ true
    → r.id ≡ id
unfolding find_request
same_request merchant_id id rows q r eq er =
    ground (arith, find-holds (λ r. r.id == id && text_eq r.merchant_id merchant_id) rows q eq)

-- An approval that succeeds was asked by the head office of a request of its merchant that was waiting; the
-- row that it answers has that number and names the one who approved, and it is executed where the merchant
-- is paid on the chain and approved where it is not.
pub approve_request-Returns :
    (env : Env) (member : Member) (id : ℕ) (w : World)
    → Returns
        (λ r u.
          Decidable member id w.store.settlement_requests
          × (r.id ≡ id)
          × (r.status ≡ approved_status (paid_onchain member.merchant_id w))
          × (r.approved_by ≡ some member.member_id))
        (approve_request env member id w)
unfolding approve_request approve require_org_admin update_request decide
approve_request-Returns env member id w =
    let rows = w.store.settlement_requests in
    let kind = paid_onchain member.merchant_id w in
    let P : SettlementRequestRow → World → Type 0 = λ r u.
      Decidable member id rows
      × (r.id ≡ id)
      × (r.status ≡ approved_status kind)
      × (r.approved_by ≡ some member.member_id) in
    respond-Returns P (approve env member id) w (
      raise_if-Returns P (not (is_org_admin member)) _ w _ λ admin.
        bind-Returns P (λ found u. (found ≡ find_request id member.merchant_id rows) × SameBase w u)
          _ _
          (read-Returns (λ v. find_request id member.merchant_id v.store.settlement_requests) w
            (λ n. refl))
          λ found u (ef, same). or_raise-Returns P found not_found u _ λ q eq.
            raise_if-Returns P (not (is_pending q)) not_pending u _ λ waiting.
              let write : Store → Store = λ s. record s {
                settlement_requests =
                    update_where (λ r. r.id == q.id)
                      (decide SettlementStatus.approved member.member_id) s.settlement_requests;
              } in
              bind-Returns P
                (λ _ v. (v.store ≡ write u.store) × (v.chain ≡ u.chain) × (v.memory ≡ u.memory))
                (remote (set_store write) u) _ (store-Returns write u)
                λ _ v (ev, _, _).
                  bind-Returns P
                    (λ m x.
                      (m ≡ meta_of (find_merchant member.merchant_id v.store.merchants))
                      × SameBase v x)
                    (get_merchant_meta member.merchant_id v) _ (meta-Returns member.merchant_id v)
                    λ m x (em, same_x).
                      bind-Returns P
                        (λ _ y.
                          Decided q.id (approved_status (text_eq m.settlement_type onchain))
                            member.member_id y)
                        (execute_approved env (text_eq m.settlement_type onchain)
                          (decide SettlementStatus.approved member.member_id q) x)
                        _
                        (execute_approved-Returns env (text_eq m.settlement_type onchain)
                          (decide SettlementStatus.approved member.member_id q) member.member_id x
                          (updated-Decided q.id member.member_id u x
                            (ap (λ s. s.settlement_requests) (same_x.store ∙ ev))))
                        λ _ y decided.
                          Returns-mono P
                            (λ r z.
                              (find (λ r. r.id == q.id) y.store.settlement_requests ≡ some r)
                              × SameBase y z)
                            (reread q.id y)
                            (λ r z (er, _).
                              let numbers : (r.id ≡ id) =
                                same_request member.merchant_id id rows q r (sym ef ∙ eq) (
                                  find-holds (λ r. r.id == q.id) y.store.settlement_requests r
                                    er) in
                              let told : kind ≡ text_eq m.settlement_type onchain = sym (
                                ap (λ k. text_eq k.settlement_type onchain) em
                                ∙ ap
                                    (λ s.
                                      text_eq
                                        (meta_of (
                                          find_merchant member.merchant_id
                                            s.merchants)).settlement_type
                                        onchain)
                                    (ev ∙ ap write same.store)) in
                              (
                                record {
                                  asker = ground arith;
                                  request = q;
                                  stored = sym ef ∙ eq;
                                  waiting = ground arith;
                                },
                                numbers,
                                (decided r er).0 ∙ ap approved_status (sym told),
                                (decided r er).1,
                              ))
                            (reread-Returns q.id y))
