-- ===== src/Settlement/Requests.antt =====
-- The routes of server/src/settlement.routes.ts that make and decide requests for a payout.
use tende.Base.{
  ℕ, Action, Bool, Error, List, Option, Text, [], catch, codes, false, gets, http, if◌then◌else◌,
  is_hex_address, none, not, or_else, or_raise, pure, raise, raise_if, respond, some, text_eq,
  thrown, to_upper, trim, true, ◌&&◌, ◌++◌, ◌==◌, ◌>>=◌, ◌>>◌, ◌||◌, ◌∷◌,
}
use tende.Schema.{SettlementRequestRow, SettlementStatus}
use tende.World.{World, remote, set_store, fresh_id}
use tende.Env.{Env, is_empty}
use tende.Revenue.{get_revenue_config, calc_settlement_fee}
use tende.Settlement.{
  Member, is_org_admin, require_org_admin, get_merchant_meta, onchain, bank_payout_label,
}
use tende.Settlement.Pay.{update_request, execute_settlement}
use tende.Base.Rows.{find, update_where}

pub record PayoutRequest : Type 0 where
  pub amount : Text
  pub currency : Text
  pub destination : Option Text
  pub bank_reference : Option Text

abbrev pub execution_failed : Error
execution_failed = http 502 "Execution failed"

abbrev pub not_found : Error
not_found = http 404 "Not found"

abbrev pub not_pending : Error
not_pending = http 409 "not pending"

abbrev pub is_pending : SettlementRequestRow → Bool
is_pending r = elim r.status [ SettlementStatus.pending ↦ true | _ ↦ false ]

abbrev pub set_status : SettlementStatus → SettlementRequestRow → SettlementRequestRow
set_status s r = record r { status = s }

unfoldable pub decide : SettlementStatus → ℕ → SettlementRequestRow → SettlementRequestRow
decide s member_id r = record r { status = s; approved_by = some member_id }

-- `trim()` of a text that may be missing.
abbrev trimmed : Option Text → Text
trimmed s = trim (or_else s [])

-- The first text that is not empty, or else the fixed one.
unfoldable pub fiat_destination : Text → Text → Option Text → Text
fiat_destination bank_reference dest label =
    if not (is_empty bank_reference)
    then bank_reference
    else if not (is_empty dest)
    then dest
    else or_else label (codes "Bank payout (see off-ramp config)")

-- The query for the bank's label is made only where nothing else is given.
unfoldable pub choose_destination : PayoutRequest → Bool → Text → Action World Text
choose_destination q is_fiat merchant_id =
    let dest = trimmed q.destination in
    let reference = trimmed q.bank_reference in
    if not is_fiat
    then (do
      raise_if (not (is_hex_address dest))
          (http 400 "destination must be a 0x address for on-chain settlement")
      pure dest)
    else if is_empty reference && is_empty dest
    then (do label ← bank_payout_label merchant_id; pure (fiat_destination reference dest label))
    else pure (fiat_destination reference dest none)

-- The `SELECT` of a row by its id.
unfoldable pub reread : ℕ → Action World SettlementRequestRow
reread id = do
  row ← remote (gets (λ w. find (λ r. r.id == id) w.store.settlement_requests))
  or_raise row (thrown "undefined")

unfoldable pub find_request : ℕ → Text → List SettlementRequestRow → Option SettlementRequestRow
find_request id merchant_id rows = find (λ r. r.id == id && text_eq r.merchant_id merchant_id) rows

module _ (env : Env) where
  unfoldable pub request_of : Member → PayoutRequest → Text → ℕ → ℕ → Text → SettlementRequestRow
  request_of member q dest fee_bps id amount =
      let f = calc_settlement_fee env.numbers (env.numbers.parse q.amount) fee_bps in
      record {
        id = id;
        merchant_id = member.merchant_id;
        requested_by = member.member_id;
        amount = amount;
        currency = to_upper q.currency;
        destination = dest;
        status =
            if is_org_admin member then SettlementStatus.approved else SettlementStatus.pending;
        approved_by = if is_org_admin member then some member.member_id else none;
        executed_tx_hash = none;
        fee_bps = some fee_bps;
        fee_amount = some f.fee;
        net_amount = some f.net;
      }

  unfoldable pub insert_request :
      Member → PayoutRequest → Text → ℕ → Action World SettlementRequestRow
  insert_request member q dest fee_bps = remote (do
    amount ← or_raise (env.numeric_2 q.amount) (thrown "invalid input syntax for type numeric")
    id ← fresh_id
    let row = request_of member q dest fee_bps id amount
    set_store (λ s. record s { settlement_requests = s.settlement_requests ++ row ∷ [] })
    pure row)

  -- The execution on the chain, whose failure is recorded and answered.
  unfoldable pub execute_or_fail : SettlementRequestRow → Action World (Unit {0})
  execute_or_fail request = catch (execute_settlement env request onchain) (λ e. do
    update_request request.id (set_status SettlementStatus.failed)
    raise execution_failed)

  -- Executed at once where it is approved and on the chain. A failure to read the row again is recorded as
  -- one of the execution.
  unfoldable pub conclude : Member → Bool → SettlementRequestRow → Action World SettlementRequestRow
  conclude member is_fiat request =
      if is_org_admin member && not is_fiat
      then (do
        row ←
            catch
              (do
                execute_settlement env request onchain
                remote (gets (λ w. find (λ r. r.id == request.id) w.store.settlement_requests)))
              (λ e. do
                update_request request.id (set_status SettlementStatus.failed)
                raise execution_failed)
        or_raise row (thrown "undefined"))
      else pure request

  unfoldable pub create : Member → PayoutRequest → Action World SettlementRequestRow
  create member q = do
    raise_if (is_empty q.amount || is_empty q.currency) (http 400 "amount and currency required")
    meta ← get_merchant_meta member.merchant_id
    let is_fiat = not (text_eq meta.settlement_type onchain)
    dest ← choose_destination q is_fiat member.merchant_id
    revenue ← get_revenue_config
    request ← insert_request member q dest revenue.settlement_fee_bps
    conclude member is_fiat request

  unfoldable pub create_request : Member → PayoutRequest → Action World SettlementRequestRow
  create_request member q = respond (create member q)

  unfoldable pub execute_approved : Bool → SettlementRequestRow → Action World (Unit {0})
  execute_approved is_onchain request = if is_onchain then execute_or_fail request else pure tt

  -- The row in memory is what is executed, its status and approver written by hand.
  unfoldable pub approve : Member → ℕ → Action World SettlementRequestRow
  approve member id = do
    require_org_admin member
    found ← remote (gets (λ w. find_request id member.merchant_id w.store.settlement_requests))
    request ← or_raise found not_found
    raise_if (not (is_pending request)) not_pending
    update_request request.id (decide SettlementStatus.approved member.member_id)
    meta ← get_merchant_meta member.merchant_id
    execute_approved (text_eq meta.settlement_type onchain)
        (decide SettlementStatus.approved member.member_id request)
    reread request.id

  unfoldable pub approve_request : Member → ℕ → Action World SettlementRequestRow
  approve_request member id = respond (approve member id)

abbrev pub rejectable : ℕ → Text → SettlementRequestRow → Bool
rejectable id merchant_id r = r.id == id && text_eq r.merchant_id merchant_id && is_pending r

-- No error is caught here.
unfoldable pub reject_request : Member → ℕ → Action World SettlementRequestRow
reject_request member id = do
  require_org_admin member
  rejected ← remote (do
    row ← gets (λ w. find (rejectable id member.merchant_id) w.store.settlement_requests)
    set_store (λ s. record s {
      settlement_requests =
          update_where (rejectable id member.merchant_id)
            (decide SettlementStatus.rejected member.member_id) s.settlement_requests;
    })
    pure row)
  row ← or_raise rejected (http 409 "Not found or not pending")
  pure (decide SettlementStatus.rejected member.member_id row)
