-- ===== src/Tests/Sales.antt =====
-- A sale that is put to the fulfilment service, and the release that follows.
use tende.Base.{arith, refl, true, ◌≡◌, ◌≤◌, some, text_eq, to_lower, to_upper, [], ◌∷◌}
use tende.World.{World}
use tende.Schema.{SaleStatus, FulfilmentStatus, SaleRow, ReleaseJob, release, fulfil}
use tende.Treasury.Conserve.{CreatesNone}
use tende.Fulfilment.{process_sale_fulfilment, run_next, is_sale, enqueue_sale_fulfilment, run_task}
use tende.Fulfilment.Frames.{queued, decided, under_way}
use tende.Fulfilment.Runs.{stopped, stepped, ran, Run-Closed, waiting}
use tende.Fulfilment.Value.{run_next-CreatesNone}
use tende.Tests.Shop.{desk, market, sale_row}
use tende.Base.Rows.{find, update_where}
use tende.Base.Assoc.{insert, lookup}
use tende.Currency.{zar}

-- An inquiry has been started; it has read the sale; the service has been asked; its answer is recorded, and
-- the release waits.
abbrev started : World
started = (enqueue_sale_fulfilment 5 market).1

abbrev read : World
read = (run_next desk started).1

abbrev waiting_for_answer : World
waiting_for_answer = (run_next desk read).1

abbrev asked : World
asked = (run_next desk waiting_for_answer).1

abbrev released : World
released = (run_next desk asked).1

-- The answer is recorded, and a second inquiry waits beside the release.
abbrev paid_sale : SaleRow
paid_sale = record sale_row { fulfilment_status = some FulfilmentStatus.success }

abbrev payout_job : ReleaseJob
payout_job = record {
  sale_id = 5;
  to_wallet = sale_row.merchant_wallet;
  amount_units = 100;
  currency = zar;
  paid_status = SaleStatus.paid;
}

abbrev settling : World
settling = record market {
  store = record market.store { sales = paid_sale ∷ [] };
  memory = record market.memory { tasks = release payout_job ∷ fulfil 5 ∷ [] };
}

abbrev inquired_again : World
inquired_again = (run_task desk (fulfil 5) (waiting (release payout_job ∷ []) settling)).1

known : decided 5 settling ≡ true
unfolding find
known = refl

idle : under_way 5 settling.memory.tasks ≡ 0
unfolding under_way
idle = refl

Run-Closed_example :
    (decided 5 inquired_again ≡ true)
    × (queued 5 inquired_again.memory.tasks ≤ queued 5 settling.memory.tasks)
Run-Closed_example = Run-Closed desk 5 settling inquired_again known idle (
    stepped settling inquired_again inquired_again
      (ran (release payout_job ∷ []) [] (fulfil 5) settling refl) (stopped inquired_again))

run_next-CreatesNone_example : CreatesNone asked (run_next desk asked).1
run_next-CreatesNone_example = run_next-CreatesNone desk asked

-- Two inquiries that are started together both pass the check, and two releases wait.
abbrev twice : World
twice = (enqueue_sale_fulfilment 5 started).1

abbrev six_steps : World → World
six_steps w =
    let one = (run_next desk w).1 in
    let two = (run_next desk one).1 in
    let three = (run_next desk two).1 in
    let four = (run_next desk three).1 in
    let five = (run_next desk four).1 in (run_next desk five).1

released_twice : queued 5 (six_steps twice).memory.tasks ≡ 2
unfolding queued find run_next tende.Fulfilment.run_first process_sale_fulfilment tende.World.remote
    tende.Fulfilment.sale_units tende.Treasury.as_uint tende.Fulfilment.update_sales
    tende.World.set_store tende.Fulfilment.call_fulfilment_api tende.Fulfilment.conclude
    tende.Fulfilment.outcome_of tende.Fulfilment.fulfilled tende.Fulfilment.set_immediate
    tende.World.set_memory tende.Fulfilment.release_escrow_in_background tende.Base.Assoc.insert
    tende.Base.Assoc.lookup update_where tende.Base.text_eq tende.Base.to_lower tende.Base.to_upper
    tende.Escrow.escrow_address tende.Fulfilment.default_fulfilment_url
    tende.Fulfilment.fulfilment_url_of tende.Fulfilment.judge tende.Fulfilment.release_escrow
    tende.Fulfilment.release_of tende.Fulfilment.strip_slash tende.Treasury.vault_admin_credit
    tende.Treasury.vault_admin_debit tende.Vault.admin_credit tende.Vault.admin_debit
    tende.Vault.checked tende.Vault.convert_to_assets tende.Vault.convert_to_shares
    tende.Vault.credit_assets tende.Vault.debit_assets tende.Vault.pool tende.Vault.set_pool
    tende.World.deliver tende.World.on_vault tende.World.schedule tende.World.transact
    tende.Fulfilment.ask_service tende.Fulfilment.hear_service enqueue_sale_fulfilment run_task
released_twice = refl

-- The merchant is paid out of escrow.
paid_out :
    (find (is_sale 5) released.store.sales)
    ≡ some (record sale_row {
      status = SaleStatus.paid;
      fulfilment_status = some FulfilmentStatus.success;
      release_tx = some 1;
    })
unfolding find run_next tende.Fulfilment.run_first process_sale_fulfilment tende.World.remote
    tende.Fulfilment.sale_units tende.Treasury.as_uint tende.Fulfilment.update_sales
    tende.World.set_store tende.Fulfilment.call_fulfilment_api tende.Fulfilment.conclude
    tende.Fulfilment.outcome_of tende.Fulfilment.fulfilled tende.Fulfilment.set_immediate
    tende.World.set_memory tende.Fulfilment.release_escrow_in_background tende.Base.Assoc.insert
    tende.Base.Assoc.lookup update_where tende.Base.text_eq tende.Base.to_lower tende.Base.to_upper
    tende.Escrow.escrow_address tende.Fulfilment.default_fulfilment_url
    tende.Fulfilment.fulfilment_url_of tende.Fulfilment.judge tende.Fulfilment.release_escrow
    tende.Fulfilment.release_of tende.Fulfilment.strip_slash tende.Treasury.vault_admin_credit
    tende.Treasury.vault_admin_debit tende.Vault.admin_credit tende.Vault.admin_debit
    tende.Vault.checked tende.Vault.convert_to_assets tende.Vault.convert_to_shares
    tende.Vault.credit_assets tende.Vault.debit_assets tende.Vault.pool tende.Vault.set_pool
    tende.World.deliver tende.World.on_vault tende.World.schedule tende.World.transact
    tende.Fulfilment.ask_service tende.Fulfilment.hear_service enqueue_sale_fulfilment run_task
paid_out = refl
