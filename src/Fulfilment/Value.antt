-- ===== src/Fulfilment/Value.antt =====
-- Fulfilment moves value out of escrow, and makes none.
use tende.Base.{ℕ, Action, Bool, List, Text, [], refl, subst, sym, ◌∷◌, ◌≤◌, gets}
use native.Mathlib.Nat.{le_refl}
use tende.World.{World}
use tende.World.Frames.{
  Within, Quiet, quiet, within, set_memory-Quiet, pure-Within, bind-Within, gets-Within,
}
use tende.Env.{Env}
use tende.Treasury.Conserve.{
  Conserves, CreatesNone, no_creation, Conserves-Within, Conserves-from, Quiet-then,
  debit_credit_then,
}
use tende.Fulfilment.{
  process_sale_fulfilment, update_sales, escrow_address, release_escrow,
  release_escrow_in_background, sale_units, ask_service, hear_service, run_task, run_first,
  run_next, SaleRow, ReleaseJob, conclude, fulfil, fulfilled, release, unfulfilled, set_immediate,
  call_fulfilment_api, Task, ask_service, hear_service, ask, hear,
}
use tende.Vault.Conservation.{assets}
use tende.World.Rules.{ledger}
use tende.Escrow.{escrow_address}
use tende.Treasury.Balances.{as_uint-Within}

Quiet-no_creation : {A : Type 0} (m : Action World A) → Quiet m → Within no_creation m
Quiet-no_creation m q = record {
  holds = λ w c. subst (λ x. assets c x.vault ≤ ledger c w) (sym (q.holds w)) (le_refl _);
}

update_sales-Quiet : (p : SaleRow → Bool) (f : SaleRow → SaleRow) → Quiet (update_sales p f)
unfolding update_sales
update_sales-Quiet p f = search quiet depth 10

module _ (env : Env) where
  escrow_address-Quiet : Quiet (escrow_address env)
  unfolding escrow_address
  escrow_address-Quiet = search quiet

  -- A release that succeeds leaves the recorded assets of every currency as they were, and one that fails
  -- leaves them no higher.
  pub release_escrow-Conserves :
      (to_wallet : Text) (amount : ℕ) (currency : Text) (w : World)
      → Conserves w (release_escrow env to_wallet amount currency w)
  unfolding release_escrow
  release_escrow-Conserves to_wallet amount currency w =
      Quiet-then w (escrow_address env) _ escrow_address-Quiet
        (λ escrow u h. Conserves-from w u _ h (
          debit_credit_then env to_wallet amount currency u escrow _
            (λ d t. search quiet depth 10)))
        w (λ c. refl)

  release_in_background-Within :
      (job : ReleaseJob) → Within no_creation (release_escrow_in_background env job)
  unfolding release_escrow_in_background
  release_in_background-Within job =
      search
        (within, Quiet-no_creation, update_sales-Quiet, Conserves-Within, release_escrow-Conserves)
        depth 20

  sale_units-Quiet : (sale : SaleRow) → Quiet (sale_units env sale)
  unfolding sale_units
  sale_units-Quiet sale = search (quiet, as_uint-Within) depth 20

  ask_service-Quiet : (sale : SaleRow) → Quiet (ask_service env sale)
  unfolding ask_service set_immediate
  ask_service-Quiet sale = search (quiet, update_sales-Quiet, sale_units-Quiet) depth 30

  hear_service-Quiet : (sale : SaleRow) (units : ℕ) → Quiet (hear_service env sale units)
  unfolding hear_service conclude fulfilled unfulfilled set_immediate call_fulfilment_api
  hear_service-Quiet sale units = search (quiet, update_sales-Quiet) depth 30

  process_sale_fulfilment-Quiet : (id : ℕ) → Quiet (process_sale_fulfilment env id)
  unfolding process_sale_fulfilment set_immediate
  process_sale_fulfilment-Quiet id = search quiet depth 20

  run_task-Within : (t : Task) → Within no_creation (run_task env t)
  unfolding run_task
  run_task-Within (fulfil id) =
      search (within, Quiet-no_creation, process_sale_fulfilment-Quiet) depth 20
  run_task-Within (ask sale) = search (within, Quiet-no_creation, ask_service-Quiet) depth 20
  run_task-Within (hear sale units) =
      search (within, Quiet-no_creation, hear_service-Quiet) depth 20
  run_task-Within (release job) = release_in_background-Within job

  run_first-Within : (ts : List Task) → Within no_creation (run_first env ts)
  unfolding run_first
  run_first-Within [] = pure-Within no_creation tt
  run_first-Within (t ∷ ts) =
      search (within, Quiet-no_creation, set_memory-Quiet, run_task-Within) depth 10

  -- The task that runs next, an inquiry or a release, leaves no more assets recorded in any currency than
  -- there were, whatever fails.
  pub run_next-CreatesNone : (w : World) → CreatesNone w (run_next env w).1
  unfolding run_next
  run_next-CreatesNone w =
      (bind-Within no_creation (gets (λ x. x.memory.tasks)) (run_first env)
          (gets-Within no_creation _) run_first-Within).holds
        w
