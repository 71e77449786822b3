-- ===== src/Fulfilment.antt =====
-- server/src/fulfilmentService.ts: a sale whose payment is in escrow is put to the product's fulfilment
-- service; the answer is recorded, and the escrow is released by a task of its own, to the merchant or back
-- to the consumer. An inquiry is cut where it waits, after it has read the sale and after it has marked it
-- as asked, and what follows is a task: other tasks run in between. The transactions of one release are not
-- interleaved with other tasks. The lookup of a URL by product is not modelled: a sale carries its URL.
pub mod Frames
pub mod Once
pub mod Runs
pub mod Value
use tende.Base.{
  ℕ, Action, Bool, Error, List, Option, String, Text, [], catch, codes, false, gets, http,
  if◌then◌else◌, none, not, ok, or_else, or_raise, pure, some, take, text_eq, thrown, to_upper,
  true, ◌&&◌, ◌++◌, ◌==◌, ◌>>=◌, ◌>>◌, ◌||◌, ◌∷◌,
}
use mathlib.Core.Option
use tende.Schema.{
  SaleRow, SaleStatus, FulfilmentStatus, ReleaseJob, Task, fulfil, release, hear, ask,
}
use tende.World.{World, remote, set_store, set_memory}
use tende.Env.{Env, FulfilmentReply, FulfilmentAnswer, answered, unreachable, is_empty}
use tende.Treasury.{vault_admin_debit, vault_admin_credit, as_uint}
use tende.Escrow.{escrow_address}
use tende.Currency.{usdc}
use tende.Base.Rows.{find, update_where}

-- A slash at the end is dropped (`defaultFulfilmentUrl` of productCatalogService.ts).
unfoldable pub strip_slash : Text → Text
strip_slash [] = []
strip_slash (c ∷ s) = let rest = strip_slash s in if c == b'/' && is_empty s then [] else c ∷ rest

pub record ApiOutcome : Type 0 where
  pub success : Bool
  pub detail : Text

abbrev is_word : String → Option Text → Bool
is_word word s = elim s [ none ↦ false | some t ↦ text_eq t (codes word) ]

unfoldable pub judge : FulfilmentReply → ApiOutcome
judge r =
    if not r.http_ok
    then record {
      success = false;
      detail = codes "HTTP " ++ r.status_code ++ codes ": " ++ take 300 r.body;
    }
    else record {
      success = elim r.success [
        | some answer ↦ answer
        | none ↦
            if is_word "ok" r.status || is_word "success" r.status
            then true
            else if is_word "failed" r.status || is_word "error" r.status
            then false
            else true
      ];
      detail = take 500 r.body;
    }

-- A request that fails is a failed fulfilment.
unfoldable pub outcome_of : FulfilmentAnswer → ApiOutcome
unfolding judge
outcome_of (answered r) = judge r
outcome_of (unreachable message) = record { success = false; detail = message }

pub data Processed : Type 0 where
  paid refunded skipped : Processed

abbrev pub is_awaiting : SaleRow → Bool
is_awaiting s = elim s.status [ SaleStatus.pending_fulfilment ↦ true | _ ↦ false ]

-- The service's answer is known.
abbrev pub is_decided : SaleRow → Bool
is_decided s = elim s.fulfilment_status [
  | some FulfilmentStatus.success ↦ true
  | some FulfilmentStatus.failed ↦ true
  | _ ↦ false
]

abbrev pub set_fulfilment : FulfilmentStatus → Option Text → SaleRow → SaleRow
set_fulfilment status error s = record s {
  fulfilment_status = some status;
  fulfilment_error = error;
}

abbrev pub set_asked : SaleRow → SaleRow
set_asked s = record s { fulfilment_status = some FulfilmentStatus.pending }

abbrev pub set_released : SaleStatus → ℕ → SaleRow → SaleRow
set_released status tx s = record s { status = status; release_tx = some tx }

abbrev pub add_error : Text → SaleRow → SaleRow
add_error message s = record s {
  fulfilment_error = some (or_else s.fulfilment_error [] ++ message);
}

abbrev message_of : Error → Text
message_of (http status s) = codes s
message_of (thrown s) = codes s

abbrev pub is_sale : ℕ → SaleRow → Bool
is_sale id s = s.sale_id == id

abbrev pub awaiting_sale : ℕ → SaleRow → Bool
awaiting_sale id s = is_sale id s && is_awaiting s

unfoldable pub update_sales : (SaleRow → Bool) → (SaleRow → SaleRow) → Action World (Unit {0})
update_sales p f = remote (set_store (λ s. record s { sales = update_where p f s.sales }))

unfoldable pub set_immediate : Task → Action World (Unit {0})
set_immediate t = set_memory (λ m. record m { tasks = m.tasks ++ t ∷ [] })

module _ (env : Env) where
  unfoldable pub default_fulfilment_url : Text
  default_fulfilment_url = strip_slash env.config.public_api_base ++ codes "/api/mock/fulfil"

  unfoldable pub fulfilment_url_of : SaleRow → Text
  fulfilment_url_of sale =
      let url = or_else sale.fulfilment_url [] in
      if is_empty url then default_fulfilment_url else url

  unfoldable pub call_fulfilment_api : SaleRow → Action World ApiOutcome
  call_fulfilment_api sale =
      gets (λ w. outcome_of (env.fulfil w.net.now (fulfilment_url_of sale) sale))

  unfoldable pub release_escrow : Text → ℕ → Text → Action World ℕ
  release_escrow to_wallet amount currency = do
    escrow ← escrow_address env
    debit_tx ← vault_admin_debit env escrow amount currency
    tx ← vault_admin_credit env to_wallet amount currency
    pure tx

  unfoldable pub release_escrow_in_background : ReleaseJob → Action World (Unit {0})
  release_escrow_in_background job =
      catch
        (do
          tx ← release_escrow job.to_wallet job.amount_units job.currency
          update_sales (awaiting_sale job.sale_id) (set_released job.paid_status tx))
        (λ e.
          update_sales (is_sale job.sale_id)
            (add_error (codes " | release failed: " ++ message_of e)))

  unfoldable pub sale_units : SaleRow → Action World ℕ
  sale_units sale =
      let decimals = if text_eq (to_upper sale.currency) usdc then 6 else 2 in
      do
        units ←
            or_raise
              (env.parse_units (env.numbers.to_fixed (env.numbers.parse sale.amount) decimals)
                decimals)
              (thrown "invalid FixedNumber")
        as_uint units

  unfoldable pub release_of : SaleRow → ℕ → Text → SaleStatus → ReleaseJob
  release_of sale units to_wallet status = record {
    sale_id = sale.sale_id;
    to_wallet = to_wallet;
    amount_units = units;
    currency = to_upper sale.currency;
    paid_status = status;
  }

  unfoldable pub fulfilled : SaleRow → ℕ → Action World Processed
  fulfilled sale units = do
    update_sales (awaiting_sale sale.sale_id) (set_fulfilment FulfilmentStatus.success none)
    set_immediate (release (release_of sale units sale.merchant_wallet SaleStatus.paid))
    pure paid

  -- Nobody is paid back where the consumer's wallet is not known.
  unfoldable pub unfulfilled : SaleRow → ℕ → Text → Action World Processed
  unfulfilled sale units detail =
      let wallet = or_else sale.consumer_wallet [] in
      if is_empty wallet
      then (do
        update_sales (is_sale sale.sale_id) (set_fulfilment FulfilmentStatus.failed (some detail))
        pure skipped)
      else (do
        update_sales (awaiting_sale sale.sale_id)
            (set_fulfilment FulfilmentStatus.failed (some detail))
        set_immediate (release (release_of sale units wallet SaleStatus.refunded))
        pure refunded)

  -- What follows the service's answer: it is recorded, and then the release is started.
  unfoldable pub conclude : SaleRow → ℕ → ApiOutcome → Action World Processed
  conclude sale units outcome =
      if outcome.success then fulfilled sale units else unfulfilled sale units outcome.detail

  -- The inquiry after its checks, up to the request to the service.
  unfoldable pub ask_service : SaleRow → Action World (Unit {0})
  ask_service sale = do
    units ← sale_units sale
    update_sales (awaiting_sale sale.sale_id) set_asked
    set_immediate (hear sale units)

  -- The inquiry from the service's answer on.
  unfoldable pub hear_service : SaleRow → ℕ → Action World Processed
  hear_service sale units = do outcome ← call_fulfilment_api sale; conclude sale units outcome

  -- The inquiry up to the checks of the row that it has read.
  unfoldable pub process_sale_fulfilment : ℕ → Action World (Unit {0})
  process_sale_fulfilment id = do
    found ← remote (gets (λ w. find (is_sale id) w.store.sales))
    sale ← or_raise found (thrown "Sale not found")
    if not (is_awaiting sale) || is_decided sale then pure tt else set_immediate (ask sale)

  -- An error of an inquiry is logged and goes no further.
  unfoldable pub run_task : Task → Action World (Unit {0})
  run_task (fulfil id) = catch (process_sale_fulfilment id) (λ e. pure tt)
  run_task (ask sale) = catch (ask_service sale) (λ e. pure tt)
  run_task (hear sale units) = catch (do outcome ← hear_service sale units; pure tt) (λ e. pure tt)
  run_task (release job) = release_escrow_in_background job

  -- The first task that waits is run, if there is one.
  unfoldable pub run_first : List Task → Action World (Unit {0})
  run_first [] = pure tt
  run_first (t ∷ ts) = do set_memory (λ m. record m { tasks = ts }); run_task t

  unfoldable pub run_next : Action World (Unit {0})
  run_next = do tasks ← gets (λ w. w.memory.tasks); run_first tasks

unfoldable pub enqueue_sale_fulfilment : ℕ → Action World (Unit {0})
enqueue_sale_fulfilment id = set_immediate (fulfil id)
