-- ===== src/Fulfilment/Once.antt =====
-- What the tasks of fulfilment leave alone: a release, and an inquiry about another sale.
use tende.Base.{
  ℕ, Action, Bool, Text, arith, false, not, refl, some, sym, true, ◌==◌, ◌||◌, ◌∙◌, ◌≡◌, ==_iff, [],
  ap, gets, none, or_else, pure, subst, thrown, ◌≤◌,
}
use native.Mathlib.Nat.{le_refl}
use tende.Schema.{SaleRow, release, ReleaseJob}
use tende.Vault.{Vault}
use tende.World.{World, transact, on_vault}
use tende.World.Rules.{or_raise-Ends, if-Ends, bind-Ends_weaken}
use tende.World.Queries.{read-Ends, Leaves, world-Leaves}
use tende.World.Frames.{SameBase, Within, within, bind-Within, pure-Within, if-Within, gets-Within}
use tende.Env.{Env, is_empty}
use tende.Fulfilment.{
  process_sale_fulfilment, SaleStatus, release_escrow, release_escrow_in_background,
  FulfilmentStatus, ask_service, hear_service, is_awaiting, set_released, add_error, escrow_address,
  is_sale, conclude, is_decided, vault_admin_debit, set_fulfilment, fulfilled, vault_admin_credit,
  unfulfilled, call_fulfilment_api, sale_units, update_sales, release_of, awaiting_sale,
  set_immediate, paid, set_asked, remote, skipped, refunded, ask, hear,
}
use tende.Fulfilment.Frames.{
  queued, sale, settled, Harmless, update_sales-settled, decided_row, set_immediate-settled,
  under_way,
}
use tende.Escrow.{escrow_address}
use tende.Treasury.{vault_admin_debit, vault_admin_credit}
use tende.Base.Rows.{find, find-holds}
use tende.Treasury.Balances.{as_uint-Within}

transact-settled : (id : ℕ) (m : Action Vault (Unit {0})) → Within (settled id) (transact m)
unfolding transact on_vault
transact-settled id m =
    bind-Within (settled id) (on_vault m) _ (record { holds = λ w. (refl, le_refl _, le_refl _) })
      (λ _. record { holds = λ w. (refl, le_refl _, le_refl _) })

released-Harmless :
    (id : ℕ) (p : SaleRow → Bool) (status : SaleStatus) (tx : ℕ)
    → Harmless id p (set_released status tx)
released-Harmless id p status tx = record { keeps = λ s. refl; same = λ s h. ground arith }

error-Harmless : (id : ℕ) (p : SaleRow → Bool) (message : Text) → Harmless id p (add_error message)
error-Harmless id p message = record { keeps = λ s. refl; same = λ s h. ground arith }

pub same_sale : (id : ℕ) (w : World) (s : SaleRow) → sale id w ≡ some s → s.sale_id ≡ id
same_sale id w s e = (==_iff s.sale_id id).0 (find-holds (is_sale id) w.store.sales s e)

pub same_settled : (id : ℕ) (w u : World) → SameBase w u → (settled id).Rel w u
same_settled id w u b = (
  ap (λ s. decided_row (find (is_sale id) s.sales)) b.store,
  subst (λ m. queued id m.tasks ≤ queued id w.memory.tasks) (sym b.memory) (le_refl _),
  subst (λ m. under_way id m.tasks ≤ under_way id w.memory.tasks) (sym b.memory) (le_refl _),
)

module _ (env : Env) where
  release_escrow-settled :
      (id : ℕ) (wallet : Text) (amount : ℕ) (currency : Text)
      → Within (settled id) (release_escrow env wallet amount currency)
  unfolding release_escrow escrow_address vault_admin_debit vault_admin_credit
  release_escrow-settled id wallet amount currency = search (within, transact-settled) depth 20

  pub release-settled :
      (id : ℕ) (job : ReleaseJob) → Within (settled id) (release_escrow_in_background env job)
  unfolding release_escrow_in_background
  release-settled id job =
      search
        (within, release_escrow-settled, update_sales-settled, released-Harmless, error-Harmless)
        depth 20

  -- What an inquiry about another sale leaves alone.
  module _ (id : ℕ) (s : SaleRow) (other : (s.sale_id == id) ≡ false) where
    update-other :
        (p : SaleRow → Bool) (f : SaleRow → SaleRow)
        → ((x : SaleRow) → is_sale id (f x) ≡ is_sale id x)
        → ((x : SaleRow) → p x ≡ true → is_sale s.sale_id x ≡ true)
        → Within (settled id) (update_sales p f)
    update-other p f keeps only =
        update_sales-settled id p f (record { keeps = keeps; same = λ x h. ground (arith, only x) })

    awaiting-other :
        (f : SaleRow → SaleRow)
        → ((x : SaleRow) → is_sale id (f x) ≡ is_sale id x)
        → Within (settled id) (update_sales (awaiting_sale s.sale_id) f)
    awaiting-other f keeps = update-other (awaiting_sale s.sale_id) f keeps (λ x h. ground arith)

    release-other :
        (units : ℕ) (wallet : Text) (status : SaleStatus)
        → Within (settled id) (set_immediate (release (release_of env s units wallet status)))
    unfolding release_of queued under_way
    release-other units wallet status =
        set_immediate-settled id (release (release_of env s units wallet status)) (ground arith)
          refl

    fulfilled-settled : (units : ℕ) → Within (settled id) (fulfilled env s units)
    unfolding fulfilled
    fulfilled-settled units =
        bind-Within (settled id) _ _
          (awaiting-other (set_fulfilment FulfilmentStatus.success none) (λ x. refl))
          (λ _.
            bind-Within (settled id) _ _ (release-other units s.merchant_wallet SaleStatus.paid)
              (λ _. pure-Within (settled id) paid))

    unfulfilled-settled :
        (units : ℕ) (detail : Text) → Within (settled id) (unfulfilled env s units detail)
    unfolding unfulfilled
    unfulfilled-settled units detail =
        let f = set_fulfilment FulfilmentStatus.failed (some detail) in
        let wallet = or_else s.consumer_wallet [] in
        if-Within (settled id) (is_empty wallet) _ _
          (bind-Within (settled id) _ _ (update-other (is_sale s.sale_id) f (λ x. refl) (λ x h. h))
            (λ _. pure-Within (settled id) skipped))
          (bind-Within (settled id) _ _ (awaiting-other f (λ x. refl)) (λ _.
            bind-Within (settled id) _ _ (release-other units wallet SaleStatus.refunded)
              (λ _. pure-Within (settled id) refunded)))

    pub ask-settled : Within (settled id) (ask_service env s)
    unfolding ask_service sale_units queued under_way
    ask-settled =
        bind-Within (settled id) (sale_units env s) _ (search (within, as_uint-Within) depth 10)
          (λ units.
            bind-Within (settled id) _ _ (awaiting-other set_asked (λ x. refl))
              (λ _. set_immediate-settled id (hear s units) refl (ground arith)))

    pub hear-settled : (units : ℕ) → Within (settled id) (hear_service env s units)
    unfolding hear_service conclude call_fulfilment_api
    hear-settled units =
        bind-Within (settled id) (call_fulfilment_api env s) (conclude env s units)
          (gets-Within (settled id) _)
          (λ outcome.
            if-Within (settled id) outcome.success _ _ (fulfilled-settled units)
              (unfulfilled-settled units outcome.detail))

    pub begin-settled : Within (settled id) (set_immediate (ask s))
    unfolding queued under_way
    begin-settled = set_immediate-settled id (ask s) refl (ground arith)

  -- What a property needs that an inquiry keeps, up to its checks.
  pub process-Leaves :
      (Q : World → Type 0) (id : ℕ) (w : World)
      → ((u : World) → SameBase w u → Q u)
      → ((s : SaleRow) (u : World)
          → sale id w ≡ some s
          → is_decided s ≡ false
          → SameBase w u
          → Q (set_immediate (ask s) u).1)
      → Leaves Q (process_sale_fulfilment env id w)
  unfolding process_sale_fulfilment
  process-Leaves Q id w quiet begins =
      let P : Unit {0} → World → Type 0 = λ _ u. Q u in
      bind-Ends_weaken P Q (λ o u. (o ≡ sale id w) × SameBase w u) (λ u. SameBase w u)
        (remote (gets (λ v. sale id v)) w) _ (read-Ends (λ v. sale id v) w (λ n. refl))
        (λ u h. quiet u h)
        λ o u (eo, same). or_raise-Ends P Q o (thrown "Sale not found") u _ (quiet u same) λ s es.
          if-Ends P Q (not (is_awaiting s) || is_decided s) (pure tt) (set_immediate (ask s)) u
            (λ _. quiet u same)
            (λ h.
              world-Leaves Q (set_immediate (ask s) u)
                (begins s u (sym eo ∙ es) (ground arith) same))
