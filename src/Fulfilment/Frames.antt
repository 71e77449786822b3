-- ===== src/Fulfilment/Frames.antt =====
-- The sale that a number finds, and the releases that wait for it, across the steps of fulfilment.
use tende.Base.{
  ℕ, Bool, List, Option, [], ap, arith, false, if◌then◌else◌, none, refl, some, true, ◌++◌, ◌+◌,
  ◌==◌, ◌∙◌, ◌∷◌, ◌≡◌, ◌≤◌,
}
use mathlib.Core.Option
use native.Mathlib.Nat.{le_refl, le_trans}
use tende.Schema.{SaleRow, Task, fulfil, release}
use tende.World.{World, set_store, set_memory}
use tende.World.Frames.{Frame, Within, remote-Within}
use tende.Fulfilment.{is_sale, is_decided, update_sales, set_immediate, set_memory, ask, hear}
use tende.Base.Rows.{find, update_where, find-update_where, find-holds}

-- The releases of a sale that wait to run.
unfoldable pub queued : ℕ → List Task → ℕ
queued id [] = 0
queued id (fulfil j ∷ ts) = queued id ts
queued id (ask s ∷ ts) = queued id ts
queued id (hear s units ∷ ts) = queued id ts
queued id (release job ∷ ts) = (if job.sale_id == id then 1 else 0) + queued id ts

-- The inquiries about a sale that are past their checks.
unfoldable pub under_way : ℕ → List Task → ℕ
under_way id [] = 0
under_way id (fulfil j ∷ ts) = under_way id ts
under_way id (ask s ∷ ts) = (if s.sale_id == id then 1 else 0) + under_way id ts
under_way id (hear s units ∷ ts) = (if s.sale_id == id then 1 else 0) + under_way id ts
under_way id (release job ∷ ts) = under_way id ts

pub queued-append :
    (id : ℕ) (ts us : List Task) → queued id (ts ++ us) ≡ queued id ts + queued id us
unfolding queued
queued-append id [] us = omega arith
queued-append id (fulfil j ∷ ts) us = queued-append id ts us
queued-append id (ask s ∷ ts) us = queued-append id ts us
queued-append id (hear s units ∷ ts) us = queued-append id ts us
queued-append id (release job ∷ ts) us = omega (arith, queued-append id ts us)

pub under_way-append :
    (id : ℕ) (ts us : List Task) → under_way id (ts ++ us) ≡ under_way id ts + under_way id us
unfolding under_way
under_way-append id [] us = omega arith
under_way-append id (fulfil j ∷ ts) us = under_way-append id ts us
under_way-append id (ask s ∷ ts) us = omega (arith, under_way-append id ts us)
under_way-append id (hear s units ∷ ts) us = omega (arith, under_way-append id ts us)
under_way-append id (release job ∷ ts) us = under_way-append id ts us

abbrev pub decided_row : Option SaleRow → Bool
decided_row none = false
decided_row (some s) = is_decided s

abbrev pub sale : ℕ → World → Option SaleRow
sale id w = find (is_sale id) w.store.sales

abbrev pub decided : ℕ → World → Bool
decided id w = decided_row (sale id w)

-- Whether the sale is decided is as it was, and neither a release of it nor an inquiry about it that is past
-- its checks has been added.
abbrev pub settled : ℕ → Frame
settled id = record {
  Rel = λ w w'.
      (decided id w' ≡ decided id w)
      × (queued id w'.memory.tasks ≤ queued id w.memory.tasks)
      × (under_way id w'.memory.tasks ≤ under_way id w.memory.tasks);
  same = λ w. (refl, le_refl _, le_refl _);
  join = λ u v w p q. (q.0 ∙ p.0, le_trans q.1 p.1, le_trans q.2 p.2);
  network = λ w n h. (refl, le_refl _, le_refl _);
}

-- An update of the sales after which the sale is as decided as before.
pub record Harmless (id : ℕ) (p : SaleRow → Bool) (f : SaleRow → SaleRow) : Type 0 where
  pub keeps : (s : SaleRow) → is_sale id (f s) ≡ is_sale id s
  pub same :
      (s : SaleRow) → is_sale id s ≡ true → is_decided (if p s then f s else s) ≡ is_decided s

decided-update :
    (id : ℕ) (p : SaleRow → Bool) (f : SaleRow → SaleRow)
    → Harmless id p f
    → (rows : List SaleRow)
    → decided_row (find (is_sale id) (update_where p f rows)) ≡ decided_row (find (is_sale id) rows)
decided-update id p f h rows =
    ap decided_row (find-update_where (is_sale id) p f h.keeps rows)
    ∙ go (find (is_sale id) rows) refl
  where
    go :
        (o : Option SaleRow)
        → find (is_sale id) rows ≡ o
        → decided_row (Option.map (λ x. if p x then f x else x) o) ≡ decided_row o
    go none e = refl
    go (some s) e = h.same s (find-holds (is_sale id) rows s e)

pub update_sales-settled :
    (id : ℕ) (p : SaleRow → Bool) (f : SaleRow → SaleRow)
    → Harmless id p f
    → Within (settled id) (update_sales p f)
unfolding update_sales set_store
update_sales-settled id p f h =
    remote-Within (settled id) (set_store (λ s. record s { sales = update_where p f s.sales }))
      (record { holds = λ w. (decided-update id p f h w.store.sales, le_refl _, le_refl _) })

pub set_immediate-settled :
    (id : ℕ) (t : Task)
    → queued id (t ∷ []) ≡ 0
    → under_way id (t ∷ []) ≡ 0
    → Within (settled id) (set_immediate t)
unfolding set_immediate set_memory
set_immediate-settled id t no_release no_inquiry = record {
  holds = λ w. (
    refl,
    omega (arith, queued-append id w.memory.tasks (t ∷ []), no_release),
    omega (arith, under_way-append id w.memory.tasks (t ∷ []), no_inquiry),
  );
}
