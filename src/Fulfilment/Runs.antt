-- ===== src/Fulfilment/Runs.antt =====
-- The runs of the fulfilment service: inquiries that are started, and tasks that run when what they wait for
-- has come, in any order.
use native.Mathlib.Nat.{le_refl, le_trans}
use tende.Base.{
  ==_iff, Action, Bool-cases, List, Result, [], ap, arith, catch, err, false, inl, inr, ok, pure,
  refl, some, subst, sym, true, ℕ, ◌++◌, ◌==◌, ◌>>=◌, ◌∙◌, ◌∷◌, ◌≡◌, ◌≤◌,
}
use tende.Schema.{Task}
use tende.Env.{Env}
use tende.World.{World}
use tende.Fulfilment.Frames.{
  under_way, decided, settled, under_way-append, queued, queued-append, set_immediate-settled, sale,
  decided_row,
}
use tende.Fulfilment.{
  run_task, enqueue_sale_fulfilment, SaleRow, fulfil, process_sale_fulfilment, ask, hear,
  is_decided, ask_service, hear_service, release, set_immediate,
}
use tende.World.Queries.{Leaves, Leaves-world}
use tende.World.Frames.{catch-Within, pure-Within, bind-Within}
use tende.Fulfilment.Once.{
  same_sale, ask-settled, process-Leaves, same_settled, begin-settled, hear-settled,
  release-settled,
}

-- What is taken from among the tasks no longer waits.
abbrev pub waiting : List Task → World → World
waiting ts w = record w { memory = record w.memory { tasks = ts } }

pub data Step (env : Env) : World → World → Type 0 where
  enqueued : (id : ℕ) (w : World) → Step env w (enqueue_sale_fulfilment id w).1
  ran :
      (earlier later : List Task) (t : Task) (w : World)
      → w.memory.tasks ≡ earlier ++ t ∷ later
      → Step env w (run_task env t (waiting (earlier ++ later) w)).1

pub data Run (env : Env) : World → World → Type 0 where
  stopped : (w : World) → Run env w w
  stepped : (w u v : World) → Step env w u → Run env u v → Run env w v

-- The answer is recorded, no inquiry is past its checks, and no more releases wait than at the start.
abbrev pub Closed : ℕ → World → World → Type 0
Closed id w v =
    (decided id v ≡ true)
    × (under_way id v.memory.tasks ≡ 0)
    × (queued id v.memory.tasks ≤ queued id w.memory.tasks)

Closed-settled : (id : ℕ) (w u v : World) → (settled id).Rel u v → Closed id w u → Closed id w v
Closed-settled id w u v (same, fewer, none_new) (known, idle, few) =
    (same ∙ known, omega (arith, none_new, idle), le_trans fewer few)

-- Without one of its tasks, a world has no more of any.
taken_settled :
    (id : ℕ) (earlier later : List Task) (t : Task) (w : World)
    → w.memory.tasks ≡ earlier ++ t ∷ later
    → (settled id).Rel w (waiting (earlier ++ later) w)
taken_settled id earlier later t w e = (
  refl,
  omega (
    arith,
    ap (queued id) e,
    queued-append id earlier (t ∷ later),
    queued-append id earlier later,
    queued-append id (t ∷ []) later,
  ),
  omega (
    arith,
    ap (under_way id) e,
    under_way-append id earlier (t ∷ later),
    under_way-append id earlier later,
    under_way-append id (t ∷ []) later,
  ),
)

-- A task that waits beside no inquiry about the sale is none.
not_under_way :
    (id : ℕ) (earlier later : List Task) (t : Task)
    → under_way id (earlier ++ t ∷ later) ≡ 0
    → under_way id (t ∷ []) ≡ 0
not_under_way id earlier later t h =
    omega (arith, h, under_way-append id earlier (t ∷ later), under_way-append id (t ∷ []) later)

process-Closed :
    (env : Env) (id : ℕ) (w : World) (j : ℕ) (u : World)
    → Closed id w u
    → Leaves (λ v. Closed id w v) (process_sale_fulfilment env j u)
process-Closed env id w j u closed =
    process-Leaves env (λ v. Closed id w v) j u
      (λ v b. Closed-settled id w u v (same_settled id u v b) closed)
      λ s v e undecided b. elim (Bool-cases (s.sale_id == id)) [
        | inl mine ↦ absurd (reopened s e undecided mine)
        | inr other ↦
            Closed-settled id w v (set_immediate (ask s) v).1
              ((begin-settled env id s other).holds v)
              (Closed-settled id w u v (same_settled id u v b) closed)
      ]
  where
    reopened :
        (s : SaleRow) → sale j u ≡ some s → is_decided s ≡ false → (s.sale_id == id) ≡ true → ⊥
    reopened s e undecided mine =
        let at_id : sale id u ≡ some s =
          subst (λ i. sale i u ≡ some s) (sym (same_sale j u s e) ∙ (==_iff s.sale_id id).0 mine)
            e in
        cc (ap decided_row at_id, undecided, closed.0)

logged :
    (Q : World → Type 0) (m : Action World (Unit {0})) (w : World)
    → Q (m w).1
    → Q (catch m (λ e. pure tt) w).1
logged Q m w q = go (m w) q
  where
    go : (r : Result (Unit {0}) × World) → Q r.1 → Q (catch (λ (_ : World). r) (λ e. pure tt) w).1
    go (ok a, u) q = q
    go (err e, u) q = q

other_sale : (id : ℕ) (s : SaleRow) → under_way id (ask s ∷ []) ≡ 0 → (s.sale_id == id) ≡ false
unfolding under_way
other_sale id s h = ground arith

other_heard :
    (id : ℕ) (s : SaleRow) (units : ℕ)
    → under_way id (hear s units ∷ []) ≡ 0
    → (s.sale_id == id) ≡ false
unfolding under_way
other_heard id s units h = ground arith

task-Closed :
    (env : Env) (id : ℕ) (w : World) (t : Task) (u : World)
    → under_way id (t ∷ []) ≡ 0
    → Closed id w u
    → Closed id w (run_task env t u).1
unfolding run_task
task-Closed env id w (fulfil j) u idle closed =
    logged (λ v. Closed id w v) (process_sale_fulfilment env j) u
      (Leaves-world (λ v. Closed id w v) (process_sale_fulfilment env j u)
        (process-Closed env id w j u closed))
task-Closed env id w (ask s) u idle closed =
    Closed-settled id w u (run_task env (ask s) u).1
      ((catch-Within (settled id) (ask_service env s) _
          (ask-settled env id s (other_sale id s idle)) (λ e. pure-Within (settled id) tt)).holds
        u)
      closed
task-Closed env id w (hear s units) u idle closed =
    Closed-settled id w u (run_task env (hear s units) u).1
      ((catch-Within (settled id) (hear_service env s units >>= λ _. pure tt) _
          (bind-Within (settled id) (hear_service env s units) (λ _. pure tt)
            (hear-settled env id s (other_heard id s units idle) units)
            (λ _. pure-Within (settled id) tt))
          (λ e. pure-Within (settled id) tt)).holds
        u)
      closed
task-Closed env id w (release job) u idle closed =
    Closed-settled id w u (run_task env (release job) u).1 ((release-settled env id job).holds u)
      closed

Step-Closed : (env : Env) (id : ℕ) (w u v : World) → Step env u v → Closed id w u → Closed id w v
unfolding enqueue_sale_fulfilment queued under_way
Step-Closed env id w _ _ (enqueued j u) closed =
    Closed-settled id w u (set_immediate (fulfil j) u).1
      ((set_immediate-settled id (fulfil j) refl refl).holds u) closed
Step-Closed env id w _ _ (ran earlier later t u e) closed =
    task-Closed env id w t (waiting (earlier ++ later) u)
      (not_under_way id earlier later t (sym (ap (under_way id) e) ∙ closed.1))
      (Closed-settled id w u (waiting (earlier ++ later) u) (taken_settled id earlier later t u e)
        closed)

Run-Closed_from : (env : Env) (id : ℕ) (w u v : World) → Run env u v → Closed id w u → Closed id w v
Run-Closed_from env id w _ _ (stopped u) closed = closed
Run-Closed_from env id w _ _ (stepped u x v s r) closed =
    Run-Closed_from env id w x v r (Step-Closed env id w u x s closed)

-- Once the answer of the service about a sale is recorded, and no inquiry about it is past its checks, no run
-- takes the answer back or starts a release of the sale, in whatever order inquiries are started and the
-- tasks run.
pub Run-Closed :
    (env : Env) (id : ℕ) (w u : World)
    → decided id w ≡ true
    → under_way id w.memory.tasks ≡ 0
    → Run env w u
    → (decided id u ≡ true) × (queued id u.memory.tasks ≤ queued id w.memory.tasks)
Run-Closed env id w u known idle r =
    let (known', idle', few) = Run-Closed_from env id w w u r (known, idle, le_refl _) in
    (known', few)
