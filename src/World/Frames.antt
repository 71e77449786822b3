-- ===== src/World/Frames.antt =====
-- Handlers that stay within a frame: however they end, the world after is related to the world before.
-- A frame allows what the network does by itself. The rules serve `search`.
use native.Mathlib.Nat.{le_refl, le_trans}
use tende.Base.{
  ℕ, Action, Bool, Error, List, Option, Result, [], catch, err, false, gets, if◌then◌else◌, none,
  ok, or_raise, pure, raise, raise_if, refl, resume, some, true, ◌>>=◌, ◌∙◌, ◌∷◌, ◌≡◌, arith, ◌≤◌,
}
use tende.World.{
  World, Net, Outcome, delivered, dropped, unconfirmed, Store, Memory, remote, schedule, deliver,
  clock, pass_time, set_store, set_memory, fresh_id,
}

pub record Frame : Type 1 where
  pub Rel : World → World → Type 0
  pub same : (w : World) → Rel w w
  pub join : (u v w : World) → Rel u v → Rel v w → Rel u w
  pub network : (w : World) (n : Net) → w.net.now ≤ n.now → Rel w (record w { net = n })

pub record Within (F : Frame) {A : Type 0} (m : Action World A) : Type 0 where
  pub holds : (w : World) → F.Rel w (m w).1

module _ (F : Frame) where
  module _ {A : Type 0} where
    pub pure-Within : (a : A) → Within F (pure a)
    pure-Within a = record { holds = F.same }

    pub gets-Within : (f : World → A) → Within F (gets f)
    gets-Within f = record { holds = F.same }

    or_raise_rel : (o : Option A) (e : Error) (w : World) → F.Rel w (or_raise o e w).1
    or_raise_rel none e w = F.same w
    or_raise_rel (some a) e w = F.same w

    pub or_raise-Within : (o : Option A) (e : Error) → Within F (or_raise o e)
    or_raise-Within o e = record { holds = or_raise_rel o e }

    deliver_rel :
        (o : Outcome) (m : Action World A) → Within F m → (w : World) → F.Rel w (deliver o m w).1
    unfolding deliver
    deliver_rel delivered m q w = q.holds w
    deliver_rel dropped m q w = F.same w
    deliver_rel unconfirmed m q w = q.holds w

    schedule_rel :
        (os : List Outcome) (m : Action World A)
        → Within F m
        → (w : World) → F.Rel w (schedule os m w).1
    unfolding schedule
    schedule_rel [] m q w = q.holds w
    schedule_rel (o ∷ os) m q w =
        let n : Net = record w.net { outcomes = os } in
        F.join w (record w { net = n }) _ (F.network w n (le_refl _))
          (deliver_rel o m q (record w { net = n }))

    pub remote-Within : (m : Action World A) → Within F m → Within F (remote m)
    unfolding remote
    remote-Within m q = record { holds = λ w. schedule_rel w.net.outcomes m q w }

    resume_rel :
        {B : Type 0} (u : World) (r : Result A × World) (f : A → Action World B)
        → F.Rel u r.1
        → ((a : A) → Within F (f a))
        → F.Rel u (resume r f).1
    resume_rel u (ok a, w) f h q = F.join u w _ h ((q a).holds w)
    resume_rel u (err e, w) f h q = h

    pub bind-Within :
        {B : Type 0} (m : Action World A) (f : A → Action World B)
        → Within F m
        → ((a : A) → Within F (f a))
        → Within F (m >>= f)
    bind-Within m f qm qf = record { holds = λ w. resume_rel w (m w) f (qm.holds w) qf }

    catch_rel :
        (u : World) (r : Result A × World) (h : Error → Action World A)
        → F.Rel u r.1
        → ((e : Error) → Within F (h e))
        → F.Rel u (catch (λ (w : World). r) h r.1).1
    catch_rel u (ok a, w) h p q = p
    catch_rel u (err e, w) h p q = F.join u w _ p ((q e).holds w)

    pub catch-Within :
        (m : Action World A) (h : Error → Action World A)
        → Within F m
        → ((e : Error) → Within F (h e))
        → Within F (catch m h)
    catch-Within m h qm qh = record { holds = λ w. catch_rel w (m w) h (qm.holds w) qh }

    pub if-Within :
        (c : Bool) (m n : Action World A) → Within F m → Within F n → Within F (if c then m else n)
    if-Within true m n p q = p
    if-Within false m n p q = q

  pub raise-Within : (A : Type 0) (e : Error) → Within F {A = A} (raise e)
  raise-Within A e = record { holds = F.same }

  pub raise_if-Within : (c : Bool) (e : Error) → Within F (raise_if c e)
  raise_if-Within c e = record { holds = F.same }

  clock_rel : (ds : List ℕ) (w : World) → F.Rel w (pass_time ds w)
  unfolding pass_time
  clock_rel [] w = F.same w
  clock_rel (d ∷ ds) w = F.network w _ (omega arith)

  pub clock-Within : Within F clock
  unfolding clock
  clock-Within = record { holds = λ w. clock_rel w.net.elapses w }

pub ruleset within = (
  pure-Within, gets-Within, or_raise-Within, remote-Within, bind-Within, catch-Within, if-Within,
  raise-Within, raise_if-Within, clock-Within,
)

-- Nothing but the network has changed.
pub record SameBase (w w' : World) : Type 0 where
  pub chain : w'.chain ≡ w.chain
  pub store : w'.store ≡ w.store
  pub memory : w'.memory ≡ w.memory

pub SameBase-refl : (w : World) → SameBase w w
SameBase-refl w = record { chain = refl; store = refl; memory = refl }

pub SameBase-trans : (u v w : World) → SameBase u v → SameBase v w → SameBase u w
SameBase-trans u v w p q = record {
  chain = q.chain ∙ p.chain;
  store = q.store ∙ p.store;
  memory = q.memory ∙ p.memory;
}

abbrev pub unchanged : Frame
unchanged = record {
  Rel = SameBase;
  same = SameBase-refl;
  join = SameBase-trans;
  network = λ w n h. record { chain = refl; store = refl; memory = refl };
}

abbrev pub no_transaction : Frame
no_transaction = record {
  Rel = λ w w'. w'.chain ≡ w.chain;
  same = λ w. refl;
  join = λ u v w p q. q ∙ p;
  network = λ w n h. refl;
}

-- The database is as it was, and time has not run back.
abbrev pub store_kept : Frame
store_kept = record {
  Rel = λ w w'. (w'.store ≡ w.store) × (w.net.now ≤ w'.net.now);
  same = λ w. (refl, le_refl _);
  join = λ u v w p q. (q.0 ∙ p.0, le_trans p.1 q.1);
  network = λ w n h. (refl, h);
}

abbrev pub KeepsStore : {A : Type 0} → Action World A → Type 0
KeepsStore m = Within store_kept m

pub set_memory-KeepsStore : (f : Memory → Memory) → KeepsStore (set_memory f)
unfolding set_memory
set_memory-KeepsStore f = record { holds = λ w. (refl, le_refl _) }

abbrev pub ReadOnly : {A : Type 0} → Action World A → Type 0
ReadOnly m = Within unchanged m

abbrev pub Quiet : {A : Type 0} → Action World A → Type 0
Quiet m = Within no_transaction m

pub set_store-Quiet : (f : Store → Store) → Quiet (set_store f)
unfolding set_store
set_store-Quiet f = record { holds = λ w. refl }

pub set_memory-Quiet : (f : Memory → Memory) → Quiet (set_memory f)
unfolding set_memory
set_memory-Quiet f = record { holds = λ w. refl }

pub fresh_id-Quiet : Quiet fresh_id
unfolding fresh_id
fresh_id-Quiet = record { holds = λ w. refl }

pub ReadOnly-Quiet : {A : Type 0} (m : Action World A) → ReadOnly m → Quiet m
ReadOnly-Quiet m q = record { holds = λ w. (q.holds w).chain }

pub ruleset quiet = (within, set_store-Quiet, set_memory-Quiet, fresh_id-Quiet)
