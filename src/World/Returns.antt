-- ===== src/World/Returns.antt =====
-- What a handler's success tells: rules for the steps that it must have gone through.
use tende.Base.{
  ℕ, Action, Bool, Error, List, Option, Result, [], arith, catch, err, false, none, ok, or_raise,
  raise_if, refl, resume, some, true, ◌∷◌, ◌≡◌, ◌≤◌, internal, raise, respond, if◌then◌else◌, ◌>>=◌,
}
use tende.World.{
  World, Net, Outcome, delivered, dropped, unconfirmed, remote, schedule, deliver, clock, pass_time,
}
use tende.World.{Store, set_store}
use tende.World.Rules.{Ends, with_net}
use tende.World.Frames.{Quiet, no_transaction, Frame, Within, SameBase}

-- `P` holds of the result and the world, if there is a result.
abbrev pub Returns : {A : Type 0} → (A → World → Type 0) → Result A × World → Type 0
Returns P (ok a, w') = P a w'
Returns P (err _, w') = Unit

abbrev pub Fails : {A : Type 0} → Result A × World → Type 0
Fails r = Returns (λ _ _. ⊥) r

abbrev pub IsOk : {A : Type 0} → Result A × World → Type 0
IsOk (ok a, w') = Unit
IsOk (err e, w') = ⊥

pub returned :
    {A : Type 0} (P : A → World → Type 0) (r : Result A × World)
    → Returns P r
    → IsOk r
    → (a : A) × (r ≡ (ok a, r.1)) × P a r.1
returned P (ok a, w') h k = (a, refl, h)
returned P (err e, w') h k = absurd k

module _ {A : Type 0} (P : A → World → Type 0) where
  pub Returns-mono :
      (Q : A → World → Type 0) (r : Result A × World)
      → ((a : A) (w : World) → Q a w → P a w)
      → Returns Q r
      → Returns P r
  Returns-mono Q (ok a, w') f h = f a w' h
  Returns-mono Q (err e, w') f h = tt

  pub bind-Returns :
      {B : Type 0} (Q : B → World → Type 0) (r : Result B × World) (f : B → Action World A)
      → Returns Q r
      → ((b : B) (u : World) → Q b u → Returns P (f b u))
      → Returns P (resume r f)
  bind-Returns Q (ok b, u) f h k = k b u h
  bind-Returns Q (err e, u) f h k = tt

  pub raise_if-Returns :
      (c : Bool) (e : Error) (w : World) (f : Unit {0} → Action World A)
      → (c ≡ false → Returns P (f tt w))
      → Returns P (resume (raise_if c e w) f)
  raise_if-Returns true e w f k = tt
  raise_if-Returns false e w f k = k refl

  pub or_raise-Returns :
      {B : Type 0} (o : Option B) (e : Error) (w : World) (f : B → Action World A)
      → ((b : B) → o ≡ some b → Returns P (f b w))
      → Returns P (resume (or_raise o e w) f)
  or_raise-Returns none e w f k = tt
  or_raise-Returns (some b) e w f k = k b refl

  pub if-Returns :
      (c : Bool) (m n : Action World A) (w : World)
      → (c ≡ true → Returns P (m w))
      → (c ≡ false → Returns P (n w))
      → Returns P ((if c then m else n) w)
  if-Returns true m n w f g = f refl
  if-Returns false m n w f g = g refl

  pub or_raise_value :
      (o : Option A) (e : Error) (w : World)
      → ((a : A) → o ≡ some a → P a w)
      → Returns P (or_raise o e w)
  or_raise_value none e w k = tt
  or_raise_value (some a) e w k = k a refl

  pub catch-Returns :
      (m : Action World A) (h : Error → Action World A) (w : World)
      → Returns P (m w)
      → ((e : Error) (v : World) → Returns P (h e v))
      → Returns P (catch m h w)
  catch-Returns m h w p q = go (m w) p
    where
      go : (r : Result A × World) → Returns P r → Returns P (catch (λ (_ : World). r) h w)
      go (ok a, v) p = p
      go (err e, v) p = q e v

  deliver-Returns :
      (o : Outcome) (m : Action World A) (w : World) → Returns P (m w) → Returns P (deliver o m w)
  unfolding deliver
  deliver-Returns delivered m w h = h
  deliver-Returns dropped m w h = tt
  deliver-Returns unconfirmed m w h = tt

  schedule-Returns :
      (os : List Outcome) (m : Action World A) (w : World)
      → ((n : Net) → n.now ≡ w.net.now → Returns P (m (with_net w n)))
      → Returns P (schedule os m w)
  unfolding schedule
  schedule-Returns [] m w h = h w.net refl
  schedule-Returns (o ∷ os) m w h =
      let n : Net = record w.net { outcomes = os } in deliver-Returns o m (with_net w n) (h n refl)

  -- A remote call that answers was made, at the time of the call.
  pub remote-Returns :
      (m : Action World A) (w : World)
      → ((n : Net) → n.now ≡ w.net.now → Returns P (m (with_net w n)))
      → Returns P (remote m w)
  unfolding remote
  remote-Returns m w h = schedule-Returns w.net.outcomes m w h

later :
    (ds : List ℕ) (w : World) → (w.net.now ≤ (pass_time ds w).net.now) × SameBase w (pass_time ds w)
unfolding pass_time
later [] w = (omega arith, record { chain = refl; store = refl; memory = refl })
later (d ∷ ds) w = (omega arith, record { chain = refl; store = refl; memory = refl })

-- The clock does not run back.
pub clock-Returns :
    (w : World) → Returns (λ t u. (w.net.now ≤ t) × (u.net.now ≡ t) × SameBase w u) (clock w)
unfolding clock
clock-Returns w = ((later w.net.elapses w).0, refl, (later w.net.elapses w).1)

pub Ends-Returns :
    {A : Type 0} (P : A → World → Type 0) (E : World → Type 0) (r : Result A × World)
    → Ends P E r
    → Returns P r
Ends-Returns P E (ok a, u) h = h
Ends-Returns P E (err e, u) h = tt

-- A remote write of the store that answers was made once, on the store as it stood.
pub store-Returns :
    (f : Store → Store) (w : World)
    → Returns
        (λ _ u. (u.store ≡ f w.store) × (u.chain ≡ w.chain) × (u.memory ≡ w.memory))
        (remote (set_store f) w)
unfolding set_store
store-Returns f w = remote-Returns _ (set_store f) w (λ n e. (refl, refl, refl))

-- The clock always answers.
pub clock_value :
    (w : World)
    → (t : ℕ) × (clock w ≡ (ok t, (clock w).1)) × (w.net.now ≤ t) × SameBase w (clock w).1
unfolding clock
clock_value w = (_, refl, (later w.net.elapses w).0, (later w.net.elapses w).1)

pub Returns-any : {A : Type 0} (r : Result A × World) → Returns (λ _ _. Unit) r
Returns-any (ok a, w) = tt
Returns-any (err e, w) = tt

-- A step that is what it is.
pub self-Returns : {A : Type 0} (r : Result A × World) → Returns (λ a u. r ≡ (ok a, u)) r
self-Returns (ok a, w) = refl
self-Returns (err e, w) = tt

-- A step of which only the frame matters.
pub Within-Returns :
    {A : Type 0} (F : Frame) (m : Action World A)
    → Within F m
    → (w : World) → Returns (λ _ u. F.Rel w u) (m w)
Within-Returns {A} F m q w = go (m w) (q.holds w)
  where
    go : (r : Result A × World) → F.Rel w r.1 → Returns (λ _ u. F.Rel w u) r
    go (ok a, u) h = h
    go (err e, u) h = tt

pub Returns-both :
    {A : Type 0} (P Q : A → World → Type 0) (r : Result A × World)
    → Returns P r
    → Returns Q r
    → Returns (λ a u. P a u × Q a u) r
Returns-both P Q (ok a, u) p q = (p, q)
Returns-both P Q (err e, u) p q = tt

-- The status that a route gives to an error is no result.
pub respond-Returns :
    {A : Type 0} (P : A → World → Type 0) (m : Action World A) (w : World)
    → Returns P (m w)
    → Returns P (respond m w)
respond-Returns P m w h = catch-Returns P m (λ e. raise (internal e)) w h (λ e v. tt)

pub respond-Ends :
    {A : Type 0} (P : A → World → Type 0) (E : World → Type 0) (m : Action World A) (w : World)
    → Ends P E (m w)
    → Ends P E (respond m w)
respond-Ends {A} P E m w h = go (m w) h
  where
    go : (r : Result A × World) → Ends P E r → Ends P E (respond (λ (_ : World). r) w)
    go (ok a, u) k = k
    go (err e, u) k = k

-- A first step that sends no transaction.
pub Quiet-Returns :
    {A B : Type 0} (P : A → World → Type 0) (m : Action World B) (f : B → Action World A)
    (w : World)
    → Quiet m
    → ((b : B) (u : World) → u.chain ≡ w.chain → Returns P (f b u))
    → Returns P ((m >>= f) w)
Quiet-Returns P m f w q k =
    bind-Returns P (λ _ u. u.chain ≡ w.chain) (m w) f (Within-Returns no_transaction m q w) k
