-- ===== src/World/Rules.antt =====
-- How a handler ends, step by step: rules for the network's failures, for transactions, and for a
-- sequence of steps.
use tende.Base.{
  ℕ, Action, Bool, Error, List, Result, Text, err, false, ok, raise_if, refl, resume, true, ◌∙◌,
  ◌≡◌, ◌≢◌, [], arith, inl, inr, ◌∷◌, ◌⊎◌, Option, none, or_raise, some, if◌then◌else◌,
}
use tende.Vault.{Vault}
use tende.Vault.Conservation.{assets}
use tende.World.{
  World, Net, Outcome, delivered, dropped, unconfirmed, remote, schedule, deliver, transact,
}
use tende.Base.Atomic.{Atomic}

-- `P` holds of a result and its world, `E` of the world that an error leaves.
abbrev pub Ends : {A : Type 0} → (A → World → Type 0) → (World → Type 0) → Result A × World → Type 0
Ends P E (ok a, w') = P a w'
Ends P E (err _, w') = E w'

-- The recorded assets of a currency.
abbrev pub ledger : Text → World → ℕ
ledger cur w = assets cur w.chain.vault

-- What a transaction in one currency leaves alone.
pub record Elsewhere (cur : Text) (w w' : World) : Type 0 where
  pub others : (c : Text) → cur ≢ c → ledger c w' ≡ ledger c w
  pub held : w'.chain.vault.holdings ≡ w.chain.vault.holdings
  pub stored : w'.store ≡ w.store
  pub kept : w'.memory ≡ w.memory

pub Elsewhere-refl : (cur : Text) (w : World) → Elsewhere cur w w
Elsewhere-refl cur w = record { others = λ c ne. refl; held = refl; stored = refl; kept = refl }

pub Elsewhere-trans :
    (cur : Text) (u v w : World) → Elsewhere cur u v → Elsewhere cur v w → Elsewhere cur u w
Elsewhere-trans cur u v w p q = record {
  others = λ c ne. q.others c ne ∙ p.others c ne;
  held = q.held ∙ p.held;
  stored = q.stored ∙ p.stored;
  kept = q.kept ∙ p.kept;
}

abbrev pub with_net : World → Net → World
with_net w n = record w { net = n }

pub Ends-mono :
    {A : Type 0} (P P' : A → World → Type 0) (E E' : World → Type 0) (r : Result A × World)
    → ((a : A) (w : World) → P a w → P' a w)
    → ((w : World) → E w → E' w)
    → Ends P E r
    → Ends P' E' r
Ends-mono P P' E E' (ok a, w') f g h = f a w' h
Ends-mono P P' E E' (err e, w') f g h = g w' h

module _ {A : Type 0} (P : A → World → Type 0) (E : World → Type 0) where
  pub bind-Ends :
      {B : Type 0} (Q : B → World → Type 0) (r : Result B × World) (f : B → Action World A)
      → Ends Q E r
      → ((b : B) (w' : World) → Q b w' → Ends P E (f b w'))
      → Ends P E (resume r f)
  bind-Ends Q (ok b, w') f h k = k b w' h
  bind-Ends Q (err e, w') f h k = h

  -- The same where the first step's failure is told more exactly.
  pub bind-Ends_weaken :
      {B : Type 0} (Q : B → World → Type 0) (F : World → Type 0) (r : Result B × World)
      (f : B → Action World A)
      → Ends Q F r
      → ((w' : World) → F w' → E w')
      → ((b : B) (w' : World) → Q b w' → Ends P E (f b w'))
      → Ends P E (resume r f)
  bind-Ends_weaken Q F (ok b, w') f h g k = k b w' h
  bind-Ends_weaken Q F (err e, w') f h g k = g w' h

  pub raise_if-Ends :
      (c : Bool) (e : Error) (w : World) (f : Unit {0} → Action World A)
      → E w
      → (c ≡ false → Ends P E (f tt w))
      → Ends P E (resume (raise_if c e w) f)
  raise_if-Ends true e w f h k = h
  raise_if-Ends false e w f h k = k refl

  pub or_raise-Ends :
      {B : Type 0} (o : Option B) (e : Error) (w : World) (f : B → Action World A)
      → E w
      → ((b : B) → o ≡ some b → Ends P E (f b w))
      → Ends P E (resume (or_raise o e w) f)
  or_raise-Ends none e w f h k = h
  or_raise-Ends (some b) e w f h k = k b refl

  pub if-Ends :
      (c : Bool) (m n : Action World A) (w : World)
      → (c ≡ true → Ends P E (m w))
      → (c ≡ false → Ends P E (n w))
      → Ends P E ((if c then m else n) w)
  if-Ends true m n w f g = f refl
  if-Ends false m n w f g = g refl

  deliver-Ends :
      (o : Outcome) (m : Action World A) (w : World)
      → Ends P E (m w)
      → E w
      → ((a : A) (w' : World) → P a w' → E w')
      → Ends P E (deliver o m w)
  unfolding deliver
  deliver-Ends delivered m w h lost late = h
  deliver-Ends dropped m w h lost late = lost
  deliver-Ends unconfirmed m w h lost late = answer_lost (m w) h
    where
      answer_lost : (r : Result A × World) → Ends P E r → E r.1
      answer_lost (ok a, w') p = late a w' p
      answer_lost (err e, w') p = p

  schedule-Ends :
      (os : List Outcome) (m : Action World A) (w : World)
      → ((n : Net) → Ends P E (m (with_net w n)))
      → ((n : Net) → E (with_net w n))
      → ((a : A) (w' : World) → P a w' → E w')
      → Ends P E (schedule os m w)
  unfolding schedule
  schedule-Ends [] m w h lost late = h w.net
  schedule-Ends (o ∷ os) m w h lost late =
      let n : Net = record w.net { outcomes = os } in
      deliver-Ends o m (with_net w n) (h n) (lost n) late

  -- A remote call ends as the call itself does on some network, or as an error before or after it.
  pub remote-Ends :
      (m : Action World A) (w : World)
      → ((n : Net) → Ends P E (m (with_net w n)))
      → ((n : Net) → E (with_net w n))
      → ((a : A) (w' : World) → P a w' → E w')
      → Ends P E (remote m w)
  unfolding remote
  remote-Ends m w h lost late = schedule-Ends w.net.outcomes m w h lost late

-- A transaction ends as the vault's call does, with the rest of the world as it was.
pub transact-Ends :
    (m : Action Vault (Unit {0})) (Q : Vault → Type 0) (w : World)
    → Atomic w.chain.vault (λ _ v'. Q v') (m w.chain.vault)
    → Ends
        (λ _ w'. Q w'.chain.vault × (w'.store ≡ w.store) × (w'.memory ≡ w.memory))
        (λ w'. w' ≡ w)
        (transact m w)
unfolding transact
transact-Ends m Q w h = ground arith

-- The same for a remote transaction, of which the caller may never hear.
pub remote-transact-Ends :
    (m : Action Vault (Unit {0})) (Q : Vault → Type 0) (w : World)
    → Atomic w.chain.vault (λ _ v'. Q v') (m w.chain.vault)
    → Ends
        (λ _ w'. Q w'.chain.vault × (w'.store ≡ w.store) × (w'.memory ≡ w.memory))
        (λ w'.
          ((w'.chain.vault ≡ w.chain.vault) ⊎ Q w'.chain.vault)
          × (w'.store ≡ w.store)
          × (w'.memory ≡ w.memory))
        (remote (transact m) w)
remote-transact-Ends m Q w h =
    remote-Ends _ _ (transact m) w
      (λ n.
        Ends-mono _ _ _ _ (transact m (with_net w n)) (λ a w' p. p)
          (λ w' e. rw e (inl refl, refl, refl)) (transact-Ends m Q (with_net w n) h))
      (λ n. (inl refl, refl, refl)) (λ a w' p. (inr p.0, p.1, p.2))
