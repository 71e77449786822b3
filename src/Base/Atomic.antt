-- ===== src/Base/Atomic.antt =====
-- Rules for handlers: a step that only reads, and a handler that fails without a trace.
use mathlib.Core.Path.{◌≡◌, refl, subst, sym, ap}
use mathlib.Core.Logic.{◌⊎◌, inl, inr}
use mathlib.Core.Bool.{Bool, true, false}
use tende.Base.Tests.{if◌then◌else◌}
use tende.Base.Actions.{Action, Result, ok, err, Error, raise_if, resume, ◌>>=◌}

-- A call either fails and leaves the state alone, or ends in a result and a state of which `P`
-- holds.
abbrev pub Atomic : {S A : Type 0} → S → (A → S → Type 0) → Result A × S → Type 0
Atomic s P (ok a, s') = P a s'
Atomic s P (err _, s') = s' ≡ s

-- A step that changes nothing, with what its value tells.
abbrev pub Reads : {S A : Type 0} → S → (A → Type 0) → Action S A → Type 0
Reads {S} {A} s Q m = ((a : A) × (m s ≡ (ok a, s)) × Q a) ⊎ ((e : Error) × (m s ≡ (err e, s)))

module _ {S : Type 0} (s : S) where
  pub bind-Atomic :
      {A B : Type 0} {Q : A → Type 0} (P : B → S → Type 0) (m : Action S A) (f : A → Action S B)
      → Reads s Q m
      → ((a : A) → Q a → Atomic s P (f a s))
      → Atomic s P ((m >>= f) s)
  bind-Atomic P m f (inl (a, e, q)) k = subst (λ r. Atomic s P (resume r f)) (sym e) (k a q)
  bind-Atomic P m f (inr (x, e)) k = subst (λ r. Atomic s P (resume r f)) (sym e) refl

  pub bind-Reads :
      {A B : Type 0} {Q : A → Type 0} (R : B → Type 0) (m : Action S A) (f : A → Action S B)
      → Reads s Q m
      → ((a : A) → Q a → Reads s R (f a))
      → Reads s R (m >>= f)
  bind-Reads R m f (inl (a, e, q)) k =
      subst
        (λ r.
          ((b : _) × (resume r f ≡ (ok b, s)) × R b) ⊎ ((x : Error) × (resume r f ≡ (err x, s))))
        (sym e) (k a q)
  bind-Reads R m f (inr (x, e)) k = inr (x, ap (λ r. resume r f) e)

  pub raise_if-Reads : (c : Bool) (e : Error) → Reads s (λ _. c ≡ false) (raise_if c e)
  raise_if-Reads true e = inr (e, refl)
  raise_if-Reads false e = inl (tt, refl, refl)

  pub if-Reads :
      {A : Type 0} {Q : A → Type 0} (c : Bool) (m n : Action S A)
      → (c ≡ true → Reads s Q m)
      → (c ≡ false → Reads s Q n)
      → Reads s Q (if c then m else n)
  if-Reads true m n f g = f refl
  if-Reads false m n f g = g refl

  pub Atomic-mono :
      {A : Type 0} {P Q : A → S → Type 0} (r : Result A × S)
      → ((a : A) (s' : S) → P a s' → Q a s')
      → Atomic s P r
      → Atomic s Q r
  Atomic-mono (ok a, s') h p = h a s' p
  Atomic-mono (err e, s') h p = p
