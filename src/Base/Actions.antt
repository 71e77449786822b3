-- ===== src/Base/Actions.antt =====
-- A handler over a state `S`. What was written stays written after a throw, since no handler of
-- the program runs in a database transaction unless it says so.
use Prim.Native.Nat.{ℕ}
use Prim.Native.String.{String}
use mathlib.Core.Bool.{Bool}
use mathlib.Core.Option.{Option, none, some}
use tende.Base.Tests.{if◌then◌else◌}

-- `http` is an error that carries a status and a code (or, with no code, its message);
-- `thrown` is any other.
pub data Error : Type 0 where
  http : ℕ → String → Error
  thrown : String → Error

pub data Result {ℓ} (A : Type ℓ) : Type ℓ where
  ok : A → Result A
  err : Error → Result A

abbrev pub Action : Type 0 → Type 0 → Type 0
Action S A = S → Result A × S

module _ {S A : Type 0} where
  abbrev pub pure : A → Action S A
  pure a s = (ok a, s)

  abbrev pub raise : Error → Action S A
  raise e s = (err e, s)

  abbrev pub gets : (S → A) → Action S A
  gets f s = (ok (f s), s)

  abbrev pub or_raise : Option A → Error → Action S A
  or_raise none e s = (err e, s)
  or_raise (some a) e s = (ok a, s)

  -- `try { m } catch (e) { handler(e) }`
  abbrev pub catch : Action S A → (Error → Action S A) → Action S A
  catch m handler s = let (r, s') = m s in elim r [ ok a ↦ (ok a, s') | err e ↦ handler e s' ]

abbrev pub modify : {S : Type 0} → (S → S) → Action S (Unit {0})
modify f s = (ok tt, f s)

abbrev pub raise_if : {S : Type 0} → Bool → Error → Action S (Unit {0})
raise_if c e s = (if c then err e else ok tt, s)

-- What follows a step, at the step's outcome.
abbrev pub resume : {S A B : Type 0} → Result A × S → (A → Action S B) → Result B × S
resume (ok a, s) f = f a s
resume (err e, s) f = (err e, s)

infixl 5 ◌>>=◌ ◌>>◌
abbrev pub ◌>>=◌ : {S A B : Type 0} → Action S A → (A → Action S B) → Action S B
◌>>=◌ m f s = resume (m s) f

abbrev pub ◌>>◌ : {S B : Type 0} → Action S (Unit {0}) → Action S B → Action S B
m >> k = m >>= λ _. k

-- A route's `catch (err) { res.status(500) … }`, around errors that name no status.
abbrev pub internal : Error → Error
internal (http status s) = http status s
internal (thrown s) = http 500 s

abbrev pub respond : {S A : Type 0} → Action S A → Action S A
respond m = catch m (λ e. raise (internal e))
