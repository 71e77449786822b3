-- ===== src/Treasury/Conserve.antt =====
-- Value is neither made nor lost by a handler that moves a claim by a debit and a credit, with steps
-- before and after that send no transaction; a handler that fails has made none.
use tende.Base.{
  Action, Bool-cases, Result, Text, arith, err, inl, inr, ok, resume, subst, text_eq, text_eq_iff,
  ◌>>=◌, ◌≡◌, ◌≤◌, to_upper, ℕ, ◌∙◌, ◌⊎◌,
}
use tende.World.{World}
use tende.Env.{Env}
use tende.Treasury.{vault_admin_credit, vault_admin_debit}
use tende.Treasury.Moves.{
  Debited, Credited, Untouched, vault_admin_debit-Ends, vault_admin_credit-Ends,
}
use tende.World.Rules.{bind-Ends_weaken, Elsewhere-trans, Ends, ledger, Elsewhere}
use native.Mathlib.Nat.{le_refl}
use tende.World.Frames.{Frame, Within, Quiet}

-- In every currency the recorded assets are what they were, or no more than they were.
abbrev pub Conserved : World → World → Type 0
Conserved w w' = (c : Text) → ledger c w' ≡ ledger c w

abbrev pub CreatesNone : World → World → Type 0
CreatesNone w w' = (c : Text) → ledger c w' ≤ ledger c w

-- A result conserves value, and an error has created none.
abbrev pub Conserves : {A : Type 0} → World → Result A × World → Type 0
Conserves w r = Ends (λ _ w'. Conserved w w') (λ w'. CreatesNone w w') r

every_currency :
    (cur : Text) (w w' : World)
    → ledger cur w' ≤ ledger cur w
    → Elsewhere cur w w'
    → CreatesNone w w'
every_currency cur w w' h other c = elim (Bool-cases (text_eq cur c)) [
  | inl e ↦ subst (λ x. ledger x w' ≤ ledger x w) ((text_eq_iff cur c).0 e) h
  | inr ne ↦ omega (arith, other.others c (λ e. cc (ne, (text_eq_iff cur c).1 e)))
]

every_currency_eq :
    (cur : Text) (w w' : World) → ledger cur w' ≡ ledger cur w → Elsewhere cur w w' → Conserved w w'
every_currency_eq cur w w' h other c = elim (Bool-cases (text_eq cur c)) [
  | inl e ↦ subst (λ x. ledger x w' ≡ ledger x w) ((text_eq_iff cur c).0 e) h
  | inr ne ↦ other.others c (λ e. cc (ne, (text_eq_iff cur c).1 e))
]

module _ {A : Type 0} (w : World) where
  quiet_result : (r : Result A × World) → Conserved w r.1 → Conserves w r
  quiet_result (ok a, w') h = h
  quiet_result (err e, w') h = λ c. omega (arith, h c)

  pub Quiet-Conserves :
      (m : Action World A) → Quiet m → (u : World) → Conserved w u → Conserves w (m u)
  Quiet-Conserves m q u h = quiet_result (m u) (λ c. rw (q.holds u) (h c))

  -- A first step that sends nothing.
  pub Quiet-then :
      {B : Type 0} (m : Action World B) (f : B → Action World A)
      → Quiet m
      → ((b : B) (u : World) → Conserved w u → Conserves w (f b u))
      → (u : World) → Conserved w u
      → Conserves w ((m >>= f) u)
  Quiet-then m f q k u h = go (m u) (λ c. rw (q.holds u) (h c))
    where
      go : (r : Result _ × World) → Conserved w r.1 → Conserves w (resume r f)
      go (ok b, u') g = k b u' g
      go (err e, u') g = λ c. omega (arith, g c)

-- What is left to do once the debit is made: the credit, and then nothing on the chain.
module _ {A : Type 0} (env : Env) (target : Text) (amount : ℕ) (currency : Text) (w : World) where
  credit_then :
      (k : ℕ → Action World A)
      → ((t : ℕ) → Quiet (k t))
      → (u : World) → Debited (to_upper currency) amount w u
      → Conserves w ((vault_admin_credit env target amount currency >>= k) u)
  credit_then k q u (less, other) =
      bind-Ends_weaken _ _ (λ _ v. Credited (to_upper currency) amount u v)
        (λ v. Untouched (to_upper currency) u v ⊎ Credited (to_upper currency) amount u v)
        (vault_admin_credit env target amount currency u) k
        (vault_admin_credit-Ends env target amount currency u)
        (λ v h.
          every_currency (to_upper currency) w v (short v h)
            (Elsewhere-trans (to_upper currency) w u v other (same v h)))
        λ t v (more, rest). Quiet-Conserves w (k t) (q t) v (
          every_currency_eq (to_upper currency) w v (omega arith)
            (Elsewhere-trans (to_upper currency) w u v other rest))
    where
      short :
          (v : World)
          → Untouched (to_upper currency) u v ⊎ Credited (to_upper currency) amount u v
          → ledger (to_upper currency) v ≤ ledger (to_upper currency) w
      short v (inl h) = omega arith
      short v (inr h) = omega arith

      same :
          (v : World)
          → Untouched (to_upper currency) u v ⊎ Credited (to_upper currency) amount u v
          → Elsewhere (to_upper currency) u v
      same v (inl h) = h.1
      same v (inr h) = h.1

  -- A debit, a credit of the same amount, and a rest that sends no transaction.
  pub debit_credit_then :
      (source : Text) (k : ℕ → ℕ → Action World A)
      → ((d t : ℕ) → Quiet (k d t))
      → Conserves w (
          (do
            d ← vault_admin_debit env source amount currency
            t ← vault_admin_credit env target amount currency
            k d t)
            w)
  debit_credit_then source k q =
      bind-Ends_weaken _ _ (λ _ u. Debited (to_upper currency) amount w u)
        (λ u. Untouched (to_upper currency) w u ⊎ Debited (to_upper currency) amount w u)
        (vault_admin_debit env source amount currency w) _
        (vault_admin_debit-Ends env source amount currency w) (λ v h. failed v h)
        λ d u h. credit_then (k d) (q d) u h
    where
      failed :
          (v : World)
          → Untouched (to_upper currency) w v ⊎ Debited (to_upper currency) amount w v
          → CreatesNone w v
      failed v (inl h) = every_currency (to_upper currency) w v (omega arith) h.1
      failed v (inr h) = every_currency (to_upper currency) w v (omega arith) h.1

-- The same from a world whose ledger is that of an earlier one.
pub Conserves-from :
    {A : Type 0} (w u : World) (r : Result A × World)
    → Conserved w u
    → Conserves u r
    → Conserves w r
Conserves-from w u (ok a, v) h k = λ c. k c ∙ h c
Conserves-from w u (err e, v) h k = λ c. omega (arith, k c, h c)

pub Conserves-CreatesNone :
    {A : Type 0} (w : World) (r : Result A × World) → Conserves w r → CreatesNone w r.1
Conserves-CreatesNone w (ok a, u) h = λ c. omega (arith, h c)
Conserves-CreatesNone w (err e, u) h = h

pub CreatesNone-trans : (u v w : World) → CreatesNone u v → CreatesNone v w → CreatesNone u w
CreatesNone-trans u v w p q c = omega (arith, p c, q c)

abbrev pub no_creation : Frame
no_creation = record {
  Rel = CreatesNone;
  same = λ w c. le_refl _;
  join = CreatesNone-trans;
  network = λ w n h c. le_refl _;
}

pub Conserves-Within :
    {A : Type 0} (m : Action World A) → ((w : World) → Conserves w (m w)) → Within no_creation m
Conserves-Within m h = record { holds = λ w. Conserves-CreatesNone w (m w) (h w) }
