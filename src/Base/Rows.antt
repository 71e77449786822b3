-- ===== src/Base/Rows.antt =====
-- A database table as the list of its rows, newest last, with the statements that the program runs.
use mathlib.Core.Bool.{Bool, true}
use mathlib.Core.List.{List, [], ◌∷◌}
use mathlib.Core.List.{Memᴰ}
use mathlib.Core.Option
use mathlib.Core.Option.{Option, none, some}
use mathlib.Core.Path.{subst, ◌≡◌, refl, sym, ◌∙◌}
use native.Mathlib.Omega.{arith}
use tende.Base.Lists.{All}
use mathlib.Core.Logic.{inl, inr}
use tende.Base.Tests.{Bool-cases, if◌then◌else◌}

module _ {ℓ} {A : Type ℓ} where
  -- `SELECT … WHERE p`, first row
  unfoldable pub find : (A → Bool) → List A → Option A
  find p [] = none
  find p (x ∷ xs) = if p x then some x else find p xs

  -- `UPDATE … SET f WHERE p`
  unfoldable pub update_where : (A → Bool) → (A → A) → List A → List A
  update_where p f [] = []
  update_where p f (x ∷ xs) = (if p x then f x else x) ∷ update_where p f xs

  -- `ORDER BY created_at DESC`
  unfoldable pub newest_first : List A → List A → List A
  newest_first shown [] = shown
  newest_first shown (x ∷ xs) = newest_first (x ∷ shown) xs

  -- What is found after an update that keeps the condition of the search.
  pub find-update_where :
      (p q : A → Bool) (f : A → A)
      → ((x : A) → p (f x) ≡ p x)
      → (xs : List A)
      → find p (update_where q f xs) ≡ Option.map (λ x. if q x then f x else x) (find p xs)
  unfolding find update_where
  find-update_where p q f keeps [] = refl
  find-update_where p q f keeps (x ∷ xs) = ground (arith, keeps x, find-update_where p q f keeps xs)

  pub find-holds : (p : A → Bool) (xs : List A) (x : A) → find p xs ≡ some x → p x ≡ true
  unfolding find
  find-holds p [] x e = cc
  find-holds p (y ∷ ys) x e = ground (arith, find-holds p ys x)

  -- What is found after the update is the updated form of what was found before.
  pub find-updated :
      (p : A → Bool) (f : A → A)
      → ((x : A) → p (f x) ≡ p x)
      → (xs : List A) (y : A) → find p (update_where p f xs) ≡ some y
      → (x : A) × (find p xs ≡ some x) × (y ≡ f x)
  find-updated p f keeps xs y e = go (find p xs) refl (sym (find-update_where p p f keeps xs) ∙ e)
    where
      go :
          (o : Option A)
          → find p xs ≡ o
          → Option.map (λ x. if p x then f x else x) o ≡ some y
          → (x : A) × (find p xs ≡ some x) × (y ≡ f x)
      go none eo h = cc
      go (some x) eo h = (x, eo, updated x (find-holds p xs x eo) h)
        where
          updated : (x : A) → p x ≡ true → some (if p x then f x else x) ≡ some y → y ≡ f x
          updated x hold h = ground arith

-- What holds of every row holds of the one that is found.
pub find-All :
    {A : Type 0} (Q : A → Type 0) (p : A → Bool) (xs : List A) (x : A)
    → All Q xs
    → find p xs ≡ some x
    → Q x
unfolding find
find-All Q p [] x all e = cc
find-All Q p (y ∷ ys) x (q, all) e = elim (Bool-cases (p y)) [
  | inl h ↦ let same : y ≡ x = ground arith in subst Q same q
  | inr h ↦ let later : find p ys ≡ some x = ground arith in find-All Q p ys x all later
]

-- The row that is found is one of the rows.
pub find-Mem : {A : Type 0} (p : A → Bool) (xs : List A) (x : A) → find p xs ≡ some x → Memᴰ x xs
unfolding find
find-Mem p [] x e = cc
find-Mem p (y ∷ ys) x e = elim (Bool-cases (p y)) [
  | inl h ↦ Memᴰ.head (ground arith)
  | inr h ↦ let later : find p ys ≡ some x = ground arith in Memᴰ.tail (find-Mem p ys x later)
]
