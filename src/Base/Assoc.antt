-- ===== src/Base/Assoc.antt =====
-- A mapping keyed by text, as an association list, and the sum of a mapping into numbers.
use mathlib.Core.Path.{◌≡◌, refl}
use mathlib.Core.List.{List, [], ◌∷◌}
use mathlib.Core.Option.{Option, none, some}
use Prim.Native.Nat.{ℕ, ◌+◌, ◌≤◌}
use native.Mathlib.Omega.{arith}
use tende.Base.Tests.{if◌then◌else◌, or_else}
use tende.Base.Texts.{Text, text_eq, text_eq_iff}

abbrev pub Map {ℓ} : Type ℓ → Type ℓ
Map V = List (Text × V)

module _ {ℓ} {V : Type ℓ} where
  unfoldable pub lookup : Text → Map V → Option V
  lookup k [] = none
  lookup k ((j, v) ∷ m) = if text_eq j k then some v else lookup k m

  unfoldable pub insert : Text → V → Map V → Map V
  insert k v [] = (k, v) ∷ []
  insert k v ((j, w) ∷ m) = if text_eq j k then (k, v) ∷ m else (j, w) ∷ insert k v m

  unfoldable pub erase : Text → Map V → Map V
  erase k [] = []
  erase k ((j, w) ∷ m) = let rest = erase k m in if text_eq j k then rest else (j, w) ∷ rest

  pub lookup-insert :
      (k j : Text) (v : V) (m : Map V)
      → lookup j (insert k v m) ≡ (if text_eq k j then some v else lookup j m)
  unfolding lookup insert
  lookup-insert k j v [] = refl
  lookup-insert k j v ((i, w) ∷ m) =
      ground (arith, text_eq_iff k j, text_eq_iff i k, text_eq_iff i j, lookup-insert k j v m)

  pub lookup-erase :
      (k j : Text) (m : Map V) → lookup j (erase k m) ≡ (if text_eq k j then none else lookup j m)
  unfolding lookup erase
  lookup-erase k j [] = ground arith
  lookup-erase k j ((i, w) ∷ m) =
      ground (arith, text_eq_iff k j, text_eq_iff i k, text_eq_iff i j, lookup-erase k j m)

-- The number stored under a key; Solidity mappings read zero where nothing was written.
abbrev pub at : Text → Map ℕ → ℕ
at k m = or_else (lookup k m) 0

unfoldable pub sum : Map ℕ → ℕ
sum [] = 0
sum ((k, v) ∷ m) = v + sum m

pub sum-insert : (k : Text) (v : ℕ) (m : Map ℕ) → sum (insert k v m) + at k m ≡ sum m + v
unfolding sum insert lookup
sum-insert k v [] = omega arith
sum-insert k v ((j, w) ∷ m) = ground (arith, sum-insert k v m)

pub at-le-sum : (k : Text) (m : Map ℕ) → at k m ≤ sum m
unfolding sum lookup
at-le-sum k [] = omega arith
at-le-sum k ((j, w) ∷ m) = ground (arith, at-le-sum k m)
