-- ===== src/World/Queries.antt =====
-- Queries of the chain and the database, and what a transaction leaves alone.
use tende.Base.{Action, gets, refl, ◌≡◌, Result, err, inl, inr, ok, ◌⊎◌}
use native.Mathlib.Nat.{le_refl}
use tende.Vault.{Vault}
use tende.World.{World, Net, remote, transact, on_vault, set_store, Store}
use tende.World.Rules.{Ends, remote-Ends, with_net}
use tende.World.Returns.{Returns, Ends-Returns}
use tende.World.Frames.{SameBase, store_kept, KeepsStore, bind-Within, within}

-- What a query that does not depend on the network answers.
module _ {A : Type 0} (f : World → A) (w : World)
    (steady : (n : Net) → f (with_net w n) ≡ f w) where
  pub read-Ends : Ends (λ a u. (a ≡ f w) × SameBase w u) (λ u. SameBase w u) (remote (gets f) w)
  read-Ends =
      remote-Ends _ _ (gets f) w
        (λ n. (steady n, record { chain = refl; store = refl; memory = refl }))
        (λ n. record { chain = refl; store = refl; memory = refl }) (λ a u h. h.1)

  pub read-Returns : Returns (λ a u. (a ≡ f w) × SameBase w u) (remote (gets f) w)
  read-Returns =
      Ends-Returns (λ a u. (a ≡ f w) × SameBase w u) (λ u. SameBase w u) (remote (gets f) w)
        read-Ends

pub on_vault-KeepsStore : {A : Type 0} (m : Action Vault A) → KeepsStore (on_vault m)
unfolding on_vault
on_vault-KeepsStore m = record { holds = λ w. (refl, le_refl _) }

pub transact-KeepsStore : (m : Action Vault (Unit {0})) → KeepsStore (transact m)
unfolding transact
transact-KeepsStore m =
    bind-Within store_kept (on_vault m) _ (on_vault-KeepsStore m)
      (λ _. record { holds = λ w. (refl, le_refl _) })

pub ruleset keeps_store = (within, on_vault-KeepsStore, transact-KeepsStore)

-- A write of the database is made once, or never and then an error is seen.
pub store-Ends :
    (f : Store → Store) (w : World)
    → Ends
        (λ _ u. (u.store ≡ f w.store) × (u.chain ≡ w.chain) × (u.memory ≡ w.memory))
        (λ u.
          ((u.store ≡ w.store) ⊎ (u.store ≡ f w.store))
          × (u.chain ≡ w.chain)
          × (u.memory ≡ w.memory))
        (remote (set_store f) w)
unfolding set_store
store-Ends f w =
    remote-Ends _ _ (set_store f) w (λ n. (refl, refl, refl)) (λ n. (inl refl, refl, refl))
      (λ a u (s, c, m). (inr s, c, m))

-- However a step ends, its world has the property.
abbrev pub Leaves : {A : Type 0} → (World → Type 0) → Result A × World → Type 0
Leaves Q r = Ends (λ _ u. Q u) Q r

pub Leaves-world : {A : Type 0} (Q : World → Type 0) (r : Result A × World) → Leaves Q r → Q r.1
Leaves-world Q (ok a, u) h = h
Leaves-world Q (err e, u) h = h

pub world-Leaves : {A : Type 0} (Q : World → Type 0) (r : Result A × World) → Q r.1 → Leaves Q r
world-Leaves Q (ok a, u) h = h
world-Leaves Q (err e, u) h = h
