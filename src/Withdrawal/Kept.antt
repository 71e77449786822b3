-- ===== src/Withdrawal/Kept.antt =====
-- The list of prepared withdrawals through a submission.
use tende.Base.{
  ℕ, Action, Bool, List, Text, [], arith, none, refl, ◌==◌, ◌∙◌, ◌∷◌, ◌≡◌, ap, ltb, some, ◌≤◌,
}
use tende.Schema.{PendingWithdrawal, WithdrawalRow}
use tende.Vault.{Vault}
use tende.World.{World, Store, transact, on_vault, clock, set_store, set_memory}
use tende.World.Frames.{bind-Within, Frame, Within, within, SameBase}
use tende.World.Returns.{Returns, bind-Returns, raise_if-Returns, or_raise-Returns, clock-Returns}
use tende.Env.{Env}
use tende.Treasury.{vault_withdraw, vault_admin_debit, vault_admin_credit}
use tende.Kyc.{record_spend_event, known_limit_units}
use tende.Withdrawal.Prepare.{sweep, drop_pending}
use tende.Withdrawal.Submit.{spend_of, expired, find_pending, update_row, take_fee, execute}
use tende.Base.Rows.{find}

-- The list of prepared withdrawals is as it was.
abbrev pub pending_kept : Frame
pending_kept = record {
  Rel = λ w w'. w'.memory.pending ≡ w.memory.pending;
  same = λ w. refl;
  join = λ u v w p q. q ∙ p;
  network = λ w n h. refl;
}

transact-kept : (m : Action Vault (Unit {0})) → Within pending_kept (transact m)
unfolding transact on_vault
transact-kept m =
    bind-Within pending_kept (on_vault m) _ (record { holds = λ w. refl })
      (λ _. record { holds = λ w. refl })

pub set_store-kept : (f : Store → Store) → Within pending_kept (set_store f)
unfolding set_store
set_store-kept f = record { holds = λ w. refl }

ruleset kept = (within, transact-kept, set_store-kept)

update_row-kept :
    (id : ℕ) (f : WithdrawalRow → WithdrawalRow) → Within pending_kept (update_row id f)
unfolding update_row
update_row-kept id f = search kept depth 10

pub execute-kept :
    (env : Env) (row : PendingWithdrawal) (id : ℕ) (token : Text)
    → Within pending_kept (execute env row id token)
unfolding execute spend_of take_fee record_spend_event known_limit_units vault_withdraw
    vault_admin_debit vault_admin_credit
execute-kept env row id token = search (kept, update_row-kept) depth 30

abbrev pub has_id : ℕ → PendingWithdrawal → Bool
has_id id p = p.withdrawal_id == id

-- A withdrawal that is dropped is not found, and none appears by dropping others.
pub find-drop_self :
    (id : ℕ) (rows : List PendingWithdrawal)
    → find (has_id id) (drop_pending (has_id id) rows) ≡ none
unfolding find drop_pending
find-drop_self id [] = refl
find-drop_self id (r ∷ rows) = ground (arith, find-drop_self id rows)

pub find-drop_none :
    (id : ℕ) (p : PendingWithdrawal → Bool) (rows : List PendingWithdrawal)
    → find (has_id id) rows ≡ none
    → find (has_id id) (drop_pending p rows) ≡ none
unfolding find drop_pending
find-drop_none id p [] h = refl
find-drop_none id p (r ∷ rows) h = ground (arith, find-drop_none id p rows)

abbrev pub is_expired : ℕ → PendingWithdrawal → Bool
is_expired now p = ltb p.expiry now

unfoldable pub Swept : World → World → Type 0
Swept w u =
    (t : ℕ) × (w.net.now ≤ t)
    × (u.net.now ≡ t)
    × (u.memory.pending ≡ drop_pending (is_expired t) w.memory.pending)
    × (u.store ≡ w.store)

pub sweep-Returns : (w : World) → Returns (λ _ u. Swept w u) (sweep w)
unfolding sweep set_memory Swept
sweep-Returns w =
    bind-Returns (λ _ u. Swept w u) (λ t u. (w.net.now ≤ t) × (u.net.now ≡ t) × SameBase w u)
      (clock w) _ (clock-Returns w)
      λ t u (since, at_t, same).
        (t, since, at_t, ap (λ m. drop_pending (is_expired t) m.pending) same.memory, same.store)

pub find_pending-Returns :
    (id : ℕ) (w : World)
    → Returns
        (λ row u.
          (find (has_id id) w.memory.pending ≡ some row)
          × (w.net.now ≤ row.expiry)
          × (u.store ≡ w.store))
        (find_pending id w)
unfolding find_pending
find_pending-Returns id w =
    let P : PendingWithdrawal → World → Type 0 = λ row u.
      (find (has_id id) w.memory.pending ≡ some row)
      × (w.net.now ≤ row.expiry)
      × (u.store ≡ w.store) in
    or_raise-Returns P (find (has_id id) w.memory.pending) expired w _ λ row found.
      bind-Returns P (λ t u. (w.net.now ≤ t) × (u.net.now ≡ t) × SameBase w u) (clock w) _
        (clock-Returns w)
        λ t u (since, at_t, same).
          raise_if-Returns P (ltb row.expiry t) expired u _
            λ fresh. (found, ground arith, same.store)
