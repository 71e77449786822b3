-- ===== src/Withdrawal/Prepared.antt =====
-- The amount, the fee and the row of prepareWithdrawal of server/src/withdrawalService.ts.
use tende.Base.{
  ℕ, Text, [], catch, inl, inr, leb_ℤ, pos, pure, ◌++◌, ◌+◌, ◌<◌, ◌∷◌, ◌≡◌, ◌≤◌, arith, negsuc,
  pos_part, refl, ℤ, trim, Option, http, none, ok, or_raise, raise_if, some, ◌>>=◌, ◌>>◌,
}
use tende.Schema.{PendingWithdrawal, RevenueConfig}
use tende.World.{World, remote, set_store, set_memory}
use tende.World.Frames.{within}
use tende.World.Returns.{Returns, raise_if-Returns, Within-Returns}
use tende.Env.{Env}
use tende.Revenue.{Fee, calc_withdrawal_fee_units, get_revenue_config}
use tende.Revenue.Fees.{IsFee, calc_withdrawal_fee_units_lem}
use tende.Withdrawal.Prepare.{
  Request, Prepared, parse_amount, keep, row_of, pending_ttl_ms, drop_pending,
}
use tende.Withdrawal.Kept.{is_expired}
use tende.Withdrawal.Steps.{list_kept, set_store-list_kept}

pub parse_amount-Returns :
    (env : Env) (amount : Text) (w : World)
    → Returns
        (λ n u. (env.parse_units amount 6 ≡ some (pos n)) × (0 < n) × (u ≡ w))
        (parse_amount env amount w)
unfolding parse_amount
parse_amount-Returns env amount w = go (env.parse_units amount 6)
  where
    go :
        (o : Option ℤ)
        → Returns
            (λ n u. (o ≡ some (pos n)) × (0 < n) × (u ≡ w))
            ((do
              gross ← or_raise o (http 400 "Invalid amount")
              raise_if (leb_ℤ gross (pos 0)) (http 400 "Amount must be positive")
              pure (pos_part gross))
              w)
    go none = tt
    go (some (negsuc n)) =
        raise_if-Returns _ (leb_ℤ (negsuc n) (pos 0)) _ w _ λ h. absurd (ground arith)
    go (some (pos n)) =
        raise_if-Returns _ (leb_ℤ (pos n) (pos 0)) _ w _ λ h. (refl, ground arith, refl)

pub calc_withdrawal_fee_units-Returns :
    (gross fee_bps : ℕ) (w : World)
    → 0 < gross
    → Returns
        (λ f u. (IsFee gross fee_bps f × (0 < f.net_units)) × (u ≡ w))
        (calc_withdrawal_fee_units gross fee_bps w)
calc_withdrawal_fee_units-Returns gross fee_bps w h =
    elim (calc_withdrawal_fee_units_lem gross fee_bps w h) [
      | inl (f, e, is_fee, net) ↦ rw e ((is_fee, net), refl)
      | inr (e, whole) ↦ rw e tt
    ]

pub keep-Returns :
    (p : PendingWithdrawal) (w : World)
    → Returns
        (λ _ u. (u.memory.pending ≡ w.memory.pending ++ p ∷ []) × (w.net.now ≤ u.net.now))
        (keep p w)
unfolding keep set_memory
keep-Returns p w =
    Within-Returns list_kept
      (catch (remote (set_store (λ s. record s { withdrawals = s.withdrawals ++ row_of p ∷ [] })))
        (λ _. pure tt))
      (search (within, set_store-list_kept) depth 10)
      (record w { memory = record w.memory { pending = w.memory.pending ++ p ∷ [] } })

-- The rate of the fee is the one that the settings give, asked for on the database and the cache of the
-- start, at a later time.
abbrev pub Configured : World → ℕ → Type 0
Configured w fee_bps =
    (a : World) × (b : World) × (revenue : RevenueConfig) × (a.store ≡ w.store)
    × (a.memory.revenue ≡ w.memory.revenue)
    × (w.net.now ≤ a.net.now)
    × (get_revenue_config a ≡ (ok revenue, b))
    × (fee_bps ≡ revenue.withdrawal_fee_bps)

-- The rows after a preparation: those that had not expired at a time of it, and then the new one.
abbrev pub Kept : World → PendingWithdrawal → World → Type 0
Kept w row u =
    (swept : ℕ) × (w.net.now ≤ swept)
    × (swept ≤ u.net.now)
    × (u.memory.pending ≡ drop_pending (is_expired swept) w.memory.pending ++ row ∷ [])

-- The row that a preparation kept, and the answer that it gave.
pub record Fixed (env : Env) (q : Request) (w : World) (r : Prepared) (u : World) : Type 0 where
  pub row : PendingWithdrawal
  pub stored : Kept w row u
  pub id : r.withdrawal_id ≡ row.withdrawal_id
  pub challenge : r.challenge ≡ row.challenge
  pub owner : (row.consumer_id ≡ q.consumer_id) × (row.from_wallet ≡ q.from_wallet)
  pub destination : (env.get_address (trim q.to) ≡ some row.to_address) × (r.to ≡ row.to_address)
  pub parsed : env.parse_units q.amount 6 ≡ some (pos row.gross_units)
  pub gross : (r.gross ≡ row.gross_units) × (0 < row.gross_units)
  pub fee : r.fee ≡ row.fee_units
  pub net : (r.net ≡ row.net_units) × (0 < row.net_units)
  pub split :
      IsFee row.gross_units row.fee_bps
        (record { fee_units = row.fee_units; net_units = row.net_units })
  pub rate : (r.fee_bps ≡ row.fee_bps) × Configured w row.fee_bps
  pub expiry :
      (made : ℕ) × (w.net.now ≤ made) × (made ≤ u.net.now) × (row.expiry ≡ made + pending_ttl_ms)

-- What the steps before the check of the reserves have found, at `v`.
pub record Checked (env : Env) (q : Request) (gross : ℕ) (f : Fee) (fee_bps : ℕ) (w v : World)
    : Type 0 where
  pub parsed : env.parse_units q.amount 6 ≡ some (pos gross)
  pub positive : 0 < gross
  pub split : IsFee gross fee_bps f
  pub net : 0 < f.net_units
  pub rate : Configured w fee_bps
  pub since : ℕ
  pub started : w.net.now ≤ since
  pub passed : since ≤ v.net.now
  pub left : v.memory.pending ≡ drop_pending (is_expired since) w.memory.pending
