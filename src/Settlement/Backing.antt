-- ===== src/Settlement/Backing.antt =====
-- A payout in fiat money takes as much from the ledger as from the vault's tokens.
use tende.Base.{
  ℕ, Text, ap, arith, false, ltb, negsuc, pos, refl, subst, text_eq, to_lower, to_upper, ℤ, ◌+◌,
  ◌-◌, ◌∙◌, ◌≡◌, ◌⊎◌, is_hex_address, ltb_ℤ, not, some, sym, to_upper_idem,
}
use tende.Vault.{Vault, pool}
use tende.World.{World, remote, transact}
use tende.World.Rules.{ledger, remote-transact-Ends}
use tende.World.Frames.{no_transaction, Quiet, quiet, remote-Within, gets-Within}
use tende.World.Returns.{
  Returns, Returns-mono, bind-Returns, raise_if-Returns, Ends-Returns, Within-Returns,
  or_raise-Returns,
}
use tende.Env.{Env, is_empty}
use tende.Base.Assoc.{at, sum, sum-insert}
use tende.Base.Atomic.{Atomic}
use tende.Treasury.Reserves.{forced_transfer, sweep_treasury_from_vault}
use tende.Treasury.{
  resolve_treasury_token, treasury_token_balance, no_vault, vault_admin_debit, vault_balance_of,
  as_uint,
}
use tende.Settlement.Pay.{
  pay_fiat, execute_settlement, pay_out, update_request, wallet_of, country_of, set_executed,
}
use tende.Treasury.Moves.{Debited, Untouched, vault_admin_debit-Ends}
use tende.Schema.{SettlementRequestRow}
use tende.Settlement.{decimals_for, fiat, find_merchant}
use tende.Revenue.{get_revenue_config, calc_settlement_fee}
use tende.Vault.Conservation.{assets}
use tende.Treasury.Balances.{vault_balance_of-Quiet}
use tende.Revenue.Frames.{get_revenue_config-Quiet}

-- The vault holds fewer tokens by the amount, and owes what it did.
abbrev pub Releases : ℕ → Vault → Vault → Type 0
Releases amount v v' = (sum v'.holdings + amount ≡ sum v.holdings) × (v'.pools ≡ v.pools)

forced_transfer-Releases :
    (holder token recipient : Text) (amount : ℕ) (v : Vault)
    → text_eq recipient holder ≡ false
    → Atomic v (λ _ v'. Releases amount v v') (forced_transfer holder token recipient amount v)
unfolding forced_transfer
forced_transfer-Releases holder token recipient amount v other =
    ground (arith, sum-insert token (at token v.holdings - amount) v.holdings)

resolve_token-Quiet : (env : Env) (country : Text) → Quiet (resolve_treasury_token env country)
unfolding resolve_treasury_token
resolve_token-Quiet env country = search quiet depth 20

treasury_balance-Quiet : (env : Env) (country : Text) → Quiet (treasury_token_balance env country)
unfolding treasury_token_balance
treasury_balance-Quiet env country = search (quiet, resolve_token-Quiet) depth 20

-- The treasury's address is not the vault's.
abbrev pub Outside : Env → Text → Type 0
Outside env recipient = text_eq (to_lower recipient) (to_lower env.config.vault) ≡ false

module _ (env : Env) (recipient : Text) (amount : ℕ) (country : Text) (w : World)
    (other : Outside env recipient) where
  sweep_treasury_from_vault-Releases :
      Returns
        (λ _ u. Releases amount w.chain.vault u.chain.vault)
        (sweep_treasury_from_vault env recipient amount country w)
  unfolding sweep_treasury_from_vault
  sweep_treasury_from_vault-Releases =
      let P : ℕ → World → Type 0 = λ _ u. Releases amount w.chain.vault u.chain.vault in
      raise_if-Returns P (is_empty env.config.vault) no_vault w _ λ _.
        bind-Returns P (λ _ u. u.chain ≡ w.chain) (resolve_treasury_token env country w) _
          (Within-Returns no_transaction (resolve_treasury_token env country)
            (resolve_token-Quiet env country) w)
          λ token u same. raise_if-Returns P (is_empty token) _ u _ λ given.
            bind-Returns P (λ _ v. v.chain ≡ u.chain) (treasury_token_balance env country u) _
              (Within-Returns no_transaction (treasury_token_balance env country)
                (treasury_balance-Quiet env country) u)
              λ reserve v same_v. raise_if-Returns P (ltb reserve amount) _ v _ λ enough.
                let m =
                  forced_transfer (to_lower env.config.vault) (to_lower token) (to_lower recipient)
                    amount in
                Returns-mono P
                  (λ _ x.
                    Releases amount v.chain.vault x.chain.vault
                    × (x.store ≡ v.store)
                    × (x.memory ≡ v.memory))
                  (remote (transact m) v)
                  (λ _ x h. subst (λ c. Releases amount c.vault x.chain.vault) (same_v ∙ same) h.0)
                  (Ends-Returns
                    (λ _ x.
                      Releases amount v.chain.vault x.chain.vault
                      × (x.store ≡ v.store)
                      × (x.memory ≡ v.memory))
                    (λ x.
                      ((x.chain.vault ≡ v.chain.vault)
                        ⊎ Releases amount v.chain.vault x.chain.vault)
                      × (x.store ≡ v.store)
                      × (x.memory ≡ v.memory))
                    (remote (transact m) v)
                    (remote-transact-Ends m (λ v'. Releases amount v.chain.vault v') v
                      (forced_transfer-Releases (to_lower env.config.vault) (to_lower token)
                        (to_lower recipient) amount v.chain.vault other)))

-- The ledger and the vault's tokens fell by the same amount.
abbrev pub PaidOut : Text → ℕ → World → World → Type 0
PaidOut cur amount w u =
    (ledger cur u + amount ≡ ledger cur w)
    × (sum u.chain.vault.holdings + amount ≡ sum w.chain.vault.holdings)

-- The units that are paid are those that were asked for, and they are not negative.
abbrev pub PaysOut : Text → ℤ → World → World → Type 0
PaysOut cur units w u = (n : ℕ) × (units ≡ pos n) × PaidOut cur n w u

pay_fiat-PaysOut :
    (env : Env) (wallet : Text) (units : ℤ) (currency recipient country : Text) (w : World)
    → Outside env recipient
    → Returns
        (λ _ u. PaysOut (to_upper currency) units w u)
        (pay_fiat env wallet units currency recipient country w)
unfolding pay_fiat as_uint pool
pay_fiat-PaysOut env wallet (negsuc n) currency recipient country w other = tt
pay_fiat-PaysOut env wallet (pos n) currency recipient country w other =
    let cur = to_upper currency in
    let P : ℕ → World → Type 0 = λ _ u. PaysOut cur (pos n) w u in
    bind-Returns P (λ _ u. Debited cur n w u) (vault_admin_debit env wallet n currency w) _
      (Ends-Returns (λ _ u. Debited cur n w u) (λ u. Untouched cur w u ⊎ Debited cur n w u)
        (vault_admin_debit env wallet n currency w)
        (vault_admin_debit-Ends env wallet n currency w))
      λ debit_tx u debited.
        Returns-mono P (λ _ v. Releases n u.chain.vault v.chain.vault)
          (sweep_treasury_from_vault env recipient n country u)
          (λ _ v (held, owed).
            let same : ledger cur v ≡ ledger cur u = rw owed refl in
            let kept : sum u.chain.vault.holdings ≡ sum w.chain.vault.holdings =
              ap sum debited.1.held in
            (n, refl, (omega (arith, debited.0), omega arith)))
          (sweep_treasury_from_vault-Releases env recipient n country u other)

-- Only the chain matters.
paid_from :
    (cur : Text) (units : ℤ) (w x y : World)
    → x.chain ≡ w.chain
    → PaysOut cur units x y
    → PaysOut cur units w y
paid_from cur units w x y same (n, e, h) = (
  n,
  e,
  subst
      (λ c.
        (ledger cur y + n ≡ assets cur c.vault)
        × (sum y.chain.vault.holdings + n ≡ sum c.vault.holdings))
      same h,
)

paid_to :
    (cur : Text) (units : ℤ) (w u v : World)
    → v.chain ≡ u.chain
    → PaysOut cur units w u
    → PaysOut cur units w v
paid_to cur units w u v same (n, e, h) = (
  n,
  e,
  subst
      (λ c.
        (assets cur c.vault + n ≡ ledger cur w)
        × (sum c.vault.holdings + n ≡ sum w.chain.vault.holdings))
      (sym same) h,
)

update_request-Quiet :
    (id : ℕ) (f : SettlementRequestRow → SettlementRequestRow) → Quiet (update_request id f)
unfolding update_request
update_request-Quiet id f = search quiet depth 20

-- Where the treasury is not the vault itself, a payout in fiat money that succeeds has lowered the recorded
-- assets of its currency, and the tokens that the vault holds, both by the request's amount in units.
pub execute_settlement-PaysOut :
    (env : Env) (req : SettlementRequestRow) (w : World)
    → Outside env env.config.treasury_address
    → Returns
        (λ _ u.
          (units : ℤ) × (env.parse_units req.amount (decimals_for (to_upper req.currency))
            ≡ some units)
          × PaysOut (to_upper req.currency) units w u)
        (execute_settlement env req fiat w)
unfolding execute_settlement pay_out text_eq
execute_settlement-PaysOut env req w other =
    let cur = to_upper req.currency in
    let Q : World → Type 0 = λ u.
      (units : ℤ) × (env.parse_units req.amount (decimals_for cur) ≡ some units)
      × PaysOut cur units w u in
    let P : Unit {0} → World → Type 0 = λ _ u. Q u in
    let R : ℕ × ℕ → World → Type 0 = λ _ u. Q u in
    bind-Returns P R (pay_out env req fiat w) _
      (bind-Returns R (λ _ u. u.chain ≡ w.chain) _ _
        (Within-Returns no_transaction _
          (remote-Within no_transaction _
            (gets-Within no_transaction (λ v. find_merchant req.merchant_id v.store.merchants)))
          w)
        λ merchant u same_u. raise_if-Returns R (is_empty (wallet_of merchant)) _ u _ λ _.
          or_raise-Returns R (env.parse_units req.amount (decimals_for cur)) _ u _ λ units parsed.
            bind-Returns R (λ _ v. v.chain ≡ u.chain)
              (vault_balance_of env (wallet_of merchant) cur u) _
              (Within-Returns no_transaction _ (vault_balance_of-Quiet env (wallet_of merchant) cur)
                u)
              λ balance v same_v. raise_if-Returns R (ltb_ℤ (pos balance) units) _ v _ λ _.
                raise_if-Returns R (not (is_hex_address env.config.treasury_address)) _ v _ λ _.
                  bind-Returns R (λ _ x. x.chain ≡ v.chain) (get_revenue_config v) _
                    (Within-Returns no_transaction _ get_revenue_config-Quiet v)
                    λ revenue x same_x.
                      bind-Returns R (λ _ y. PaysOut (to_upper cur) units x y)
                        (pay_fiat env (wallet_of merchant) units cur env.config.treasury_address
                          (country_of merchant) x)
                        _
                        (pay_fiat-PaysOut env (wallet_of merchant) units cur
                          env.config.treasury_address (country_of merchant) x other)
                        λ tx y paid. (
                          units,
                          parsed,
                          subst (λ c. PaysOut c units w y) (to_upper_idem req.currency)
                              (paid_from (to_upper cur) units w x y (same_x ∙ same_v ∙ same_u)
                                paid),
                        ))
      λ paid u (units, parsed, done).
        let f =
          set_executed paid.0 paid.1
            (calc_settlement_fee env.numbers (env.numbers.parse req.amount) paid.1) in
        Returns-mono P (λ _ v. v.chain ≡ u.chain) (update_request req.id f u)
          (λ _ v same. (units, parsed, paid_to cur units w u v same done))
          (Within-Returns no_transaction (update_request req.id f) (update_request-Quiet req.id f)
            u)
