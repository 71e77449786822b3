-- ===== src/Tests/Services.antt =====
-- Escrow claims, sending limits, fees and the calendar.
use tende.Base.{
  Text, arith, codes, err, ok, refl, subst, sym, text_eq, thrown, to_lower, to_upper, ◌*◌, ◌+◌, ◌<◌,
  ◌>>◌, ◌≡◌, ◌⊎◌, [], ◌∷◌,
}
use tende.Schema.{PendingClaim}
use tende.World.{World, remote, schedule, clock, pass_time, set_store, transact, on_vault}
use tende.World.Returns.{Returns, Fails, IsOk}
use tende.Vault.{
  convert_to_assets, convert_to_shares, checked, admin_debit, admin_credit, credit_assets,
  debit_assets, pool, set_pool,
}
use tende.Treasury.{vault_admin_debit, vault_admin_credit}
use tende.Treasury.Conserve.{Conserves, CreatesNone}
use tende.Escrow.{
  redeem_claim, redeemable, release, get_claim_by_secret, escrow_address, normalize_phone,
  reclaim_expired_claims,
}
use tende.Escrow.Release.{redeem_claim-Conserves, reclaim_expired_claims-CreatesNone}
use tende.Escrow.Redeem.{Opens, settled, redeem_claim-Returns, redeem_claim_once, Paid}
use tende.Kyc.{assert_kyc_send_allowed}
use tende.Kyc.Answers.{Answered, assert_kyc_send_allowed-Returns}
use tende.Revenue.{
  Fee, calc_withdrawal_fee_units, get_revenue_config, invalidate_revenue_config_cache, read_config,
}
use tende.Revenue.Fees.{IsFee, calc_withdrawal_fee_units_lem}
use tende.Revenue.Cache.{Answers, get_revenue_config-Answers, invalidate-get}
use tende.Currency.{zar}
use tende.Schema.{double}
use tende.Fx.{get_rate}
use tende.Fx.Sources.{Source, get_rate-Source}
use tende.Tests.Setting.{env, world, alice}
use tende.Base.Assoc.{insert, lookup}
use tende.Base.Rows.{find, update_where}

abbrev phone : Text
phone = codes "2-7"

redeemed :
    (redeem_claim env (codes "s") alice phone world).0
    ≡ ok (record { release_tx = 1; amount = 40; currency = zar })
unfolding redeem_claim redeemable get_claim_by_secret find remote schedule clock pass_time set_store
    release escrow_address normalize_phone vault_admin_debit vault_admin_credit admin_debit
    admin_credit credit_assets debit_assets convert_to_assets convert_to_shares checked pool
    set_pool transact on_vault text_eq to_lower to_upper lookup insert update_where
redeemed = refl

redeem_claim-Returns_example :
    Returns
      (λ r u.
        (c : PendingClaim) × Opens env (codes "s") phone world.net.now world.store.claims c
        × (r.amount ≡ c.amount)
        × (r.currency ≡ c.currency)
        × (u.store.claims ≡ settled env (codes "s") alice r.release_tx world.store.claims)
        × Paid env (codes "s") alice c.amount c.currency world.chain.vault u.chain.vault)
      (redeem_claim env (codes "s") alice phone world)
redeem_claim-Returns_example = redeem_claim-Returns env (codes "s") alice phone world

redeem_claim_once_example :
    Fails
      (redeem_claim env (codes "s") alice phone (redeem_claim env (codes "s") alice phone world).1)
redeem_claim_once_example =
    redeem_claim_once env (codes "s") alice phone alice phone world
      (redeem_claim env (codes "s") alice phone world).1
      (subst (λ r. IsOk (r, (redeem_claim env (codes "s") alice phone world).1)) (sym redeemed) tt)
      refl

redeem_claim-Conserves_example : Conserves world (redeem_claim env (codes "s") alice phone world)
redeem_claim-Conserves_example = redeem_claim-Conserves env (codes "s") alice phone world

-- 2000 has passed.
abbrev late : World
late = record world { net = record world.net { now = 3000 } }

reclaim_expired_claims-CreatesNone_example : CreatesNone late (reclaim_expired_claims env late).1
reclaim_expired_claims-CreatesNone_example = reclaim_expired_claims-CreatesNone env late

assert_kyc_send_allowed-Returns_example :
    Returns
      (λ c v. Answered env alice 400 zar world (codes "a") c v)
      (assert_kyc_send_allowed env (codes "a") alice 400 zar world)
assert_kyc_send_allowed-Returns_example =
    assert_kyc_send_allowed-Returns env alice 400 zar world (codes "a")

-- 1001 units at 150 basis points cost 16, rounded up from 15.015.
calc_withdrawal_fee_units_lem_example :
    ((f : Fee) × (calc_withdrawal_fee_units 1001 150 world ≡ (ok f, world))
      × IsFee 1001 150 f
      × (0 < f.net_units))
    ⊎ ((calc_withdrawal_fee_units 1001 150 world
          ≡ (err (thrown "Withdrawal fee would consume the entire amount"), world))
        × (1001 * 10000 < 1001 * 150 + 10000))
calc_withdrawal_fee_units_lem_example = calc_withdrawal_fee_units_lem 1001 150 world (omega arith)

get_revenue_config-Answers_example : Answers world (get_revenue_config world)
get_revenue_config-Answers_example = get_revenue_config-Answers world

invalidate-get_example :
    ((do invalidate_revenue_config_cache; get_revenue_config) world).0
    ≡ ok (read_config world.store.app_config)
invalidate-get_example = invalidate-get world refl

-- A rate of 18 that the admin has set.
abbrev overridden_world : World
overridden_world = record world {
  store = record world.store {
    fx_overrides = record { from_currency = codes "USD"; to_currency = zar; rate = double 18 } ∷ [];
  };
}

get_rate-Source_example :
    Returns
      (λ q v. Source env (to_upper (codes "usd")) (to_upper zar) overridden_world q.rate)
      (get_rate env (codes "usd") zar overridden_world)
get_rate-Source_example = get_rate-Source env (codes "usd") zar overridden_world
