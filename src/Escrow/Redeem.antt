-- ===== src/Escrow/Redeem.antt =====
-- Who can redeem an escrow claim, and how often.
use tende.Base.{
  ℕ, Bool, List, Text, arith, false, gets, ltb, not, refl, some, text_eq, ◌≡◌, ◌≤◌, not-false, sym,
  text_eq_iff, to_lower, ◌&&◌, ◌∙◌, [], ap, ◌∷◌, ◌≢◌, ok, subst, to_upper,
}
use tende.Schema.{PendingClaim, ClaimStatus}
use tende.World.{World, clock}
use tende.World.Frames.{SameBase, SameBase-trans}
use tende.World.Returns.{
  store-Returns, Returns, Fails, IsOk, returned, Returns-mono, bind-Returns, raise_if-Returns,
  or_raise-Returns, remote-Returns, clock-Returns,
}
use tende.Env.{Env, is_empty}
use tende.Escrow.{
  Redeemed, redeemable, release, redeem_claim, get_claim_by_secret, normalize_phone, is_pending,
  already, escrow_address, set_claimed, vault_admin_debit, vault_admin_credit,
}
use tende.Base.Rows.{find, update_where}
use tende.Vault.{Vault, admin_debit, admin_credit}
use tende.Treasury.Calls.{vault_admin_debit-Called, vault_admin_credit-Called}

module _ (env : Env) (secret : Text) where
  abbrev pub has_secret : PendingClaim → Bool
  has_secret c = text_eq c.secret_hash (env.hash secret)

  -- The claim that the secret opens at the time `now`, for the holder of `phone`.
  pub record Opens (phone : Text) (now : ℕ) (rows : List PendingClaim) (c : PendingClaim)
      : Type 0 where
    pub stored : find has_secret rows ≡ some c
    pub open_claim : c.status ≡ ClaimStatus.pending
    pub unexpired : now ≤ c.expires_at
    pub bound : normalize_phone phone ≡ c.recipient_phone

  pending_status : (c : PendingClaim) → not (is_pending c) ≡ false → c.status ≡ ClaimStatus.pending
  pending_status c h = ground arith

  pub redeemable-Returns :
      (phone : Text) (w : World)
      → Returns
          (λ c u. Opens phone w.net.now w.store.claims c × SameBase w u)
          (redeemable env secret phone w)
  unfolding redeemable get_claim_by_secret
  redeemable-Returns phone w =
      let P : PendingClaim → World → Type 0 =
        λ c u. Opens phone w.net.now w.store.claims c × SameBase w u in
      bind-Returns P
        (λ found u.
          (found ≡ find has_secret w.store.claims) × (u.net.now ≡ w.net.now) × SameBase w u)
        _ _
        (remote-Returns _ (gets (λ v. find has_secret v.store.claims)) w
          (λ n e. (refl, e, record { chain = refl; store = refl; memory = refl })))
        λ found u (ef, en, same). or_raise-Returns P found _ u _ λ c ec.
          raise_if-Returns P (not (is_pending c)) (already c.status) u _ λ ep.
            bind-Returns P (λ t v. (w.net.now ≤ t) × SameBase w v) (clock u) _
              (Returns-mono _ _ (clock u)
                (λ t v h. (omega (arith, h.0), SameBase-trans w u v same h.2)) (clock-Returns u))
              λ t v (et, same'). raise_if-Returns P (ltb c.expires_at t) _ v _ λ eu.
                raise_if-Returns P (not (text_eq (normalize_phone phone) c.recipient_phone)) _ v _
                  λ eb. (
                    record {
                      stored = sym ef ∙ ec;
                      open_claim = pending_status c ep;
                      unexpired = ground arith;
                      bound =
                          (text_eq_iff (normalize_phone phone) c.recipient_phone).0
                            (not-false _ eb);
                    },
                    same',
                  )

  -- What a completed release has written.
  abbrev pub settled : Text → ℕ → List PendingClaim → List PendingClaim
  settled recipient tx rows =
      update_where (λ c. has_secret c && is_pending c) (set_claimed (to_lower recipient) tx) rows

  -- The vault debited the escrow, and then credited the recipient, by the same amount of the same currency.
  abbrev pub Paid : Text → ℕ → Text → Vault → Vault → Type 0
  Paid recipient amount currency v v' =
      (between : Vault) × (admin_debit (to_lower env.config.escrow_address) amount
          (to_upper currency) v
        ≡ (ok tt, between))
      × (admin_credit (to_lower recipient) amount (to_upper currency) between ≡ (ok tt, v'))

  pub release-Returns :
      (recipient : Text) (claim : PendingClaim) (w : World)
      → Returns
          (λ r u.
            (r.amount ≡ claim.amount)
            × (r.currency ≡ claim.currency)
            × (u.store.claims ≡ settled recipient r.release_tx w.store.claims)
            × Paid recipient claim.amount claim.currency w.chain.vault u.chain.vault)
          (release env secret recipient claim w)
  unfolding release escrow_address
  release-Returns recipient claim w =
      let P : Redeemed → World → Type 0 = λ r u.
        (r.amount ≡ claim.amount)
        × (r.currency ≡ claim.currency)
        × (u.store.claims ≡ settled recipient r.release_tx w.store.claims)
        × Paid recipient claim.amount claim.currency w.chain.vault u.chain.vault in
      let Q : Text → World → Type 0 =
        λ a u. (a ≡ env.config.escrow_address) × (u.store ≡ w.store) × (u.chain ≡ w.chain) in
      bind-Returns P Q (escrow_address env w) _
        (raise_if-Returns Q (is_empty env.config.escrow_address) _ w _ (λ _. (refl, refl, refl)))
        λ escrow u (configured, stored_u, same_u).
          bind-Returns P _ (vault_admin_debit env escrow claim.amount claim.currency u) _
            (vault_admin_debit-Called env escrow claim.amount claim.currency u)
            λ d v (debited, stored_v, _).
              bind-Returns P _ (vault_admin_credit env recipient claim.amount claim.currency v) _
                (vault_admin_credit-Called env recipient claim.amount claim.currency v)
                λ t x (credited, stored_x, _).
                  bind-Returns P
                    (λ _ y.
                      (y.store ≡ record x.store { claims = settled recipient t x.store.claims })
                      × (y.chain ≡ x.chain)
                      × (y.memory ≡ x.memory))
                    _ _ (store-Returns _ x)
                    λ _ y (stored, same, _). (
                      refl,
                      refl,
                      ap (λ s. s.claims) stored
                          ∙ ap (λ s. settled recipient t s.claims) (stored_x ∙ stored_v ∙ stored_u),
                      (
                        v.chain.vault,
                        rw (← configured, ← same_u) debited,
                        credited ∙ ap (λ c. (ok tt, c.vault)) (sym same),
                      ),
                    )

  -- A redemption that succeeds found a pending claim under the secret, bound to the phone number and
  -- not yet expired, had the vault debit the escrow and then credit the recipient by its amount in its
  -- currency, which is what it reports, and marked it claimed.
  pub redeem_claim-Returns :
      (recipient phone : Text) (w : World)
      → Returns
          (λ r u.
            (c : PendingClaim) × Opens phone w.net.now w.store.claims c
            × (r.amount ≡ c.amount)
            × (r.currency ≡ c.currency)
            × (u.store.claims ≡ settled recipient r.release_tx w.store.claims)
            × Paid recipient c.amount c.currency w.chain.vault u.chain.vault)
          (redeem_claim env secret recipient phone w)
  unfolding redeem_claim
  redeem_claim-Returns recipient phone w =
      bind-Returns _ _ (redeemable env secret phone w) _ (redeemable-Returns phone w)
        λ c u (opened, same).
          Returns-mono _ _ (release env secret recipient c u)
            (λ r v (ea, ec, es, paid). (
              c,
              opened,
              ea,
              ec,
              es ∙ ap (λ s. settled recipient r.release_tx s.claims) same.store,
              subst (λ k. Paid recipient c.amount c.currency k.vault v.chain.vault) same.chain paid,
            ))
            (release-Returns recipient c u)

  -- No claim under the secret is left pending.
  find-settled :
      (recipient : Text) (tx : ℕ) (rows : List PendingClaim) (c : PendingClaim)
      → find has_secret (settled recipient tx rows) ≡ some c
      → c.status ≢ ClaimStatus.pending
  unfolding find update_where
  find-settled recipient tx [] c e = cc
  find-settled recipient tx (r ∷ rows) c e = ground (arith, find-settled recipient tx rows c)

  -- Once a redemption has succeeded, none with the same secret succeeds again on the claims that it
  -- left, whoever asks.
  pub redeem_claim_once :
      (recipient phone recipient' phone' : Text) (w u : World)
      → IsOk (redeem_claim env secret recipient phone w)
      → u.store.claims ≡ (redeem_claim env secret recipient phone w).1.store.claims
      → Fails (redeem_claim env secret recipient' phone' u)
  redeem_claim_once recipient phone recipient' phone' w u done same =
      let (r, er, (c, opened, ea, ec, es, paid)) =
        returned _ _ (redeem_claim-Returns recipient phone w) done in
      Returns-mono _ _ (redeem_claim env secret recipient' phone' u)
        (λ r' v (c', again, x, y, z, paid').
          find-settled recipient r.release_tx w.store.claims c' (rw (← es, ← same) again.stored)
            again.open_claim)
        (redeem_claim-Returns recipient' phone' u)
