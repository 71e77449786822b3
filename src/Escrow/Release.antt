-- ===== src/Escrow/Release.antt =====
-- The money side of escrow claims: a redemption and the sweep of expired claims move value and make
-- none.
use tende.Base.{Text, refl, List, [], catch, pure, ℕ, ◌+◌, ◌∷◌}
use tende.Schema.{PendingClaim}
use tende.World.{World}
use tende.World.Frames.{Within, pure-Within, bind-Within, catch-Within, within, Quiet, quiet}
use tende.Env.{Env}
use tende.Treasury.Conserve.{
  no_creation, Conserves-Within, CreatesNone, Conserves, Quiet-then, debit_credit_then,
  Conserves-from, CreatesNone,
}
use tende.Escrow.{
  redeemable, release, redeem_claim, escrow_address, get_claim_by_secret, reclaim, reclaim_all,
  reclaim_expired_claims, remote,
}

module _ (env : Env) where
  escrow_address-Quiet : Quiet (escrow_address env)
  unfolding escrow_address
  escrow_address-Quiet = search quiet

  pub redeemable-Quiet : (secret phone : Text) → Quiet (redeemable env secret phone)
  unfolding redeemable get_claim_by_secret
  redeemable-Quiet secret phone = search quiet depth 30

  release-Conserves :
      (secret recipient : Text) (claim : PendingClaim) (w : World)
      → Conserves w (release env secret recipient claim w)
  unfolding release
  release-Conserves secret recipient claim w =
      Quiet-then w (escrow_address env) _ escrow_address-Quiet
        (λ escrow u h. Conserves-from w u _ h (
          debit_credit_then env recipient claim.amount claim.currency u escrow _
            (λ d t. search quiet depth 10)))
        w (λ c. refl)

  -- A redemption that succeeds leaves the recorded assets of every currency as they were, and one
  -- that fails, at whatever step and however the network fails, leaves them no higher.
  pub redeem_claim-Conserves :
      (secret recipient phone : Text) (w : World)
      → Conserves w (redeem_claim env secret recipient phone w)
  unfolding redeem_claim
  redeem_claim-Conserves secret recipient phone w =
      Quiet-then w (redeemable env secret phone) _ (redeemable-Quiet secret phone)
        (λ claim u h. Conserves-from w u _ h (release-Conserves secret recipient claim u)) w
        (λ c. refl)

  reclaim-Conserves : (c : PendingClaim) (w : World) → Conserves w (reclaim env c w)
  unfolding reclaim
  reclaim-Conserves c w =
      Quiet-then w (escrow_address env) _ escrow_address-Quiet
        (λ escrow u h. Conserves-from w u _ h (
          debit_credit_then env c.sender_wallet c.amount c.currency u escrow _
            (λ d t. search quiet depth 10)))
        w (λ k. refl)

  reclaim_all-Within : (cs : List PendingClaim) (n : ℕ) → Within no_creation (reclaim_all env cs n)
  unfolding reclaim_all
  reclaim_all-Within [] n = pure-Within no_creation n
  reclaim_all-Within (c ∷ cs) n =
      bind-Within no_creation (catch (reclaim env c) (λ _. pure 0)) _
        (catch-Within no_creation (reclaim env c) _ (Conserves-Within _ (reclaim-Conserves c))
          (λ e. pure-Within no_creation 0))
        (λ m. reclaim_all-Within cs (n + m))

  -- The sweep of expired claims, whichever of its rounds fail, leaves no more assets recorded than
  -- before.
  pub reclaim_expired_claims-CreatesNone :
      (w : World) → CreatesNone w (reclaim_expired_claims env w).1
  unfolding reclaim_expired_claims
  reclaim_expired_claims-CreatesNone w =
      (bind-Within no_creation (remote _) (λ rows. reclaim_all env rows 0) (search within depth 10)
          (λ rows. reclaim_all-Within rows 0)).holds
        w
