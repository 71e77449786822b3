-- ===== src/Escrow.antt =====
-- server/src/escrowService.ts: value held for a recipient who is not yet onboarded, from the claim's
-- creation to its redemption or its return to the sender. The secret that `createClaim` draws and
-- the hash of a secret are the environment's; a claim's time to live is seven days.
pub mod Release
pub mod Redeem
use tende.Base.{
  ℕ, Action, Bool, Error, List, Option, Text, [], any, catch, false, gets, is_digit, ltb, none, not,
  or_raise, pure, raise_if, select, some, text_eq, thrown, to_lower, to_upper, true, ◌&&◌, ◌*◌,
  ◌++◌, ◌+◌, ◌==◌, ◌>>=◌, ◌>>◌, ◌||◌, ◌∷◌,
}
use tende.Schema.{PendingClaim, ClaimStatus}
use tende.World.{World, remote, clock, set_store, fresh_id}
use tende.Env.{Env, is_empty}
use tende.Treasury.{vault_admin_credit, vault_admin_debit}
use tende.Base.Rows.{find, update_where}

abbrev pub claim_ttl_ms : ℕ
claim_ttl_ms = 7 * 24 * 60 * 60 * 1000

-- `/[^\d+]/g` removed
abbrev is_phone_char : ℕ → Bool
is_phone_char c = is_digit c || c == b'+'

unfoldable pub normalize_phone : Text → Text
normalize_phone p = select is_phone_char p

abbrev is_pending : PendingClaim → Bool
is_pending c = elim c.status [ ClaimStatus.pending ↦ true | _ ↦ false ]

-- The error of a claim that is not pending names its status.
abbrev already : ClaimStatus → Error
already ClaimStatus.pending = thrown "Claim already pending"
already ClaimStatus.claimed = thrown "Claim already claimed"
already ClaimStatus.reclaimed = thrown "Claim already reclaimed"

abbrev set_claimed : Text → ℕ → PendingClaim → PendingClaim
set_claimed wallet tx c = record c {
  status = ClaimStatus.claimed;
  claimed_by = some wallet;
  release_tx = some tx;
}

abbrev set_reclaimed : ℕ → PendingClaim → PendingClaim
set_reclaimed tx c = record c { status = ClaimStatus.reclaimed; release_tx = some tx }

pub record Redeemed : Type 0 where
  pub release_tx : ℕ
  pub amount : ℕ
  pub currency : Text

module _ (env : Env) where
  unfoldable pub escrow_address : Action World Text
  escrow_address = do
    raise_if (is_empty env.config.escrow_address) (thrown "No escrow address configured")
    pure env.config.escrow_address

  -- The secret is returned here only; its hash is stored, and hashes are unique in the table.
  unfoldable pub create_claim : Text → Text → Text → ℕ → Text → Text → Action World (Text × ℕ)
  create_claim secret sender phone amount currency escrow_tx = do
    now ← clock
    let expires_at = now + claim_ttl_ms
    remote (do
      rows ← gets (λ w. w.store.claims)
      raise_if (any (λ c. text_eq c.secret_hash (env.hash secret)) rows) (thrown "duplicate key")
      i ← fresh_id
      set_store (λ s. record s {
        claims =
            s.claims
            ++ record {
              id = i;
              secret_hash = env.hash secret;
              sender_wallet = to_lower sender;
              recipient_phone = normalize_phone phone;
              amount = amount;
              currency = to_upper currency;
              status = ClaimStatus.pending;
              escrow_tx = escrow_tx;
              release_tx = none;
              claimed_by = none;
              expires_at = expires_at;
            }
              ∷ [];
      }))
    pure (secret, expires_at)

  unfoldable pub get_claim_by_secret : Text → Action World (Option PendingClaim)
  get_claim_by_secret secret =
      remote (gets (λ w. find (λ c. text_eq c.secret_hash (env.hash secret)) w.store.claims))

  -- The checks of a redemption, up to the release.
  unfoldable pub redeemable : Text → Text → Action World PendingClaim
  redeemable secret phone = do
    found ← get_claim_by_secret secret
    claim ← or_raise found (thrown "Claim not found")
    raise_if (not (is_pending claim)) (already claim.status)
    now ← clock
    raise_if (ltb claim.expires_at now) (thrown "Claim has expired")
    raise_if (not (text_eq (normalize_phone phone) claim.recipient_phone))
        (thrown "Phone number does not match this claim")
    pure claim

  -- The custodial release and its record.
  unfoldable pub release : Text → Text → PendingClaim → Action World Redeemed
  release secret recipient claim = do
    escrow ← escrow_address
    debit_tx ← vault_admin_debit env escrow claim.amount claim.currency
    release_tx ← vault_admin_credit env recipient claim.amount claim.currency
    remote (
        set_store (λ s. record s {
          claims =
              update_where (λ c. text_eq c.secret_hash (env.hash secret) && is_pending c)
                (set_claimed (to_lower recipient) release_tx) s.claims;
        }))
    pure (record { release_tx = release_tx; amount = claim.amount; currency = claim.currency })

  unfoldable pub redeem_claim : Text → Text → Text → Action World Redeemed
  redeem_claim secret recipient phone = do
    claim ← redeemable secret phone
    release secret recipient claim

  -- One round of the sweep's loop, whose failure is logged and not counted.
  unfoldable pub reclaim : PendingClaim → Action World ℕ
  reclaim c = do
    escrow ← escrow_address
    debit_tx ← vault_admin_debit env escrow c.amount c.currency
    tx ← vault_admin_credit env c.sender_wallet c.amount c.currency
    remote (
        set_store (λ s. record s {
          claims = update_where (λ d. d.id == c.id && is_pending d) (set_reclaimed tx) s.claims;
        }))
    pure 1

  unfoldable pub reclaim_all : List PendingClaim → ℕ → Action World ℕ
  reclaim_all [] reclaimed = pure reclaimed
  reclaim_all (c ∷ cs) reclaimed = do
    n ← catch (reclaim c) (λ _. pure 0)
    reclaim_all cs (reclaimed + n)

  -- `NOW()` is the database's clock.
  unfoldable pub reclaim_expired_claims : Action World ℕ
  reclaim_expired_claims = do
    rows ← remote (do
      now ← clock
      gets (λ w. select (λ c. is_pending c && ltb c.expires_at now) w.store.claims))
    reclaim_all rows 0
