-- ===== src/AuthNonce/Proof.antt =====
-- What an accepted signature proves, and for how long a message can be signed.
use tende.Base.{
  ℕ, Bool, Bool-cases, Option, Text, arith, false, inl, inr, ltb, none, refl, some, text_eq,
  text_eq_iff, text_eq_refl, to_lower, true, ◌<◌, ◌∙◌, ◌≡◌, ◌≢◌, ◌≤◌, ◌⊎◌, ok, ◌+◌,
}
use tende.World.{World, clock, set_memory}
use tende.World.Frames.{SameBase}
use tende.World.Returns.{Returns, bind-Returns, clock-Returns}
use tende.Env.{Env}
use tende.AuthNonce.{
  issue_nonce, message_of, delete_nonce, check_recovered, verify_entry, verify_and_consume,
  nonce_ttl_ms,
}
use tende.Base.Assoc.{lookup, lookup-erase, lookup-insert}

abbrev pub Forged : Text → Option Text → Type 0
Forged wallet none = Unit
Forged wallet (some recovered) = to_lower recovered ≢ wallet

module _ (env : Env) (wallet signature : Text) where
  -- The reason of an answer that was given at the time of `u`, from the nonces of `w`.
  abbrev pub Reason : World → World → Bool → Type 0
  Reason w u true =
      (message : Text) × (expiry : ℕ) × (recovered : Text) × (lookup wallet w.memory.nonces
        ≡ some (message, expiry))
      × (u.net.now ≤ expiry)
      × (env.recover message signature ≡ some recovered)
      × (to_lower recovered ≡ wallet)
      × (lookup wallet u.memory.nonces ≡ none)
  Reason w u false =
      (lookup wallet w.memory.nonces ≡ none)
      ⊎ ((message : Text) × (expiry : ℕ) × (lookup wallet w.memory.nonces ≡ some (message, expiry))
          × ((expiry < u.net.now) ⊎ Forged wallet (env.recover message signature)))

  recovered-Returns :
      (message : Text) (expiry : ℕ) (o : Option Text) (w u : World)
      → lookup wallet w.memory.nonces ≡ some (message, expiry)
      → u.net.now ≤ expiry
      → env.recover message signature ≡ o
      → Returns (λ b v. Reason w v b) (check_recovered wallet o u)
  unfolding check_recovered delete_nonce set_memory
  recovered-Returns message expiry none w u held before e =
      inr (message, expiry, held, inr (rw e tt))
  recovered-Returns message expiry (some r) w u held before e =
      elim (Bool-cases (text_eq (to_lower r) wallet)) [
        | inl y ↦ rw y (
          message,
          expiry,
          r,
          held,
          before,
          e,
          (text_eq_iff _ _).0 y,
          lookup-erase wallet wallet u.memory.nonces ∙ rw (text_eq_refl wallet) refl,
        )
        | inr n ↦ rw n (
            inr (
              message,
              expiry,
              held,
              inr (rw e λ y. (let k = (text_eq_iff (to_lower r) wallet).1 y in cc)),
            ))
      ]

  entry-Returns :
      (o : Option (Text × ℕ)) (w : World)
      → lookup wallet w.memory.nonces ≡ o
      → Returns (λ b u. Reason w u b) (verify_entry env wallet signature o w)
  unfolding verify_entry delete_nonce set_memory
  entry-Returns none w e = inl e
  entry-Returns (some (message, expiry)) w e =
      let P : Bool → World → Type 0 = λ b u. Reason w u b in
      bind-Returns P (λ t u. (w.net.now ≤ t) × (u.net.now ≡ t) × SameBase w u) (clock w) _
        (clock-Returns w)
        λ t u (since, at_t, same). elim (Bool-cases (ltb expiry t)) [
          | inl late ↦ rw late (inr (message, expiry, e, inl (ground arith)))
          | inr fine ↦ rw fine (
              recovered-Returns message expiry (env.recover message signature) w u e (ground arith)
                refl)
        ]

-- A signature is accepted only if the wallet has a message that has not expired and the signer that
-- the signature recovers to is the wallet, and its message is then gone; it is refused only if the
-- wallet has no message, or its message has expired, or the signature recovers to none or another.
pub verify_and_consume-Returns :
    (env : Env) (wallet_raw signature : Text) (w : World)
    → Returns
        (λ b u. Reason env (to_lower wallet_raw) signature w u b)
        (verify_and_consume env wallet_raw signature w)
unfolding verify_and_consume
verify_and_consume-Returns env wallet_raw signature w =
    entry-Returns env (to_lower wallet_raw) signature (lookup (to_lower wallet_raw) w.memory.nonces)
      w refl

-- A message that was issued is accepted back, from the wallet that it was issued to, if it is signed
-- by that wallet and comes before five minutes have passed.
pub issue_nonce-verify_and_consume :
    (env : Env) (random wallet_raw signature recovered : Text) (w u : World)
    → u.memory.nonces ≡ (issue_nonce random wallet_raw w).1.memory.nonces
    → env.recover (message_of (to_lower wallet_raw) random) signature ≡ some recovered
    → to_lower recovered ≡ to_lower wallet_raw
    → (clock u).1.net.now ≤ (clock w).1.net.now + nonce_ttl_ms
    → (verify_and_consume env wallet_raw signature u).0 ≡ ok true
unfolding issue_nonce verify_and_consume verify_entry check_recovered set_memory delete_nonce clock
issue_nonce-verify_and_consume env random wallet_raw signature recovered w u held signed own soon =
    let wallet = to_lower wallet_raw in
    let stored : lookup wallet u.memory.nonces
        ≡ some (message_of wallet random, (clock w).1.net.now + nonce_ttl_ms) =
      rw (held, lookup-insert wallet wallet, text_eq_refl wallet) refl in
    let fresh : ltb ((clock w).1.net.now + nonce_ttl_ms) (clock u).1.net.now ≡ false =
      ground arith in
    let same = (text_eq_iff (to_lower recovered) wallet).1 own in
    rw (stored, fresh, signed, same) refl
