-- ===== src/AuthNonce.antt =====
-- server/src/authNonce.ts: the message that a wallet signs to prove that it is its owner's. A wallet
-- has one message at a time; random bytes are an argument.
pub mod Proof
use tende.Base.{
  ℕ, Action, Bool, Option, Text, [], codes, false, gets, if◌then◌else◌, ltb, none, not, pure, some,
  text_eq, to_lower, true, ◌++◌, ◌+◌, ◌>>=◌, ◌>>◌, ◌∷◌,
}
use tende.World.{World, clock, set_memory}
use tende.Env.{Env}
use tende.Base.Assoc.{Map, erase, insert, lookup}

abbrev pub nonce_ttl_ms : ℕ
nonce_ttl_ms = 300000

unfoldable pub sweep : ℕ → Map (Text × ℕ) → Map (Text × ℕ)
sweep now [] = []
sweep now ((wallet, entry) ∷ rest) =
    let kept = sweep now rest in if ltb entry.1 now then kept else (wallet, entry) ∷ kept

pub record Issued : Type 0 where
  pub nonce : Text
  pub message : Text
  pub expires_at : ℕ

unfoldable pub message_of : Text → Text → Text
message_of wallet nonce =
    codes "Sign in to iMali\nWallet: " ++ (wallet ++ (codes "\nNonce: " ++ nonce))

unfoldable pub issue_nonce : Text → Text → Action World Issued
issue_nonce random wallet_raw = do
  let wallet = to_lower wallet_raw
  now ← clock
  let message = message_of wallet random
  let expires_at = now + nonce_ttl_ms
  set_memory (λ m. record m { nonces = insert wallet (message, expires_at) (sweep now m.nonces) })
  pure (record { nonce = random; message = message; expires_at = expires_at })

unfoldable pub delete_nonce : Text → Action World (Unit {0})
delete_nonce wallet = set_memory (λ m. record m { nonces = erase wallet m.nonces })

unfoldable pub check_recovered : Text → Option Text → Action World Bool
check_recovered wallet none = pure false
check_recovered wallet (some recovered) =
    if not (text_eq (to_lower recovered) wallet)
    then pure false
    else (do delete_nonce wallet; pure true)

module _ (env : Env) where
  unfoldable pub verify_entry : Text → Text → Option (Text × ℕ) → Action World Bool
  verify_entry wallet signature none = do delete_nonce wallet; pure false
  verify_entry wallet signature (some (message, expires_at)) = do
    now ← clock
    if ltb expires_at now
        then delete_nonce wallet >> pure false
        else do check_recovered wallet (env.recover message signature)

  unfoldable pub verify_and_consume : Text → Text → Action World Bool
  verify_and_consume wallet_raw signature = do
    let wallet = to_lower wallet_raw
    entry ← gets (λ w. lookup wallet w.memory.nonces)
    verify_entry wallet signature entry
