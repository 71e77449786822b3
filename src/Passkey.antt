-- ===== src/Passkey.antt =====
-- server/src/webauthnService.ts: the challenges that the server has given out, and the checks of what a
-- passkey signs. Base64url texts stand for the bytes that they encode; random bytes are an argument.
pub mod Replay
use tende.Base.{
  ℕ, Action, Bool, Option, Text, [], false, if◌then◌else◌, ltb, none, not, pure, some, ◌+◌, ◌>>=◌,
  ◌>>◌, ◌∷◌, Error, any, codes, gets, or_raise, raise_if, text_eq, thrown, ◌%◌, ◌++◌, ◌==◌, ◌||◌,
}
use tende.World.{World, clock, set_memory}
use tende.Env.{Env, is_empty}
use tende.Base.Assoc.{Map, erase, insert, lookup}

abbrev pub challenge_ttl_ms : ℕ
challenge_ttl_ms = 300000

-- The loop that deletes what has expired.
unfoldable pub sweep : ℕ → Map ℕ → Map ℕ
sweep now [] = []
sweep now ((c, expiry) ∷ rest) =
    let kept = sweep now rest in if ltb expiry now then kept else (c, expiry) ∷ kept

unfoldable pub register_challenge : Text → ℕ → Action World (Unit {0})
register_challenge challenge ttl = do
  now ← clock
  set_memory (λ m. record m { challenges = insert challenge (now + ttl) (sweep now m.challenges) })

-- `newChallenge`, given the random bytes
unfoldable pub new_challenge : Text → Action World Text
new_challenge random = do register_challenge random challenge_ttl_ms; pure random

unfoldable pub delete_challenge : Text → Action World (Unit {0})
delete_challenge challenge =
    set_memory (λ m. record m { challenges = erase challenge m.challenges })

unfoldable pub consume_found : Text → Option ℕ → Action World Bool
consume_found challenge none = do delete_challenge challenge; pure false
consume_found challenge (some expiry) = do
  now ← clock
  delete_challenge challenge
  pure (not (ltb expiry now))

unfoldable pub consume_challenge : Text → Action World Bool
consume_challenge challenge = do
  found ← gets (λ w. lookup challenge w.memory.challenges)
  consume_found challenge found

pub record Assertion : Type 0 where
  pub authenticator_data : Text
  pub client_data : Text
  pub signature : Text
  pub pub_key_x : ℕ
  pub pub_key_y : ℕ

abbrev pub invalid_client_data : Error
invalid_client_data = thrown "Invalid clientDataJSON"

abbrev pub invalid_challenge : Error
invalid_challenge = thrown "Challenge invalid, expired, or replayed"

module _ (env : Env) where
  unfoldable pub verify_client_data : Text → Text → Action World (Unit {0})
  verify_client_data client_data expected_type = do
    data_ ← or_raise (env.parse_client_data client_data) invalid_client_data
    raise_if (not (text_eq data_.kind expected_type)) (thrown "Unexpected clientData type")
    raise_if (is_empty data_.origin || not (any (text_eq data_.origin) env.config.origins))
        (thrown "Origin mismatch")
    raise_if (is_empty data_.challenge) invalid_challenge
    valid ← consume_challenge data_.challenge
    raise_if (not valid) invalid_challenge

  unfoldable pub verify_registration_client_data : Text → Action World (Unit {0})
  verify_registration_client_data client_data =
      verify_client_data client_data (codes "webauthn.create")

  unfoldable pub verify_assertion : Assertion → Action World ℕ
  verify_assertion a = do
    verify_client_data a.client_data (codes "webauthn.get")
    let auth = env.parse_authenticator_data a.authenticator_data
    raise_if (not (text_eq auth.rp_id_hash (env.hash env.config.rp_id)))
        (thrown "rpIdHash mismatch")
    raise_if (auth.flags % 2 == 0) (thrown "User presence flag not set")
    let signed = a.authenticator_data ++ env.hash a.client_data
    verified ←
        or_raise (env.verify_signature a.pub_key_x a.pub_key_y signed a.signature) (thrown "key")
    raise_if (not verified) (thrown "Assertion signature verification failed")
    or_raise auth.sign_count (thrown "RangeError")
