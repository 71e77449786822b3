-- ===== src/Passkey/Replay.antt =====
-- A challenge is good for one answer.
use tende.Base.{
  ℕ, Bool, Option, Text, false, inl, none, refl, some, text_eq_refl, true, ◌<◌, ◌∙◌, ◌≡◌, ◌≤◌, ◌⊎◌,
  Bool-cases, any, arith, inr, ltb, not, text_eq, ◌||◌, codes, not-false, raise_if, text_eq_iff,
  ◌%◌, ◌++◌, ◌==◌, ap,
}
use tende.World.{World, clock, set_memory}
use tende.World.Frames.{SameBase}
use tende.World.Returns.{
  or_raise_value, Returns, Fails, IsOk, returned, Returns-mono, bind-Returns, raise_if-Returns,
  or_raise-Returns, clock-Returns,
}
use tende.Env.{Env, ClientData, is_empty}
use tende.Passkey.{
  consume_challenge, consume_found, delete_challenge, verify_client_data, verify_assertion,
  Assertion, invalid_client_data, invalid_challenge,
}
use tende.Base.Assoc.{Map, erase, lookup, lookup-erase}

-- What taking a challenge found.
abbrev pub Taken : Text → World → World → Bool → Type 0
Taken c w u true =
    (expiry : ℕ) × (lookup c w.memory.challenges ≡ some expiry)
    × (w.net.now ≤ u.net.now)
    × (u.net.now ≤ expiry)
Taken c w u false =
    (lookup c w.memory.challenges ≡ none)
    ⊎ ((expiry : ℕ) × (lookup c w.memory.challenges ≡ some expiry) × (expiry < u.net.now))

gone : (c : Text) (m : Map ℕ) → lookup c (erase c m) ≡ none
gone c m = lookup-erase c c m ∙ rw (text_eq_refl c) refl

pub consume_found-Returns :
    (c : Text) (o : Option ℕ) (w : World)
    → lookup c w.memory.challenges ≡ o
    → Returns (λ b u. Taken c w u b × (lookup c u.memory.challenges ≡ none)) (consume_found c o w)
unfolding consume_found delete_challenge set_memory
consume_found-Returns c none w e = (inl e, gone c w.memory.challenges)
consume_found-Returns c (some expiry) w e =
    let P : Bool → World → Type 0 = λ b u. Taken c w u b × (lookup c u.memory.challenges ≡ none) in
    bind-Returns P (λ t u. (w.net.now ≤ t) × (u.net.now ≡ t) × SameBase w u) (clock w) _
      (clock-Returns w)
      λ t u (since, at_t, same). elim (Bool-cases (ltb expiry t)) [
        | inl late ↦ rw late (inr (expiry, e, ground arith), gone c u.memory.challenges)
        | inr fine ↦ rw fine ((expiry, e, ground arith, ground arith), gone c u.memory.challenges)
      ]

-- A challenge that is taken, by a check that succeeds, was held and had not expired; none is held
-- afterwards, whatever the check found.
pub consume_challenge-Returns :
    (c : Text) (w : World)
    → Returns (λ b u. Taken c w u b × (lookup c u.memory.challenges ≡ none)) (consume_challenge c w)
unfolding consume_challenge
consume_challenge-Returns c w = consume_found-Returns c (lookup c w.memory.challenges) w refl

module _ (env : Env) where
  -- What accepted client data contains.
  pub record Accepted (client_data expected : Text) (w u : World) : Type 0 where
    pub content : ClientData
    pub parsed : env.parse_client_data client_data ≡ some content
    pub typed : content.kind ≡ expected
    pub origin : any (text_eq content.origin) env.config.origins ≡ true
    pub held : Taken content.challenge w u true
    pub spent : lookup content.challenge u.memory.challenges ≡ none

  accepted :
      (client_data expected : Text) (w : World) (content : ClientData)
      → env.parse_client_data client_data ≡ some content
      → content.kind ≡ expected
      → any (text_eq content.origin) env.config.origins ≡ true
      → (b : Bool) (u : World) → Taken content.challenge w u b
      → lookup content.challenge u.memory.challenges ≡ none
      → Returns (λ _ v. Accepted client_data expected w v) (raise_if (not b) invalid_challenge u)
  accepted client_data expected w content parsed typed origin true u taken spent = record {
    content = content;
    parsed = parsed;
    typed = typed;
    origin = origin;
    held = taken;
    spent = spent;
  }
  accepted client_data expected w content parsed typed origin false u taken spent = tt

  -- Client data that is accepted has the expected type, comes from an allowed origin, and answers a
  -- challenge that was held, had not expired, and is held no more.
  pub verify_client_data-Returns :
      (client_data expected : Text) (w : World)
      → Returns
          (λ _ u. Accepted client_data expected w u)
          (verify_client_data env client_data expected w)
  unfolding verify_client_data
  verify_client_data-Returns client_data expected w =
      or_raise-Returns _ (env.parse_client_data client_data) invalid_client_data w _
        λ content parsed. raise_if-Returns _ (not (text_eq content.kind expected)) _ w _ λ typed.
          raise_if-Returns _
            (is_empty content.origin || not (any (text_eq content.origin) env.config.origins)) _ w _
            λ origin. raise_if-Returns _ (is_empty content.challenge) _ w _ λ given.
              bind-Returns _
                (λ b u.
                  Taken content.challenge w u b
                  × (lookup content.challenge u.memory.challenges ≡ none))
                (consume_challenge content.challenge w) _
                (consume_challenge-Returns content.challenge w)
                λ b u (taken, spent).
                  accepted client_data expected w content parsed
                    ((text_eq_iff content.kind expected).0 (not-false _ typed)) (ground arith) b u
                    taken spent

  pub record Verified (a : Assertion) (sign_count : ℕ) (w u : World) : Type 0 where
    pub client : Accepted a.client_data (codes "webauthn.get") w u
    pub relying_party :
        (env.parse_authenticator_data a.authenticator_data).rp_id_hash ≡ env.hash env.config.rp_id
    pub present : ((env.parse_authenticator_data a.authenticator_data).flags % 2 == 0) ≡ false
    pub signed :
        env.verify_signature a.pub_key_x a.pub_key_y
          (a.authenticator_data ++ env.hash a.client_data)
          a.signature
        ≡ some true
    pub counted : (env.parse_authenticator_data a.authenticator_data).sign_count ≡ some sign_count

  -- An assertion that is verified has accepted client data of a login, names the relying party, has the
  -- user present and carries a signature, under the given key, of its data with the hash of the client
  -- data; its counter is what is returned.
  pub verify_assertion-Returns :
      (a : Assertion) (w : World) → Returns (λ n u. Verified a n w u) (verify_assertion env a w)
  unfolding verify_assertion
  verify_assertion-Returns a w =
      let P : ℕ → World → Type 0 = λ n u. Verified a n w u in
      let auth = env.parse_authenticator_data a.authenticator_data in
      bind-Returns P (λ _ u. Accepted a.client_data (codes "webauthn.get") w u)
        (verify_client_data env a.client_data (codes "webauthn.get") w) _
        (verify_client_data-Returns a.client_data (codes "webauthn.get") w)
        λ _ u client.
          raise_if-Returns P (not (text_eq auth.rp_id_hash (env.hash env.config.rp_id))) _ u _
            λ party. raise_if-Returns P (auth.flags % 2 == 0) _ u _ λ present.
              or_raise-Returns P
                (env.verify_signature a.pub_key_x a.pub_key_y
                  (a.authenticator_data ++ env.hash a.client_data) a.signature)
                _ u _
                λ verified checked. raise_if-Returns P (not verified) _ u _ λ valid.
                  or_raise_value P auth.sign_count _ u λ n counted. record {
                    client = client;
                    relying_party = (text_eq_iff _ _).0 (not-false _ party);
                    present = present;
                    signed = checked ∙ ap some (not-false verified valid);
                    counted = counted;
                  }

  -- Once an assertion has been verified, no assertion of the same challenge is verified on the
  -- challenges that it left, that is until the challenge is registered again.
  pub verify_assertion_once :
      (a b : Assertion) (c d : ClientData) (w u : World)
      → env.parse_client_data a.client_data ≡ some c
      → env.parse_client_data b.client_data ≡ some d
      → c.challenge ≡ d.challenge
      → IsOk (verify_assertion env a w)
      → u.memory.challenges ≡ (verify_assertion env a w).1.memory.challenges
      → Fails (verify_assertion env b u)
  verify_assertion_once a b c d w u ea eb same done left =
      let (n, en, first) = returned _ _ (verify_assertion-Returns a w) done in
      Returns-mono _ _ (verify_assertion env b u)
        (λ m v second.
          let (expiry, held, since, before) = second.client.held in
          let c_is : first.client.content ≡ c = (let p = first.client.parsed in cc) in
          let d_is : second.client.content ≡ d = (let q = second.client.parsed in cc) in
          let spent = first.client.spent in cc)
        (verify_assertion-Returns b u)
