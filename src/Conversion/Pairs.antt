-- ===== src/Conversion/Pairs.antt =====
-- Which conversions are allowed.
use mathlib.Core.Option
use tende.Base.{
  Text, codes, false, or_else, refl, text_eq, to_upper, true, ◌||◌, ◌≡◌, Bool, Error, [], not,
  not-false, raise_if, subst,
}
use tende.World.{World}
use tende.World.Queries.{read-Returns}
use tende.World.Frames.{ReadOnly, SameBase, SameBase-trans, within, unchanged}
use tende.World.Returns.{
  Returns, Returns-mono, bind-Returns, raise_if-Returns, Within-Returns, Returns-any, if-Returns,
}
use tende.Currency.{zar, treasury_corridor_for_fiat, spend_currency_for_country}
use tende.Conversion.{
  is_usd_code, has_wallet, home_fiat_for_wallet, refuse_fiats, require_corridor,
  assert_allowed_conversion, is_empty, invalid_pair,
}
use tende.Base.Rows.{find}

-- The currency of the country in which the consumer of the wallet is registered; South Africa's where there
-- is none.
abbrev pub home_currency : Text → World → Text
home_currency wallet w =
    let country =
      or_else (Option.map (λ c. c.country_code) (find (has_wallet wallet) w.store.consumers))
        (codes "ZA") in
    or_else
      (Option.map (λ c. c.currency_code)
        (find (λ c. text_eq c.country_code (to_upper country)) w.store.countries))
      zar

home-Returns :
    (wallet : Text) (w : World)
    → Returns
        (λ cur u. (cur ≡ home_currency wallet w) × SameBase w u)
        (home_fiat_for_wallet wallet w)
unfolding home_fiat_for_wallet spend_currency_for_country
home-Returns wallet w =
    let P : Text → World → Type 0 = λ cur u. (cur ≡ home_currency wallet w) × SameBase w u in
    bind-Returns P (λ row u. (row ≡ find (has_wallet wallet) w.store.consumers) × SameBase w u) _ _
      (read-Returns (λ v. find (has_wallet wallet) v.store.consumers) w (λ n. refl))
      λ row u (er, same).
        bind-Returns P (λ rows v. (rows ≡ u.store.countries) × SameBase u v) _ _
          (read-Returns (λ v. v.store.countries) u (λ n. refl))
          λ rows v (es, same_v). (rw (er, es, same.store) refl, SameBase-trans w u v same same_v)

-- One side is USD, the other a currency at home in the wallet's country, or ZAR.
abbrev pub AtHome : Text → Text → World → Type 0
AtHome leg wallet w = (text_eq leg zar || text_eq leg (home_currency wallet w)) ≡ true

pub data Allowed (wallet : Text) (w : World) (from to : Text) : Type 0 where
  to_usd :
      is_usd_code from ≡ false
      → is_usd_code to ≡ true
      → AtHome from wallet w
      → Allowed wallet w from to
  from_usd :
      is_usd_code from ≡ true
      → is_usd_code to ≡ false
      → AtHome to wallet w
      → Allowed wallet w from to

corridor-ReadOnly : (fiat : Text) → ReadOnly (treasury_corridor_for_fiat fiat)
unfolding treasury_corridor_for_fiat
corridor-ReadOnly fiat = search within depth 20

raised :
    (c : Bool) (e : Error) (v : World) → Returns (λ _ x. (c ≡ false) × (x ≡ v)) (raise_if c e v)
raised true e v = tt
raised false e v = (refl, refl)

require_corridor-Returns :
    (local leg : Text) (u : World)
    → Returns
        (λ _ v. ((text_eq leg zar || text_eq leg local) ≡ true) × SameBase u v)
        (require_corridor local leg u)
unfolding require_corridor
require_corridor-Returns local leg u =
    let P : Unit {0} → World → Type 0 =
      λ _ v. ((text_eq leg zar || text_eq leg local) ≡ true) × SameBase u v in
    bind-Returns P (λ _ v. SameBase u v) (treasury_corridor_for_fiat leg u) _
      (Within-Returns unchanged _ (corridor-ReadOnly leg) u)
      λ corridor v same. raise_if-Returns P (is_empty (or_else corridor [])) invalid_pair v _ λ _.
        Returns-mono P (λ _ x. (not (text_eq leg zar || text_eq leg local) ≡ false) × (x ≡ v))
          (raise_if (not (text_eq leg zar || text_eq leg local)) invalid_pair v)
          (λ _ x (allowed, e). (not-false _ allowed, rw e same))
          (raised (not (text_eq leg zar || text_eq leg local)) invalid_pair v)

refused : (from to : Text) (u : World) → Returns (λ _ _. ⊥) (refuse_fiats from to u)
unfolding refuse_fiats
refused from to u =
    let P : Unit {0} → World → Type 0 = λ _ _. ⊥ in
    bind-Returns P (λ _ _. Unit) (treasury_corridor_for_fiat from u) _ (Returns-any _)
      λ a v _.
        bind-Returns P (λ _ _. Unit) (treasury_corridor_for_fiat to v) _ (Returns-any _) λ b x _. tt

-- A conversion that is allowed has USD on one side, and on the other ZAR or the currency of the country in
-- which the wallet's consumer is registered; asking changes nothing.
pub assert_allowed_conversion-Returns :
    (wallet from_raw to_raw : Text) (w : World)
    → Returns
        (λ _ u. Allowed wallet w (to_upper from_raw) (to_upper to_raw) × SameBase w u)
        (assert_allowed_conversion wallet from_raw to_raw w)
unfolding assert_allowed_conversion
assert_allowed_conversion-Returns wallet from_raw to_raw w =
    let from = to_upper from_raw in
    let to = to_upper to_raw in
    let P : Unit {0} → World → Type 0 = λ _ u. Allowed wallet w from to × SameBase w u in
    bind-Returns P (λ cur u. (cur ≡ home_currency wallet w) × SameBase w u)
      (home_fiat_for_wallet wallet w) _ (home-Returns wallet w)
      λ local u (el, same).
        if-Returns P (is_usd_code from) _ _ u
          (λ uf.
            if-Returns P (is_usd_code to) _ _ u (λ ut. tt)
              (λ ut.
                Returns-mono P (λ _ v. ((text_eq to zar || text_eq to local) ≡ true) × SameBase u v)
                  (require_corridor local to u)
                  (λ _ v (home, same_v). (
                    from_usd uf ut (subst (λ c. (text_eq to zar || text_eq to c) ≡ true) el home),
                    SameBase-trans w u v same same_v,
                  ))
                  (require_corridor-Returns local to u)))
          (λ uf.
            if-Returns P (is_usd_code to) _ _ u
              (λ ut.
                Returns-mono P
                  (λ _ v. ((text_eq from zar || text_eq from local) ≡ true) × SameBase u v)
                  (require_corridor local from u)
                  (λ _ v (home, same_v). (
                    to_usd uf ut (subst (λ c. (text_eq from zar || text_eq from c) ≡ true) el home),
                    SameBase-trans w u v same same_v,
                  ))
                  (require_corridor-Returns local from u))
              (λ ut.
                Returns-mono P (λ _ _. ⊥) (refuse_fiats from to u) (λ _ _ h. absurd h)
                  (refused from to u)))
