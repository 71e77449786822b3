-- ===== src/Fx/Sources.antt =====
-- Where a rate comes from, and which source wins.
use mathlib.Core.Option
use tende.Base.{
  ℕ, Bool-cases, List, Option, Text, arith, inl, inr, ltb, none, refl, some, text_eq, ◌&&◌, ◌<◌,
  ◌≡◌, ◌≤◌, ap, gets, sym, text_eq_iff, to_upper,
}
use tende.Schema.{Number, FxSource, FxOverride, CacheEntry}
use tende.World.Returns.{bind-Returns, clock-Returns, remote-Returns}
use tende.World.Frames.{SameBase}
use tende.World.{clock, remote, World, set_memory}
use tende.World.Returns.{Returns}
use tende.Env.{Env}
use tende.Fx.{
  FxQuote, get_override, quote, get_rate, cache_key, fetch_live, quote_live, quote_cached,
}
use tende.Base.Assoc.{lookup}
use tende.Base.Rows.{find}

abbrev pub override_for : Text → Text → List FxOverride → Option Number
override_for from to rows =
    Option.map (λ o. o.rate)
      (find (λ o. text_eq o.from_currency from && text_eq o.to_currency to) rows)

-- A cached rate that is still good at the time.
abbrev pub Fresh : ℕ → Option CacheEntry → Type 0
Fresh now none = ⊥
Fresh now (some e) = now < e.expires_at

-- The source of a rate of two currencies: the overrides, then the cache, then a provider at the time of
-- the request, whose absence leaves no rate.
pub data Source (env : Env) (from to : Text) (w : World) (rate : Option Number) : Type 0 where
  same : from ≡ to → rate ≡ some (env.numbers.literal 1) → Source env from to w rate
  overridden :
      (r : Number)
      → override_for from to w.store.fx_overrides ≡ some r
      → rate ≡ some r
      → Source env from to w rate
  cached :
      (e : CacheEntry)
      → override_for from to w.store.fx_overrides ≡ none
      → lookup (cache_key from to) w.memory.rates ≡ some e
      → w.net.now < e.expires_at
      → rate ≡ some e.rate
      → Source env from to w rate
  provider :
      (now : ℕ)
      → override_for from to w.store.fx_overrides ≡ none
      → w.net.now ≤ now
      → ¬ Fresh now (lookup (cache_key from to) w.memory.rates)
      → rate ≡ Option.map (λ l. l.0) (fetch_live env now from to)
      → Source env from to w rate

override-Returns :
    (from to : Text) (w : World)
    → Returns
        (λ o u.
          (override_for from to w.store.fx_overrides ≡ o)
          × (u.memory ≡ w.memory)
          × (u.net.now ≡ w.net.now))
        (get_override from to w)
unfolding get_override
override-Returns from to w =
    let Q : Option Number → World → Type 0 = λ o u.
      (override_for from to w.store.fx_overrides ≡ o)
      × (u.memory ≡ w.memory)
      × (u.net.now ≡ w.net.now) in
    let R : List FxOverride → World → Type 0 =
      λ rows u. (w.store.fx_overrides ≡ rows) × (u.memory ≡ w.memory) × (u.net.now ≡ w.net.now) in
    bind-Returns Q R (remote (gets (λ w. w.store.fx_overrides)) w) _
      (remote-Returns R (gets (λ w. w.store.fx_overrides)) w (λ n e. (refl, refl, e)))
      λ rows u (e, kept, at_once). (ap (override_for from to) e, kept, at_once)

module _ (env : Env) (from to : Text) (w : World) where
  live-Source :
      (now : ℕ) (live : Option (Number × FxSource)) (u : World)
      → override_for from to w.store.fx_overrides ≡ none
      → w.net.now ≤ now
      → ¬ Fresh now (lookup (cache_key from to) w.memory.rates)
      → fetch_live env now from to ≡ live
      → Returns (λ q v. Source env from to w q.rate) (quote_live env from to now live u)
  unfolding quote_live set_memory
  live-Source now none u o since stale e = provider now o since stale (rw e refl)
  live-Source now (some (rate, source)) u o since stale e = provider now o since stale (rw e refl)

  cached-Source :
      (now : ℕ) (cache : Option CacheEntry) (u : World)
      → override_for from to w.store.fx_overrides ≡ none
      → w.net.now ≤ now
      → lookup (cache_key from to) w.memory.rates ≡ cache
      → Returns (λ q v. Source env from to w q.rate) (quote_cached env from to now cache u)
  unfolding quote_cached
  cached-Source now none u o since e = live-Source now _ u o since (rw e (λ h. h)) refl
  cached-Source now (some c) u o since e = elim (Bool-cases (ltb now c.expires_at)) [
    | inl good ↦ rw good (cached c o e (ground arith) refl)
    | inr bad ↦
        rw bad (live-Source now _ u o since (rw e (λ (h : now < c.expires_at). ground arith)) refl)
  ]

  quote-Source :
      (o : Option Number) (u : World)
      → override_for from to w.store.fx_overrides ≡ o
      → u.memory ≡ w.memory
      → u.net.now ≡ w.net.now
      → Returns (λ q v. Source env from to w q.rate) (quote env from to o u)
  unfolding quote
  quote-Source (some r) u e kept at_once = overridden r e refl
  quote-Source none u e kept at_once =
      let P : FxQuote → World → Type 0 = λ q v. Source env from to w q.rate in
      bind-Returns P (λ t v. (u.net.now ≤ t) × (v.net.now ≡ t) × SameBase u v) (clock u) _
        (clock-Returns u)
        λ t v (since, at_t, same_base).
          cached-Source t (lookup (cache_key from to) u.memory.rates) v e (ground arith)
            (ap (λ m. lookup (cache_key from to) m.rates) (sym kept))

-- What is answered is the rate 1 of two codes that are the same in upper case; or the admin's override;
-- or, where there is no override, the cached rate, if it has not expired; or, where there is no
-- override and no cached rate that is good at the time of the request, what the provider gives at that
-- time, which may be no rate.
pub get_rate-Source :
    (env : Env) (from_raw to_raw : Text) (w : World)
    → Returns
        (λ q v. Source env (to_upper from_raw) (to_upper to_raw) w q.rate)
        (get_rate env from_raw to_raw w)
unfolding get_rate get_override
get_rate-Source env from_raw to_raw w =
    let from = to_upper from_raw in
    let to = to_upper to_raw in
    let P : FxQuote → World → Type 0 = λ q v. Source env from to w q.rate in
    let Q : Option Number → World → Type 0 = λ o u.
      (override_for from to w.store.fx_overrides ≡ o)
      × (u.memory ≡ w.memory)
      × (u.net.now ≡ w.net.now) in
    elim (Bool-cases (text_eq from to)) [
      | inl e ↦ rw e (same ((text_eq_iff from to).0 e) refl)
      | inr e ↦ rw e (
          bind-Returns P Q (get_override from to w) _ (override-Returns from to w)
            λ o u (eo, kept, at_once). quote-Source env from to w o u eo kept at_once)
    ]
