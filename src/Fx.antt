-- ===== src/Fx.antt =====
-- server/src/fxService.ts: an exchange rate by the admin's override, the cache or a live provider.
-- A request to a provider is a function of the time at which it is made.
pub mod Sources
pub mod Frames
use mathlib.Core.Option
use tende.Base.{
  ℕ, Action, Bool, Option, Text, codes, gets, if◌then◌else◌, ltb, none, pure, some, text_eq,
  to_upper, ◌&&◌, ◌++◌, ◌+◌, ◌>>=◌, ◌>>◌, ◌||◌, ◌∷◌,
}
use tende.Schema.{Number, FxSource, CacheEntry}
use tende.World.{World, remote, clock, set_memory}
use tende.Env.{Env, Fetched, found, absent, failed, is_empty}
use tende.Base.Assoc.{insert, lookup}
use tende.Base.Rows.{find}

pub record FxQuote : Type 0 where
  pub from : Text
  pub to : Text
  pub rate : Option Number
  pub source : FxSource
  pub as_of : Option ℕ

unfoldable pub to_provider_code : Text → Text
to_provider_code code = if text_eq code (codes "ZIG") then codes "ZWG" else code

unfoldable pub cache_key : Text → Text → Text
cache_key from to = from ++ (b'/' ∷ to)

unfoldable pub is_zim_code : Text → Bool
is_zim_code code = text_eq code (codes "ZIG") || text_eq code (codes "ZWG")

unfoldable pub get_override : Text → Text → Action World (Option Number)
get_override from to = do
  rows ← remote (gets (λ w. w.store.fx_overrides))
  pure (
      Option.map (λ o. o.rate)
        (find (λ o. text_eq o.from_currency from && text_eq o.to_currency to) rows))

-- The price that a provider gave, with its name.
abbrev pub Live : Type 0
Live = Number × FxSource

unfoldable pub answer : FxSource → Fetched → Option Live
answer source (found rate) = some (rate, source)
answer source absent = none
answer source failed = none

module _ (env : Env) where
  -- A failed request is caught by the caller, which then answers as if there were no rate.
  unfoldable pub fetch_live : ℕ → Text → Text → Option Live
  unfolding answer
  fetch_live now from to =
      if is_zim_code from || is_zim_code to
      then (if is_empty env.config.fx_api_key
          then none
          else answer FxSource.zimrate
              (env.fetch_zimrate now (to_provider_code from) (to_provider_code to)))
      else answer FxSource.majors
          (env.fetch_majors now (to_provider_code from) (to_provider_code to))

  unfoldable pub quote_live : Text → Text → ℕ → Option Live → Action World FxQuote
  quote_live from to now none =
      pure
        (record { from = from; to = to; rate = none; source = FxSource.unavailable; as_of = none })
  quote_live from to now (some (rate, source)) = do
    set_memory (λ m. record m {
      rates =
          insert (cache_key from to)
            (record {
              rate = rate;
              source = source;
              expires_at = now + env.config.fx_cache_ttl_ms;
              as_of = now;
            })
            m.rates;
    })
    pure (record { from = from; to = to; rate = some rate; source = source; as_of = some now })

  unfoldable pub quote_cached : Text → Text → ℕ → Option CacheEntry → Action World FxQuote
  quote_cached from to now none = quote_live from to now (fetch_live now from to)
  quote_cached from to now (some e) =
      if ltb now e.expires_at
      then pure (record {
        from = from;
        to = to;
        rate = some e.rate;
        source = e.source;
        as_of = some e.as_of;
      })
      else quote_live from to now (fetch_live now from to)

  unfoldable pub quote : Text → Text → Option Number → Action World FxQuote
  quote from to (some rate) =
      pure (record {
        from = from;
        to = to;
        rate = some rate;
        source = FxSource.override;
        as_of = none;
      })
  quote from to none = do
    cached ← gets (λ w. lookup (cache_key from to) w.memory.rates)
    now ← clock
    quote_cached from to now cached

  unfoldable pub get_rate : Text → Text → Action World FxQuote
  get_rate from_raw to_raw =
      let from = to_upper from_raw in
      let to = to_upper to_raw in
      if text_eq from to
      then pure (record {
        from = from;
        to = to;
        rate = some (env.numbers.literal 1);
        source = FxSource.override;
        as_of = none;
      })
      else do override ← get_override from to; quote from to override
