-- ===== src/Fx/Frames.antt =====
-- What asking for an exchange rate leaves alone.
use tende.Base.{ℕ, Option, Text, none, some, text_eq, to_upper}
use tende.Schema.{CacheEntry, Number}
use tende.World.{set_memory}
use tende.World.Frames.{
  Frame, Within, Quiet, no_transaction, within, set_memory-Quiet, if-Within, pure-Within,
  bind-Within,
}
use tende.Env.{Env}
use tende.Fx.{Live, get_override, quote_live, quote_cached, quote, get_rate}
use tende.Base.Assoc.{insert}

-- A frame that allows a new entry in the cache of rates.
abbrev pub AllowsRates : Frame → Type 0
AllowsRates F =
    (k : Text) (e : CacheEntry)
    → Within F (set_memory (λ m. record m { rates = insert k e m.rates }))

-- Such a frame allows a quote.
module _ (F : Frame) (rates-Within : AllowsRates F) (env : Env) (from to : Text) where
  live-Within : (now : ℕ) (l : Option Live) → Within F (quote_live env from to now l)
  unfolding quote_live
  live-Within now none = search within
  live-Within now (some (rate, source)) = search (within, rates-Within) depth 10

  cached-Within : (now : ℕ) (c : Option CacheEntry) → Within F (quote_cached env from to now c)
  unfolding quote_cached
  cached-Within now none = live-Within now _
  cached-Within now (some e) = search (within, live-Within) depth 10

  quote-Within : (o : Option Number) → Within F (quote env from to o)
  unfolding quote
  quote-Within none = search (within, cached-Within) depth 10
  quote-Within (some rate) = search within

override-Within : (F : Frame) (from to : Text) → Within F (get_override from to)
unfolding get_override
override-Within F from to = search within depth 10

pub get_rate-Within :
    (F : Frame) → AllowsRates F → (env : Env) (from to : Text) → Within F (get_rate env from to)
unfolding get_rate
get_rate-Within F rates-Within env from to =
    if-Within F (text_eq (to_upper from) (to_upper to)) _ _ (pure-Within F _) (
      bind-Within F (get_override (to_upper from) (to_upper to)) _
        (override-Within F (to_upper from) (to_upper to))
        (quote-Within F rates-Within env (to_upper from) (to_upper to)))

pub get_rate-Quiet : (env : Env) (from to : Text) → Quiet (get_rate env from to)
get_rate-Quiet = get_rate-Within no_transaction (λ k e. set_memory-Quiet _)
