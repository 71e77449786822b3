-- ===== src/Revenue/Frames.antt =====
-- What reading the fee rates leaves alone.
use tende.Base.{Option, none, some}
use tende.Schema.{CachedRevenue}
use tende.World.{set_memory}
use tende.World.Frames.{
  Frame, Within, KeepsStore, Quiet, store_kept, no_transaction, set_memory-KeepsStore,
  set_memory-Quiet, bind-Within, gets-Within, within,
}
use tende.Revenue.{get_revenue_config, serve, load_config}

-- A frame that allows a new cache of the fee rates.
abbrev pub AllowsFees : Frame → Type 0
AllowsFees F = (c : CachedRevenue) → Within F (set_memory (λ m. record m { revenue = some c }))

-- Such a frame allows a read of the rates.
module _ (F : Frame) (fees-Within : AllowsFees F) where
  load_config-Within : Within F load_config
  unfolding load_config
  load_config-Within = search (within, fees-Within) depth 20

  serve-Within : (c : Option CachedRevenue) → Within F (serve c)
  unfolding serve
  serve-Within none = load_config-Within
  serve-Within (some c) = search (within, load_config-Within) depth 20

  pub get_revenue_config-Within : Within F get_revenue_config
  unfolding get_revenue_config
  get_revenue_config-Within = bind-Within F _ serve (gets-Within F _) serve-Within

pub get_revenue_config-KeepsStore : KeepsStore get_revenue_config
get_revenue_config-KeepsStore = get_revenue_config-Within store_kept (λ c. set_memory-KeepsStore _)

pub get_revenue_config-Quiet : Quiet get_revenue_config
get_revenue_config-Quiet = get_revenue_config-Within no_transaction (λ c. set_memory-Quiet _)
