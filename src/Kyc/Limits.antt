-- ===== src/Kyc/Limits.antt =====
-- What the conversion of an amount to the units of the limits leaves alone.
use tende.Base.{Text, ℕ}
use tende.World.Frames.{Frame, KeepsStore, Within, store_kept, within, set_memory-KeepsStore}
use tende.Env.{Env}
use tende.Fx.Frames.{AllowsRates, get_rate-Within}
use tende.Kyc.{to_limit_units}

module _ (F : Frame) (rates-Within : AllowsRates F) (env : Env) where
  pub to_limit_units-Within :
      (amount : ℕ) (currency : Text) → Within F (to_limit_units env amount currency)
  unfolding to_limit_units
  to_limit_units-Within amount currency =
      search (within, get_rate-Within F rates-Within env) depth 12

pub to_limit_units-KeepsStore :
    (env : Env) (amount : ℕ) (currency : Text) → KeepsStore (to_limit_units env amount currency)
to_limit_units-KeepsStore env amount currency =
    to_limit_units-Within store_kept (λ k e. set_memory-KeepsStore _) env amount currency
