-- ===== src/Revenue/Cache.antt =====
-- Which fee rates a caller of `getRevenueConfig` sees.
use tende.Base.{
  Result, catch, err, gets, ok, pure, refl, some, ◌<◌, ◌≡◌, Bool-cases, Option, [], ap, arith,
  if◌then◌else◌, inl, inr, ltb, none, resume, subst, sym, ◌>>◌, ◌∙◌,
}
use tende.Schema.{RevenueConfig, CachedRevenue}
use tende.World.{schedule, World, remote, clock, set_memory}
use tende.World.Returns.{Returns, bind-Returns, remote-Returns, clock_value, Returns-any}
use tende.Revenue.{
  defaults, read_config, load_config, serve, get_revenue_config, invalidate_revenue_config_cache,
}

-- Where the rates come from: the cache before its expiry, the table, or the defaults.
pub data Origin (w : World) (c : RevenueConfig) : Type 0 where
  cached :
      (e : CachedRevenue)
      → w.memory.revenue ≡ some e
      → w.net.now < e.expires_at
      → c ≡ e.cfg
      → Origin w c
  loaded : c ≡ read_config w.store.app_config → Origin w c
  fallen_back : c ≡ defaults → Origin w c

abbrev pub Answers : World → Result RevenueConfig × World → Type 0
Answers w r = (c : RevenueConfig) × (r.0 ≡ ok c) × Origin w c

caught :
    (w : World) (r : Result RevenueConfig × World)
    → Returns (λ c u. c ≡ read_config w.store.app_config) r
    → Answers w (catch (λ (u : World). r) (λ _. pure defaults) w)
caught w (ok c, u) h = (c, refl, loaded h)
caught w (err e, u) h = (defaults, refl, fallen_back refl)

load_config-Answers : (w u : World) → u.store ≡ w.store → Answers w (load_config u)
unfolding load_config set_memory
load_config-Answers w u same = caught w _ (
    bind-Returns _ (λ rows v. rows ≡ u.store.app_config) _ _
      (remote-Returns _ (gets (λ v. v.store.app_config)) u (λ n e. refl))
      λ rows v er.
        bind-Returns _ (λ _ _. Unit) (clock v) _ (Returns-any (clock v))
          λ t x et. ap read_config (er ∙ ap (λ s. s.app_config) same))

serve-Answers :
    (w : World) (cache : Option CachedRevenue)
    → w.memory.revenue ≡ cache
    → Answers w (serve cache w)
unfolding serve
serve-Answers w none e = load_config-Answers w w refl
serve-Answers w (some cache) e =
    let (t, et, since, same) = clock_value w in
    subst
      (λ r.
        Answers w
          (resume r (λ now. if ltb now cache.expires_at then pure cache.cfg else load_config)))
      (sym et)
      (elim (Bool-cases (ltb t cache.expires_at)) [
        | inl fresh ↦ rw fresh (cache.cfg, refl, cached cache e (ground arith) refl)
        | inr stale ↦ rw stale (load_config-Answers w (clock w).1 same.store)
      ])

-- It never fails. It answers with a cached value that has not expired, or with the table's rates, or
-- with the defaults.
pub get_revenue_config-Answers : (w : World) → Answers w (get_revenue_config w)
unfolding get_revenue_config
get_revenue_config-Answers w = serve-Answers w w.memory.revenue refl

-- Once the cache is invalidated, and while the database answers, a caller sees the table's rates.
pub invalidate-get :
    (w : World)
    → w.net.outcomes ≡ []
    → ((do invalidate_revenue_config_cache; get_revenue_config) w).0
      ≡ ok (read_config w.store.app_config)
unfolding invalidate_revenue_config_cache get_revenue_config serve load_config set_memory remote
    clock
invalidate-get w quiet = rw (quiet, schedule)
