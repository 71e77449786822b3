-- ===== src/Kyc/Answers.antt =====
-- What the answer of a KYC check tells.
use tende.Base.{
  ℕ, Bool-cases, Option, Text, arith, false, gets, if◌then◌else◌, inl, inr, none, refl, some,
  to_lower, true, ◌+◌, ◌<◌, ◌≡◌, ◌≤◌, pure, ◌>>=◌, ◌∙◌, ◌⊎◌,
}
use tende.World.{World}
use tende.World.Frames.{store_kept, SameBase}
use tende.World.Returns.{
  Returns, bind-Returns, remote-Returns, clock-Returns, Within-Returns, Returns-mono, Returns-both,
}
use tende.Env.{Env}
use tende.Calendar.{start_of_day, start_of_month}
use tende.Kyc.{
  KycLimits, SpendCheck, allowed, refused, single_exceeded, daily_exceeded, monthly_exceeded,
  level_missing, exceeds, level_of, get_consumer_kyc_limits, spent_since, sum_spent, to_limit_units,
  check_limits, check_level, assert_kyc_send_allowed,
}
use tende.Kyc.Limits.{to_limit_units-KeepsStore}
use tende.Kyc.Units.{InLimitUnits, to_limit_units-Returns}

abbrev pub Fits : ℕ → Option ℕ → Type 0
Fits n none = Unit
Fits n (some limit) = n ≤ limit

abbrev pub Over : ℕ → Option ℕ → Type 0
Over n none = ⊥
Over n (some limit) = limit < n

pub fits : (n : ℕ) (l : Option ℕ) → exceeds n l ≡ false → Fits n l
unfolding exceeds
fits n none h = tt
fits n (some l) h = ground arith

over : (n : ℕ) (l : Option ℕ) → exceeds n l ≡ true → Over n l
unfolding exceeds
over n none h = absurd (cc)
over n (some l) h = ground arith

-- What a wallet has spent in the day and the month of a time.
abbrev pub today : Text → ℕ → World → ℕ
today wallet t w = spent_since (to_lower wallet) (start_of_day t) w.store.spend_events

abbrev pub this_month : Text → ℕ → World → ℕ
this_month wallet t w = spent_since (to_lower wallet) (start_of_month t) w.store.spend_events

-- The reason of each answer, with the limits `l`, the amount in their units and the time of the check.
abbrev pub Because : World → Text → KycLimits → ℕ → ℕ → SpendCheck → Type 0
Because w wallet l units t (allowed a) =
    (a.limits ≡ l)
    × (a.amount_limit_units ≡ units)
    × (a.spent_today ≡ today wallet t w)
    × (a.spent_month ≡ this_month wallet t w)
    × Fits units l.max_single_tx
    × Fits (today wallet t w + units) l.max_daily_send
    × Fits (this_month wallet t w + units) l.max_monthly_spend
Because w wallet l units t (refused single_exceeded) = Over units l.max_single_tx
Because w wallet l units t (refused daily_exceeded) =
    Over (today wallet t w + units) l.max_daily_send
Because w wallet l units t (refused monthly_exceeded) =
    Over (this_month wallet t w + units) l.max_monthly_spend
Because w wallet l units t (refused level_missing) = ⊥

-- The verdict on the sums that were read.
verdict : KycLimits → ℕ → ℕ → ℕ → SpendCheck
verdict l units day month =
    if exceeds (day + units) l.max_daily_send
    then refused daily_exceeded
    else if exceeds (month + units) l.max_monthly_spend
    then refused monthly_exceeded
    else allowed
        (record { limits = l; spent_today = day; spent_month = month; amount_limit_units = units })

verdict-Because :
    (w : World) (wallet : Text) (l : KycLimits) (units t : ℕ)
    → exceeds units l.max_single_tx ≡ false
    → Because w wallet l units t (verdict l units (today wallet t w) (this_month wallet t w))
unfolding verdict
verdict-Because w wallet l units t single =
    elim (Bool-cases (exceeds (today wallet t w + units) l.max_daily_send)) [
      | inl day ↦ rw day (over _ l.max_daily_send day)
      | inr day ↦
          rw day (elim (Bool-cases (exceeds (this_month wallet t w + units) l.max_monthly_spend)) [
            | inl month ↦ rw month (over _ l.max_monthly_spend month)
            | inr month ↦ rw month (
              refl,
              refl,
              refl,
              refl,
              fits units l.max_single_tx single,
              fits _ l.max_daily_send day,
              fits _ l.max_monthly_spend month,
            )
          ])
    ]

sum_spent-Returns :
    (wallet : Text) (since : ℕ) (u : World)
    → Returns
        (λ n v.
          (n ≡ spent_since (to_lower wallet) since u.store.spend_events)
          × (v.store ≡ u.store)
          × (v.net.now ≡ u.net.now))
        (sum_spent wallet since u)
unfolding sum_spent
sum_spent-Returns wallet since u =
    remote-Returns _ (gets (λ v. spent_since (to_lower wallet) since v.store.spend_events)) u
      (λ n e. (refl, refl, e))

-- The amount in the units of the limits, and a time of the check.
abbrev pub Judged : Env → Text → ℕ → Text → World → KycLimits → SpendCheck → World → Type 0
Judged env wallet amount currency w l c v =
    (units : ℕ) × (t : ℕ) × ((a : World) × SameBase w a
      × (a.net.now ≡ w.net.now)
      × InLimitUnits env amount currency a units)
    × (w.net.now ≤ t)
    × (t ≤ v.net.now)
    × Because w wallet l units t c

module _ (env : Env) (wallet : Text) (amount : ℕ) (currency : Text) (w : World) where
  -- The sums that are read are those of the store of the start.
  sums-Returns :
      (l : KycLimits) (units t : ℕ) (u : World)
      → u.store ≡ w.store
      → exceeds units l.max_single_tx ≡ false
      → w.net.now ≤ t
      → t ≤ u.net.now
      → ((a : World) × SameBase w a
          × (a.net.now ≡ w.net.now)
          × InLimitUnits env amount currency a units)
      → Returns
          (λ c v. Judged env wallet amount currency w l c v)
          ((do
            day ← sum_spent wallet (start_of_day t)
            month ← sum_spent wallet (start_of_month t)
            pure (verdict l units day month))
            u)
  unfolding sum_spent
  sums-Returns l units t u same single since until counted =
      let P : SpendCheck → World → Type 0 = λ c v. Judged env wallet amount currency w l c v in
      bind-Returns P _ (sum_spent wallet (start_of_day t) u) _
        (sum_spent-Returns wallet (start_of_day t) u)
        λ day v kept.
          bind-Returns P _ (sum_spent wallet (start_of_month t) v)
            (λ month. pure (verdict l units day month))
            (sum_spent-Returns wallet (start_of_month t) v)
            λ month x kept2.
              let day_is : day ≡ today wallet t w = cc in
              let month_is : month ≡ this_month wallet t w = cc in
              (
                units,
                t,
                counted,
                since,
                omega (arith, until, kept.2, kept2.2),
                rw (day_is, month_is) (verdict-Because w wallet l units t single),
              )

module _ (env : Env) (wallet : Text) (amount : ℕ) (currency : Text) (w : World) where
  check_limits-Returns :
      (l : KycLimits) (u : World)
      → SameBase w u
      → u.net.now ≡ w.net.now
      → Returns
          (λ c v. Judged env wallet amount currency w l c v)
          (check_limits env wallet amount currency l u)
  unfolding check_limits verdict
  check_limits-Returns l u same since =
      let P : SpendCheck → World → Type 0 = λ c v. Judged env wallet amount currency w l c v in
      bind-Returns P
        (λ units v.
          ((v.store ≡ u.store) × (u.net.now ≤ v.net.now))
          × InLimitUnits env amount currency u units)
        _ _
        (Returns-both _ _ (to_limit_units env amount currency u)
          (Within-Returns store_kept (to_limit_units env amount currency)
            (to_limit_units-KeepsStore env amount currency) u)
          (to_limit_units-Returns env amount currency u))
        λ units v (kept, counted). elim (Bool-cases (exceeds units l.max_single_tx)) [
          | inl e ↦ rw e (
            units,
            v.net.now,
            (u, same, since, counted),
            omega arith,
            omega arith,
            over units l.max_single_tx e,
          )
          | inr e ↦ rw e (
              bind-Returns P _ _ _ (clock-Returns v) λ t x passed.
                sums-Returns env wallet amount currency w l units t x
                  (passed.2.store ∙ kept.0 ∙ same.store) e (omega arith) (omega (arith, passed.1))
                  (u, same, since, counted))
        ]

  abbrev pub Answered : Text → SpendCheck → World → Type 0
  Answered id c v =
      ((l : KycLimits) × (level_of id w.store.consumers w.store.kyc_levels ≡ some l)
        × Judged env wallet amount currency w l c v)
      ⊎ ((level_of id w.store.consumers w.store.kyc_levels ≡ none) × (c ≡ refused level_missing))

  check_level-Returns :
      (id : Text) (o : Option KycLimits) (u : World)
      → SameBase w u
      → u.net.now ≡ w.net.now
      → level_of id w.store.consumers w.store.kyc_levels ≡ o
      → Returns (λ c v. Answered id c v) (check_level env wallet amount currency o u)
  unfolding check_level
  check_level-Returns id none u same since e = inr (e, refl)
  check_level-Returns id (some l) u same since e =
      Returns-mono (λ c v. Answered id c v) (λ c v. Judged env wallet amount currency w l c v) _
        (λ c v j. inl (l, e, j)) (check_limits-Returns l u same since)

  -- A check that answers takes the limits of the consumer's level, or refuses when there are none. The
  -- amount is taken in the units of the limits: cents of a home currency as they are, dollars at their rate
  -- to the rand, asked for on the world of the start. It refuses for the single, the daily or the monthly
  -- limit only if these units, or these with what the wallet spent in that period, are over it; it allows
  -- only if all three limits are kept, and then tells these sums, which are those of the store at the start
  -- and of a time between the start and the answer.
  pub assert_kyc_send_allowed-Returns :
      (id : Text)
      → Returns (λ c v. Answered id c v) (assert_kyc_send_allowed env id wallet amount currency w)
  unfolding assert_kyc_send_allowed get_consumer_kyc_limits
  assert_kyc_send_allowed-Returns id =
      let P : SpendCheck → World → Type 0 = λ c v. Answered id c v in
      let Q : Option KycLimits → World → Type 0 = λ o v.
        SameBase w v
        × (v.net.now ≡ w.net.now)
        × (level_of id w.store.consumers w.store.kyc_levels ≡ o) in
      bind-Returns P Q _ _
        (remote-Returns Q (gets (λ w. level_of id w.store.consumers w.store.kyc_levels)) w
          (λ n e. (record { chain = refl; store = refl; memory = refl }, e, refl)))
        λ o v kept. check_level-Returns id o v kept.0 kept.1 kept.2
