-- ===== src/Calendar.antt =====
-- The UTC calendar as `Date.UTC` and the `getUTC…` methods of server/src/kycSpendService.ts use it,
-- on milliseconds since 1970.
use tende.Base.{
  ℕ, Bool, Bool-cases, arith, if◌then◌else◌, inl, inr, ltb, refl, suc, zero, ◌%◌, ◌&&◌, ◌*◌, ◌+◌,
  ◌-◌, ◌/◌, ◌<◌, ◌==◌, ◌||◌, ◌≡◌, ◌≤◌,
}

abbrev pub day_ms : ℕ
day_ms = 86400000

unfoldable pub start_of_day : ℕ → ℕ
start_of_day now = now / day_ms * day_ms

unfoldable pub is_leap : ℕ → Bool
is_leap year = year % 4 == 0 && (ltb 0 (year % 100) || year % 400 == 0)

unfoldable pub days_in_month : ℕ → ℕ → ℕ
days_in_month year month =
    if month == 1
    then (if is_leap year then 29 else 28)
    else if month == 3 || (month == 5 || (month == 8 || month == 10))
    then 30
    else 31

-- Walks the months from `year` and `month`, which begins `start` days after 1970, to the one that
-- holds the day `left` days later.
unfoldable pub month_from : ℕ → ℕ → ℕ → ℕ → ℕ → ℕ
month_from zero year month start left = start
month_from (suc fuel) year month start left =
    let length = days_in_month year month in
    let next_year = if month == 11 then year + 1 else year in
    let next_month = if month == 11 then 0 else month + 1 in
    let rest = month_from fuel next_year next_month (start + length) (left - length) in
    if ltb left length then start else rest

-- A month has 28 days or more, so this many rounds are enough.
unfoldable pub start_of_month : ℕ → ℕ
unfolding month_from
start_of_month now = let days = now / day_ms in month_from (days / 28 + 1) 1970 0 0 days * day_ms

-- 29 February 2024, 12:00, and 1 January 2000.
february : start_of_month 1709208000000 ≡ 1706745600000
unfolding start_of_month days_in_month is_leap
february = refl

millennium : start_of_month 946684800000 ≡ 946684800000
unfolding start_of_month days_in_month is_leap
millennium = refl

days_in_month_bounds :
    (year month : ℕ) → (28 ≤ days_in_month year month) × (days_in_month year month ≤ 31)
unfolding days_in_month
days_in_month_bounds year month = ground arith

month_from_bounds :
    (fuel year month start left : ℕ)
    → left / 28 < fuel
    → (month_from fuel year month start left ≤ start + left)
      × (start + left < month_from fuel year month start left + 31)
unfolding month_from
month_from_bounds zero year month start left h = absurd (omega arith)
month_from_bounds (suc fuel) year month start left h =
    let length : ℕ = days_in_month year month in
    let next_year : ℕ = if month == 11 then year + 1 else year in
    let next_month : ℕ = if month == 11 then 0 else month + 1 in
    elim (Bool-cases (ltb left length)) [
      | inl here ↦ rw here (ground (arith, days_in_month_bounds year month))
      | inr on ↦ rw on (
          ground (
            arith,
            days_in_month_bounds year month,
            month_from_bounds fuel next_year next_month (start + length) (left - length),
          ))
    ]
