-- ===== src/Planner/Calendar/Days.antt =====
-- The days before a date, in closed form, and the date of a day.
use noe_db.Base.{
  ℕ, zero, suc, ◌+◌, ◌-◌, ◌*◌, ◌/◌, ◌^◌, ◌≤◌, ◌<◌, ltb, some, ◌≡◌, refl, arith, Bool-cases, inl,
  inr, subst, sym, ge_of_ltb, ◌↔◌, Option-cases,
}
use noe_db.Planner.Calendar.{
  is_leap, days_in_year, year_loop, month_days, month_loop, date_in_year, epoch_day_to_ymd,
}
use noe_db.Planner.Calendar.Months.{
  days_in_month, days_before_month, IsDayOf, month_loop-IsDayOf, day-lt-year_days,
  month_loop_unique,
}

-- The leap years among the years 1 to `y`.
abbrev leaps : ℕ → ℕ
leaps y = y / 4 + y / 400 - y / 100

-- The days from the first of January of the year 1 to that of the year `y + 1`.
days_to : ℕ → ℕ
days_to y = 365 * y + leaps y

days_to-step : (y : ℕ) → 1 ≤ y → days_to y ≡ days_to (y - 1) + days_in_year y
unfolding is_leap days_to
days_to-step zero h = absurd (omega arith)
days_to-step (suc p) h = ground arith

days_to_mono : (y z : ℕ) → y ≤ z → days_to y ≤ days_to z
unfolding days_to
days_to_mono y z h = omega arith

-- The days from the first of January of 1970 to that of the year `suc p`.
days_to_year : ℕ → ℕ
unfolding days_to
days_to_year p = days_to p - days_to 1969

-- The days from the epoch to a date.
unfoldable pub days_of_date : ℕ → ℕ → ℕ → ℕ
unfolding days_to_year days_to days_before_month is_leap
days_of_date y m d = days_to_year (y - 1) + days_before_month (is_leap y) m + d - 1

abbrev pub IsDate : ℕ → ℕ → ℕ → Type 0
IsDate y m d = (1970 ≤ y) × (1 ≤ m) × (m ≤ 12) × (1 ≤ d) × (d ≤ days_in_month (is_leap y) m)

year_loop_sound :
    (left y days z r : ℕ)
    → 1 ≤ y
    → year_loop left y days ≡ some (z, r)
    → (y ≤ z) × (r < days_in_year z) × (days_to (y - 1) + days ≡ days_to (z - 1) + r)
unfolding year_loop
year_loop_sound zero y days z r p h = ground arith
year_loop_sound (suc left) y days z r p h =
    ground (arith, days_to-step y p, year_loop_sound left (y + 1) (days - days_in_year y) z r)

year_loop_complete :
    (left y z days r : ℕ)
    → 1 ≤ y
    → y ≤ z
    → z ≤ y + left
    → days_to (y - 1) + days ≡ days_to (z - 1) + r
    → r < days_in_year z
    → year_loop left y days ≡ some (z, r)
unfolding year_loop
year_loop_complete zero y z days r p a b e lt =
    let same : z ≡ y = omega arith in
    subst
      (λ k.
        days_to (y - 1) + days ≡ days_to (k - 1) + r
        → r < days_in_year k
        → year_loop zero y days ≡ some (k, r))
      (sym same) (λ e' lt'. ground arith) e lt
year_loop_complete (suc left) y z days r p a b e lt = elim (Bool-cases (ltb y z)) [
  | inl before ↦ ground (
    arith,
    days_to-step y p,
    days_to_mono y (z - 1),
    year_loop_complete left (y + 1) z (days - days_in_year y) r,
  )
  | inr at_end ↦ let same : y ≡ z = omega (arith, ge_of_ltb y z at_end) in ground arith
]

-- Days of fewer than 2 ^ 31 - 1970 years.
year_loop_total :
    (left y days : ℕ) → days < 365 * suc left → (p : ℕ × ℕ) × (year_loop left y days ≡ some p)
unfolding year_loop
year_loop_total zero y days h = ((y, days), ground arith)
year_loop_total (suc left) y days h = elim (Bool-cases (ltb days (days_in_year y))) [
  | inl last ↦ ((y, days), ground arith)
  | inr more ↦
      let (p, e) = year_loop_total left (y + 1) (days - days_in_year y) (ground arith) in
      (p, ground arith)
]

date_in_year-eq :
    (z r y m d : ℕ)
    → date_in_year (some (z, r)) ≡ some (y, m, d)
    → (z ≡ y) × (month_loop (month_days (is_leap z)) 0 r ≡ (m, d))
date_in_year-eq z r y m d h = ground arith

loop-IsDate :
    (days y m d r : ℕ)
    → year_loop (2 ^ 31 - 1 - 1970) 1970 days ≡ some (y, r)
    → month_loop (month_days (is_leap y)) 0 r ≡ (m, d)
    → IsDate y m d × (days_of_date y m d ≡ days)
unfolding days_of_date days_to_year
loop-IsDate days y m d r e f =
    let (after, inside, total) =
      year_loop_sound (2 ^ 31 - 1 - 1970) 1970 days y r (omega arith) e in
    let day : IsDayOf (is_leap y) (m, d) r =
      subst (λ p. IsDayOf (is_leap y) p r) f (month_loop-IsDayOf (is_leap y) r inside) in
    ((after, day.0, day.1, day.2, day.3), omega (arith, days_to_mono 1969 (y - 1)))

loop_of_date :
    (days y m d : ℕ)
    → y < 2 ^ 31
    → IsDate y m d
    → days_of_date y m d ≡ days
    → date_in_year (year_loop (2 ^ 31 - 1 - 1970) 1970 days) ≡ some (y, m, d)
unfolding days_of_date days_to_year
loop_of_date days y m d h (a, b, c, e, f) day =
    let r = days_before_month (is_leap y) m + d - 1 in
    let inside : r < days_in_year y = day-lt-year_days (is_leap y) m d c f e in
    let found : year_loop (2 ^ 31 - 1 - 1970) 1970 days ≡ some (y, r) =
      year_loop_complete (2 ^ 31 - 1 - 1970) 1970 y days r (omega arith) a (omega arith)
        (omega (arith, days_to_mono 1969 (y - 1))) inside in
    rw (found, month_loop_unique (is_leap y) m d r (b, c, e, f, omega arith))

-- Up to the year 2 ^ 31 - 1, `epoch_day_to_ymd` gives a date for a day exactly when it is a date of
-- the Gregorian calendar from 1970 on, with that many days between the epoch and it, by the closed
-- form of their number.
pub epoch_day_to_ymd_iff :
    (days y m d : ℕ)
    → y < 2 ^ 31
    → (epoch_day_to_ymd days ≡ some (y, m, d)) ↔ (IsDate y m d × (days_of_date y m d ≡ days))
unfolding epoch_day_to_ymd days_of_date
epoch_day_to_ymd_iff days y m d h = (
  (λ e. elim (Option-cases (year_loop (2 ^ 31 - 1 - 1970) 1970 days)) [
    | inl out ↦ ground arith
    | inr ((z, r), found) ↦
        let (same, date) = date_in_year-eq z r y m d (ground arith) in
        subst
          (λ k.
            year_loop (2 ^ 31 - 1 - 1970) 1970 days ≡ some (k, r)
            → month_loop (month_days (is_leap k)) 0 r ≡ (m, d)
            → IsDate y m d × (days_of_date y m d ≡ days))
          (sym same) (λ at_y in_month. loop-IsDate days y m d r at_y in_month) found date
  ]),
  (λ (date, day). loop_of_date days y m d h date day),
)

-- The loop over the years ends before the year leaves `i32` for every day that is less than
-- 2 ^ 31 - 1970 common years after the epoch, and `epoch_day_to_ymd` then gives a date of the Gregorian
-- calendar, from 1970 on, with that many days between the epoch and it by the closed form.
pub epoch_day_to_ymd-IsDate :
    (days : ℕ)
    → days < 365 * (2 ^ 31 - 1970)
    → (y m d : ℕ) × (epoch_day_to_ymd days ≡ some (y, m, d))
      × IsDate y m d
      × (days_of_date y m d ≡ days)
unfolding epoch_day_to_ymd
epoch_day_to_ymd-IsDate days h =
    let ((z, r), e) = year_loop_total (2 ^ 31 - 1 - 1970) 1970 days (omega arith) in
    let (m, d) = month_loop (month_days (is_leap z)) 0 r in
    let (date, day) = loop-IsDate days z m d r e refl in (z, m, d, rw e, date, day)
