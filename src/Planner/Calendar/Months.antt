-- ===== src/Planner/Calendar/Months.antt =====
-- crates/noedb-planner/src/cast.rs: the days of the months, and the date of a day of a year.
use noe_db.Base.{
  ℕ, zero, suc, ◌+◌, ◌-◌, ◌*◌, ◌/◌, ◌≤◌, ◌<◌, Bool, true, false, ◌==◌, if◌then◌else◌, ◌≡◌, refl,
  arith, ◌||◌, leb, ◌&&◌, not, subst,
}
use noe_db.Planner.Calendar.{month_days, month_loop}

abbrev pub days_in_month : Bool → ℕ → ℕ
days_in_month leap m =
    if m == 2
    then (if leap then 29 else 28)
    else if m == 4 || m == 6 || m == 9 || m == 11
    then 30
    else 31

-- The days of the year before the month, in closed form.
unfoldable pub days_before_month : Bool → ℕ → ℕ
days_before_month leap m = (367 * m - 362) / 12 - (if leb m 2 then 0 else if leap then 1 else 2)

abbrev pub year_days : Bool → ℕ
year_days leap = if leap then 366 else 365

abbrev pub IsDayOf : Bool → ℕ × ℕ → ℕ → Type 0
IsDayOf leap (m, d) r =
    (1 ≤ m)
    × (m ≤ 12)
    × (1 ≤ d)
    × (d ≤ days_in_month leap m)
    × (days_before_month leap m + d ≡ suc r)

-- Both directions are checked for each day of a year.
each_below : (ℕ → Bool) → ℕ → Bool
each_below test zero = true
each_below test (suc k) = each_below test k && test k

each_below-at : (test : ℕ → Bool) (k i : ℕ) → i < k → each_below test k ≡ true → test i ≡ true
unfolding each_below
each_below-at test zero i lt checked = absurd (omega arith)
each_below-at test (suc k) i lt checked = ground (arith, each_below-at test k i)

is_day_of : Bool → ℕ × ℕ → ℕ → Bool
is_day_of leap (m, d) r =
    leb 1 m
    && leb m 12
    && leb 1 d
    && leb d (days_in_month leap m)
    && (days_before_month leap m + d == suc r)

is_day_of-IsDayOf : (leap : Bool) (p : ℕ × ℕ) (r : ℕ) → is_day_of leap p r ≡ true → IsDayOf leap p r
unfolding is_day_of
is_day_of-IsDayOf leap (m, d) r h = ground arith

month_loop_table :
    (leap : Bool)
    → each_below (λ r. is_day_of leap (month_loop (month_days leap) 0 r) r) (year_days leap) ≡ true
unfolding each_below is_day_of month_loop days_before_month
month_loop_table true = refl
month_loop_table false = refl

pub month_loop-IsDayOf :
    (leap : Bool) (r : ℕ) → r < year_days leap → IsDayOf leap (month_loop (month_days leap) 0 r) r
month_loop-IsDayOf leap r h =
    is_day_of-IsDayOf leap (month_loop (month_days leap) 0 r) r
      (each_below-at _ (year_days leap) r h (month_loop_table leap))

is_date : Bool → ℕ × ℕ → ℕ → ℕ → Bool
is_date leap (m', d') m d =
    not (leb 1 m && leb 1 d && leb d (days_in_month leap m)) || (m' == m && d' == d)

month_loop_dates :
    (leap : Bool)
    → each_below
        (λ m.
          each_below
            (λ d.
              is_date leap (month_loop (month_days leap) 0 (days_before_month leap m + d - 1)) m d)
            32)
        13
      ≡ true
unfolding each_below is_date month_loop days_before_month
month_loop_dates true = refl
month_loop_dates false = refl

is_date-eq :
    (leap : Bool) (p : ℕ × ℕ) (m d : ℕ)
    → is_date leap p m d ≡ true
    → 1 ≤ m
    → 1 ≤ d
    → d ≤ days_in_month leap m
    → p ≡ (m, d)
unfolding is_date
is_date-eq leap (m', d') m d h a b c = ground arith

days_in_month-le : (leap : Bool) (m : ℕ) → days_in_month leap m ≤ 31
days_in_month-le leap m = ground arith

pub month_loop_unique :
    (leap : Bool) (m d r : ℕ) → IsDayOf leap (m, d) r → month_loop (month_days leap) 0 r ≡ (m, d)
month_loop_unique leap m d r h =
    let day : days_before_month leap m + d - 1 ≡ r = omega arith in
    let checked =
      each_below-at _ 32 d (omega (arith, days_in_month-le leap m))
        (each_below-at _ 13 m (omega arith) (month_loop_dates leap)) in
    subst (λ k. month_loop (month_days leap) 0 k ≡ (m, d)) day
      (is_date-eq leap _ m d checked h.0 h.2 h.3)

-- The last day of a month is a day of its year.
pub day-lt-year_days :
    (leap : Bool) (m d : ℕ)
    → m ≤ 12
    → d ≤ days_in_month leap m
    → 1 ≤ d
    → days_before_month leap m + d - 1 < year_days leap
unfolding days_before_month
day-lt-year_days true m d a b c = ground arith
day-lt-year_days false m d a b c = ground arith
