-- ===== src/Planner/Calendar.antt =====
-- crates/noedb-planner/src/cast.rs: the date of a day after the epoch, and its text.
pub mod Months
pub mod Days
use noe_db.Base.{
  ℕ, zero, suc, ◌+◌, ◌-◌, ◌*◌, ◌/◌, ◌%◌, ◌^◌, Bool, not, ◌&&◌, ◌||◌, ltb, ◌==◌, if◌then◌else◌, List,
  [], ◌∷◌, ◌++◌, Option, none, some, length, replicate,
}
use noe_db.Base.Bytes.{Bytes}

unfoldable pub is_leap : ℕ → Bool
is_leap y = (y % 4 == 0) && not (y % 100 == 0) || (y % 400 == 0)

abbrev pub days_in_year : ℕ → ℕ
days_in_year y = if is_leap y then 366 else 365

-- The loop over the years: the year and the days left in it. At most `left` increments keep the year
-- an `i32`; `none` stands for the increment that does not.
unfoldable pub year_loop : ℕ → ℕ → ℕ → Option (ℕ × ℕ)
year_loop zero y days = if ltb days (days_in_year y) then some (y, days) else none
year_loop (suc left) y days =
    let rest = year_loop left (y + 1) (days - days_in_year y) in
    if ltb days (days_in_year y) then some (y, days) else rest

abbrev pub month_days : Bool → List ℕ
month_days leap =
    31 ∷ (if leap then 29 else 28) ∷ 31 ∷ 30 ∷ 31 ∷ 30 ∷ 31 ∷ 31 ∷ 30 ∷ 31 ∷ 30 ∷ 31 ∷ []

-- The loop over the months, `idx` of which are behind.
unfoldable pub month_loop : List ℕ → ℕ → ℕ → ℕ × ℕ
month_loop [] idx days = (12, 31)
month_loop (md ∷ months) idx days =
    let rest = month_loop months (idx + 1) (days - md) in
    if ltb days md then (idx + 1, days + 1) else rest

abbrev pub date_in_year : Option (ℕ × ℕ) → Option (ℕ × ℕ × ℕ)
date_in_year none = none
date_in_year (some (y, days)) =
    let (m, d) = month_loop (month_days (is_leap y)) 0 days in some (y, m, d)

unfoldable pub epoch_day_to_ymd : ℕ → Option (ℕ × ℕ × ℕ)
epoch_day_to_ymd days = date_in_year (year_loop (2 ^ 31 - 1 - 1970) 1970 days)

-- The decimal digits of a number, at most `fuel` of them, before `acc`.
unfoldable pub decimal : ℕ → ℕ → Bytes → Bytes
decimal zero n acc = acc
decimal (suc fuel) n acc =
    let rest = decimal fuel (n / 10) ((b'0' + n % 10) ∷ acc) in
    if ltb n 10 then (b'0' + n) ∷ acc else rest

abbrev pub padded : ℕ → Bytes → Bytes
padded width digits = replicate (width - length digits) b'0' ++ digits

-- `format!("{y:04}-{m:02}-{d:02}")`; a year has at most ten digits.
unfoldable pub date_text : ℕ × ℕ × ℕ → Bytes
unfolding decimal
date_text (y, m, d) =
    padded 4 (decimal 10 y [])
    ++ (b'-' ∷ (padded 2 (decimal 10 m []) ++ (b'-' ∷ padded 2 (decimal 10 d []))))
