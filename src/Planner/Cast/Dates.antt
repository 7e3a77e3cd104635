-- ===== src/Planner/Cast/Dates.antt =====
-- crates/noedb-planner/src/cast.rs: a `CAST` of a timestamp to a date, and back.
use noe_db.Base.{
  ℕ, zero, suc, ◌+◌, ◌-◌, ◌/◌, ◌%◌, ◌^◌, ◌≤◌, ◌<◌, Bool, true, ltb, [], ◌∷◌, ◌++◌, some, ◌≡◌, refl,
  arith, Bool-cases, inl, inr, length, replicate, length-append, length-replicate,
}
use native.Mathlib.Nat.{pow-suc}
use noe_db.Base.Bytes.{Bytes}
use noe_db.Base.Text.{all_bytes}
use noe_db.Sql.Ast.{Parts, sql_date, sql_timestamp}
use noe_db.Base.Int.{pos}
use noe_db.Planner.Value.{Std, ok, value_timestamp, value_date, ◌>>=◌}
use noe_db.Planner.Calendar.{decimal, padded, date_text}
use noe_db.Planner.Calendar.Days.{days_of_date, IsDate, epoch_day_to_ymd_iff}
use noe_db.Planner.Cast.{
  cast_value, cast_to_date, cast_to_timestamp, timestamp_to_date_bytes, parse_timestamp_bytes,
  digit_or_dash,
}

abbrev pub date_bytes : Bytes → Bool
date_bytes xs = all_bytes digit_or_dash xs

date_bytes-append :
    (xs ys : Bytes) → date_bytes xs ≡ true → date_bytes ys ≡ true → date_bytes (xs ++ ys) ≡ true
unfolding all_bytes
date_bytes-append [] ys h k = k
date_bytes-append (x ∷ xs) ys h k = ground (arith, date_bytes-append xs ys)

date_bytes-decimal :
    (fuel n : ℕ) (acc : Bytes) → date_bytes acc ≡ true → date_bytes (decimal fuel n acc) ≡ true
unfolding decimal all_bytes
date_bytes-decimal zero n acc h = h
date_bytes-decimal (suc fuel) n acc h = elim (Bool-cases (ltb n 10)) [
  | inl small ↦ rw small (ground arith)
  | inr large ↦ rw large (date_bytes-decimal fuel (n / 10) _ (ground arith))
]

length-decimal :
    (k fuel n : ℕ) (acc : Bytes) → n < 10 ^ suc k → length (decimal fuel n acc) ≤ suc k + length acc
unfolding decimal
length-decimal k zero n acc h = omega arith
length-decimal zero (suc fuel) n acc h = elim (Bool-cases (ltb n 10)) [
  | inl small ↦ rw small (omega arith)
  | inr large ↦ absurd (ground arith)
]
length-decimal (suc k) (suc fuel) n acc h = elim (Bool-cases (ltb n 10)) [
  | inl small ↦ rw small (omega arith)
  | inr large ↦
      let fewer : n / 10 < 10 ^ suc k = omega (arith, pow-suc 10 (suc k)) in
      rw large (omega (arith, length-decimal k fuel (n / 10) ((b'0' + n % 10) ∷ acc) fewer))
]

date_bytes-replicate : (n : ℕ) → date_bytes (replicate n b'0') ≡ true
unfolding all_bytes
date_bytes-replicate zero = refl
date_bytes-replicate (suc n) = date_bytes-replicate n

date_bytes-padded : (width n : ℕ) → date_bytes (padded width (decimal 10 n [])) ≡ true
unfolding all_bytes
date_bytes-padded width n =
    date_bytes-append (replicate (width - length (decimal 10 n [])) b'0') (decimal 10 n [])
      (date_bytes-replicate (width - length (decimal 10 n []))) (date_bytes-decimal 10 n [] refl)

length-padded :
    (width n : ℕ) → n < 10 ^ suc width → length (padded (suc width) (decimal 10 n [])) ≡ suc width
length-padded width n h = omega (
  arith,
  length-decimal width 10 n [] h,
  length-append (replicate (suc width - length (decimal 10 n [])) b'0') (decimal 10 n []),
  length-replicate {A = ℕ} (suc width - length (decimal 10 n [])) b'0',
)

date_bytes-date_text : (y m d : ℕ) → date_bytes (date_text (y, m, d)) ≡ true
unfolding date_text all_bytes
date_bytes-date_text y m d =
    date_bytes-append (padded 4 (decimal 10 y [])) _ (date_bytes-padded 4 y) (
      date_bytes-append (padded 2 (decimal 10 m [])) (b'-' ∷ padded 2 (decimal 10 d []))
        (date_bytes-padded 2 m) (date_bytes-padded 2 d))

length-date_text : (y m d : ℕ) → y < 10000 → m < 100 → d < 100 → length (date_text (y, m, d)) ≡ 10
unfolding date_text
length-date_text y m d a b c = omega (
  arith,
  length-append (padded 4 (decimal 10 y []))
      (b'-' ∷ (padded 2 (decimal 10 m []) ++ (b'-' ∷ padded 2 (decimal 10 d [])))),
  length-append (padded 2 (decimal 10 m [])) (b'-' ∷ padded 2 (decimal 10 d [])),
  length-padded 3 y a,
  length-padded 1 m b,
  length-padded 1 d c,
)

module _ {P : Parts} (std : Std P) (n : ℕ) where
  -- A `CAST` of a timestamp from the epoch on to a date gives the text of the date that is
  -- `n / 86400` days after the epoch in the calendar, up to the year 2 ^ 31 - 1.
  pub cast_value-date :
      (y m d : ℕ)
      → y < 2 ^ 31
      → IsDate y m d
      → days_of_date y m d ≡ n / 86400
      → cast_value std (value_timestamp (pos n)) sql_date ≡ ok (value_date (date_text (y, m, d)))
  unfolding cast_value cast_to_date timestamp_to_date_bytes
  cast_value-date y m d a date day = rw ((epoch_day_to_ymd_iff (n / 86400) y m d a).1 (date, day))

  -- Where the standard library leaves a string of digits and dashes as it is, the `CAST` of a
  -- timestamp to a date and back to a timestamp gives the epoch, up to the year 9999, whatever the
  -- date is.
  pub cast_value-timestamp_of_date :
      ((s : Bytes) → date_bytes s ≡ true → std.from_utf8 s ≡ some s)
      → ((s : Bytes) → date_bytes s ≡ true → std.trim s ≡ s)
      → (y m d : ℕ) → y < 10000
      → IsDate y m d
      → days_of_date y m d ≡ n / 86400
      → (cast_value std (value_timestamp (pos n)) sql_date >>= λ v. cast_value std v sql_timestamp)
        ≡ ok (value_timestamp (pos 0))
  unfolding cast_value cast_to_date cast_to_timestamp timestamp_to_date_bytes parse_timestamp_bytes
  cast_value-timestamp_of_date utf8 trims y m d a date day =
      let bytes = date_bytes-date_text y m d in
      rw (
        (epoch_day_to_ymd_iff (n / 86400) y m d (omega arith)).1 (date, day),
        utf8 (date_text (y, m, d)) bytes,
        trims (date_text (y, m, d)) bytes,
        bytes,
        length-date_text y m d a (omega arith) (ground arith),
      )
