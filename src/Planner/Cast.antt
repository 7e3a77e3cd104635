-- ===== src/Planner/Cast.antt =====
-- crates/noedb-planner/src/cast.rs: `CAST`. `unreachable!()` is a panic.
pub mod Types
pub mod Dates
use noe_db.Base.{
  ℕ, zero, suc, ◌==◌, Bool, true, false, not, ◌&&◌, ◌||◌, leb, List, [], ◌∷◌, ◌++◌, Option, none,
  some, if◌then◌else◌, length, get_or, map, ◌/◌,
}
use noe_db.Base.Bytes.{Bytes}
use noe_db.Base.Int.{ℤ, pos, negsuc, ◌==ℤ◌}
use noe_db.Base.Text.{
  codes, eq_bytes, to_ascii_uppercase, to_ascii_lowercase, trim_start_matches, trim_end_matches,
  split, is_empty, all_bytes, one_of,
}
use noe_db.Sql.Ast.{
  Parts, SqlType, sql_int, sql_boolean, sql_float, sql_text, sql_date, sql_timestamp, sql_varchar,
  sql_vector, sql_named,
}
use noe_db.Planner.Value.{
  Value, Std, ExecResult, ok, err, panic, ◌>>=◌, ok_or, type_mismatch, of_bool, value_null,
  value_integer, value_float, value_bytes, value_bool, value_date, value_timestamp, value_vector,
}
use noe_db.Planner.Calendar.{epoch_day_to_ymd, date_text}

-- `ts.max(0) as u64`
abbrev pub seconds : ℤ → ℕ
seconds (pos n) = n
seconds (negsuc n) = 0

-- A year past `i32` is a panic, that of a build which checks for overflow.
abbrev pub or_panic : Option (ℕ × ℕ × ℕ) → ExecResult (ℕ × ℕ × ℕ)
or_panic none = panic
or_panic (some date) = ok date

unfoldable pub timestamp_to_date_bytes : ℤ → ExecResult Bytes
unfolding epoch_day_to_ymd date_text
timestamp_to_date_bytes ts = do
  date ← or_panic (epoch_day_to_ymd (seconds ts / 86400))
  ok (date_text date)

abbrev pub without_brackets : Bytes → Bytes
without_brackets s = trim_end_matches b']' (trim_start_matches b'[' s)

-- The parts of a vector's literal
abbrev pub parts_of : Bytes → List Bytes
parts_of s = split b',' (without_brackets s)

-- A character that is no ASCII digit and no dash has no byte that is one.
abbrev pub digit_or_dash : ℕ → Bool
digit_or_dash c = (leb b'0' c && leb c b'9') || (c == b'-')

module _ {P : Parts} (std : Std P) where
  abbrev pub trimmed : Bytes → ExecResult Bytes
  trimmed b = do s ← ok_or type_mismatch (std.from_utf8 b); ok (std.trim s)

  unfoldable pub parse_int_bytes : Bytes → ExecResult ℤ
  parse_int_bytes b = do s ← trimmed b; ok_or type_mismatch (std.parse_i64 s)

  unfoldable pub parse_float_bytes : Bytes → ExecResult P.Float
  parse_float_bytes b = do s ← trimmed b; ok_or type_mismatch (std.parse_f64 s)

  abbrev pub bool_of_word : Bytes → ExecResult Bool
  bool_of_word s =
      if one_of (codes "true" ∷ codes "t" ∷ codes "1" ∷ codes "yes" ∷ []) s
      then ok true
      else if one_of (codes "false" ∷ codes "f" ∷ codes "0" ∷ codes "no" ∷ [] ∷ []) s
      then ok false
      else err type_mismatch

  unfoldable pub parse_bool_bytes : Bytes → ExecResult Bool
  unfolding one_of to_ascii_lowercase
  parse_bool_bytes b = do s ← trimmed b; bool_of_word (to_ascii_lowercase s)

  unfoldable pub normalize_date_bytes : Bytes → ExecResult Bytes
  normalize_date_bytes b = do
    s ← trimmed b
    if (length s == 10) && (get_or s 4 0 == b'-') && (get_or s 7 0 == b'-')
        then ok s
        else err type_mismatch

  unfoldable pub parse_timestamp_bytes : Bytes → ExecResult ℤ
  unfolding all_bytes
  parse_timestamp_bytes b = do
    s ← trimmed b
    if all_bytes digit_or_dash s
        then (if length s == 10 then ok (pos 0) else ok_or type_mismatch (std.parse_i64 s))
        else err type_mismatch

  abbrev pub with_part : Bytes → ExecResult (List P.Float32) → ExecResult (List P.Float32)
  with_part p rest = do x ← ok_or type_mismatch (std.parse_f32 (std.trim p)); xs ← rest; ok (x ∷ xs)

  -- The numbers of a vector's literal: the parts that are not empty after `trim`.
  unfoldable pub parse_parts : List Bytes → ExecResult (List P.Float32)
  parse_parts [] = ok []
  parse_parts (p ∷ ps) =
      let rest = parse_parts ps in if is_empty (std.trim p) then rest else with_part p rest

  unfoldable pub parse_vector_literal : Bytes → ℕ → ExecResult (List P.Float32)
  unfolding parse_parts split trim_start_matches trim_end_matches
  parse_vector_literal bytes dim = do
    s ← trimmed bytes
    floats ← parse_parts (parts_of s)
    if length floats == dim then ok floats else err type_mismatch

  abbrev pub join_f32s : List P.Float32 → Bytes
  join_f32s [] = []
  join_f32s (x ∷ []) = std.show_f32 x
  join_f32s (x ∷ xs) = std.show_f32 x ++ (b',' ∷ join_f32s xs)

  unfoldable pub value_to_string : Value P → Bytes
  value_to_string value_null = codes "NULL"
  value_to_string (value_integer n) = std.show_i64 n
  value_to_string (value_float f) = std.show_f64 f
  value_to_string (value_bool true) = codes "true"
  value_to_string (value_bool false) = codes "false"
  value_to_string (value_bytes b) = std.from_utf8_lossy b
  value_to_string (value_date b) = std.from_utf8_lossy b
  value_to_string (value_timestamp ts) = std.show_i64 ts
  value_to_string (value_vector v) = b'[' ∷ (join_f32s v ++ (b']' ∷ []))

  abbrev pub cast_to_text : Value P → ExecResult (Value P)
  cast_to_text v = ok (value_bytes (value_to_string v))

  abbrev pub int_of : Value P → ExecResult ℤ
  int_of (value_integer n) = ok n
  int_of (value_float f) = ok (std.trunc_to_i64 f)
  int_of (value_bool true) = ok (pos 1)
  int_of (value_bool false) = ok (pos 0)
  int_of (value_bytes b) = parse_int_bytes b
  int_of (value_date b) = parse_int_bytes b
  int_of (value_timestamp ts) = ok ts
  int_of value_null = panic
  int_of (value_vector v) = err type_mismatch

  unfoldable pub cast_to_int : Value P → ExecResult (Value P)
  unfolding parse_int_bytes
  cast_to_int val = do n ← int_of val; ok (value_integer n)

  abbrev pub float_of : Value P → ExecResult P.Float
  float_of (value_integer n) = ok (std.of_i64 n)
  float_of (value_float f) = ok f
  float_of (value_bool b) = ok (of_bool std b)
  float_of (value_bytes b) = parse_float_bytes b
  float_of (value_date b) = parse_float_bytes b
  float_of (value_timestamp ts) = ok (std.of_i64 ts)
  float_of value_null = panic
  float_of (value_vector v) = err type_mismatch

  unfoldable pub cast_to_float : Value P → ExecResult (Value P)
  unfolding parse_float_bytes
  cast_to_float val = do f ← float_of val; ok (value_float f)

  abbrev pub bool_of : Value P → ExecResult Bool
  bool_of (value_bool b) = ok b
  bool_of (value_integer n) = ok (not (n ==ℤ pos 0))
  bool_of (value_float f) = ok (not (std.eq_f64 f std.zero_f64))
  bool_of (value_bytes b) = parse_bool_bytes b
  bool_of (value_date b) = ok (not (is_empty b))
  bool_of (value_timestamp ts) = ok (not (ts ==ℤ pos 0))
  bool_of value_null = panic
  bool_of (value_vector v) = err type_mismatch

  unfoldable pub cast_to_bool : Value P → ExecResult (Value P)
  unfolding parse_bool_bytes
  cast_to_bool val = do b ← bool_of val; ok (value_bool b)

  abbrev pub date_of : Value P → ExecResult Bytes
  date_of (value_date b) = normalize_date_bytes b
  date_of (value_bytes b) = normalize_date_bytes b
  date_of (value_timestamp ts) = timestamp_to_date_bytes ts
  date_of (value_integer n) = timestamp_to_date_bytes n
  date_of (value_float f) = timestamp_to_date_bytes (std.trunc_to_i64 f)
  date_of (value_bool b) = err type_mismatch
  date_of value_null = panic
  date_of (value_vector v) = err type_mismatch

  unfoldable pub cast_to_date : Value P → ExecResult (Value P)
  unfolding normalize_date_bytes timestamp_to_date_bytes
  cast_to_date val = do b ← date_of val; ok (value_date b)

  abbrev pub timestamp_of : Value P → ExecResult ℤ
  timestamp_of (value_timestamp ts) = ok ts
  timestamp_of (value_integer n) = ok n
  timestamp_of (value_float f) = ok (std.trunc_to_i64 f)
  timestamp_of (value_bytes b) = parse_timestamp_bytes b
  timestamp_of (value_date b) = parse_timestamp_bytes b
  timestamp_of (value_bool b) = err type_mismatch
  timestamp_of value_null = panic
  timestamp_of (value_vector v) = err type_mismatch

  unfoldable pub cast_to_timestamp : Value P → ExecResult (Value P)
  unfolding parse_timestamp_bytes
  cast_to_timestamp val = do ts ← timestamp_of val; ok (value_timestamp ts)

  abbrev pub vector_of : Value P → ℕ → ExecResult (List P.Float32)
  vector_of (value_vector v) dim = ok v
  vector_of (value_bytes b) dim = parse_vector_literal b dim
  vector_of _ dim = err type_mismatch

  unfoldable pub cast_to_vector : Value P → ℕ → ExecResult (Value P)
  unfolding parse_vector_literal
  cast_to_vector val dim = do
    floats ← vector_of val dim
    if length floats == dim then ok (value_vector floats) else err type_mismatch

  -- The target of a `CAST` to a type that is named.
  abbrev pub cast_named : Value P → Bytes → ExecResult (Value P)
  cast_named val name =
      if one_of (codes "INT" ∷ codes "INTEGER" ∷ codes "BIGINT" ∷ []) name
      then cast_to_int val
      else if one_of (codes "FLOAT" ∷ codes "REAL" ∷ codes "DOUBLE" ∷ []) name
      then cast_to_float val
      else if one_of (codes "BOOLEAN" ∷ codes "BOOL" ∷ []) name
      then cast_to_bool val
      else if one_of (codes "TEXT" ∷ []) name
      then cast_to_text val
      else if one_of (codes "DATE" ∷ []) name
      then cast_to_date val
      else if one_of (codes "TIMESTAMP" ∷ codes "TIMESTAMPTZ" ∷ []) name
      then cast_to_timestamp val
      else err type_mismatch

  abbrev pub cast_known : Value P → SqlType → ExecResult (Value P)
  cast_known val sql_int = cast_to_int val
  cast_known val sql_float = cast_to_float val
  cast_known val sql_boolean = cast_to_bool val
  cast_known val (sql_varchar n) = cast_to_text val
  cast_known val sql_text = cast_to_text val
  cast_known val sql_date = cast_to_date val
  cast_known val sql_timestamp = cast_to_timestamp val
  cast_known val (sql_vector dim) = cast_to_vector val dim
  cast_known val (sql_named name) = cast_named val (to_ascii_uppercase name)

  unfoldable pub cast_value : Value P → SqlType → ExecResult (Value P)
  unfolding one_of to_ascii_uppercase cast_to_int cast_to_float cast_to_bool cast_to_date
      cast_to_timestamp cast_to_vector value_to_string
  cast_value value_null ty = ok value_null
  cast_value val ty = cast_known val ty
