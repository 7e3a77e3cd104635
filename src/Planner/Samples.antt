-- ===== src/Planner/Samples.antt =====
-- A standard library for the examples: the floats are integers, and a string is read as no number.
use noe_db.Base.{ℕ, ◌==◌, [], none, some}
use noe_db.Base.Int.{ℤ, pos, ◌==ℤ◌, ltb_int, leb_int}
use noe_db.Sql.Ast.{Parts}
use noe_db.Planner.Value.{Std}

abbrev pub parts : Parts
parts = record { Float = ℤ; Float32 = ℕ; SelectStmt = ℕ; WindowSpec = ℕ }

abbrev pub std : Std parts
std = record {
  from_utf8 = λ b. some b;
  from_utf8_lossy = λ b. b;
  trim = λ b. b;
  to_uppercase = λ b. b;
  to_lowercase = λ b. b;
  chars = λ b. b;
  parse_i64 = λ b. none;
  parse_f64 = λ b. none;
  parse_f32 = λ b. none;
  show_i64 = λ n. [];
  show_f64 = λ f. [];
  show_f32 = λ f. [];
  of_i64 = λ n. n;
  trunc_to_i64 = λ f. f;
  of_f32 = λ f. pos f;
  f32_of_le_bytes = λ b. 0;
  zero_f64 = pos 0;
  one_f64 = pos 1;
  add = λ x y. y;
  sub = λ x y. x;
  mul = λ x y. x;
  div = λ x y. x;
  rem = λ x y. x;
  neg = λ x. x;
  abs = λ x. x;
  round = λ x. x;
  sqrt = λ x. x;
  sum_f64 = λ xs. pos 0;
  eq_f64 = ◌==ℤ◌;
  lt_f64 = ltb_int;
  le_f64 = leb_int;
  eq_f32 = ◌==◌;
}
