-- ===== src/Planner/Value/Equality.antt =====
-- crates/noedb-planner/src/value.rs: the order of the operands of an equality.
use noe_db.Base.{
  Bool, true, false, List, [], ◌∷◌, Option, some, none, ◌≡◌, refl, ◌==◌, ℕ, arith, sym,
}
use noe_db.Base.Bytes.{Bytes}
use noe_db.Base.Text.{eq_bytes}
use noe_db.Base.Int.{ℤ, pos, negsuc, ◌==ℤ◌}
use noe_db.Sql.Ast.{Parts}
use noe_db.Planner.Value.{
  Value, Std, value_null, value_integer, value_float, value_bytes, value_bool, value_date,
  value_timestamp, value_vector, sql_eq, eq_list, eq_parsed, eq_to_parsed, eq_bool,
  parse_bytes_as_f64,
}

==_comm : (m n : ℕ) → (m == n) ≡ (n == m)
==_comm m n = ground arith

==ℤ_comm : (m n : ℤ) → (m ==ℤ n) ≡ (n ==ℤ m)
==ℤ_comm (pos m) (pos n) = ==_comm m n
==ℤ_comm (pos m) (negsuc n) = refl
==ℤ_comm (negsuc m) (pos n) = refl
==ℤ_comm (negsuc m) (negsuc n) = ==_comm m n

eq_bytes_comm : (xs ys : Bytes) → eq_bytes xs ys ≡ eq_bytes ys xs
unfolding eq_bytes
eq_bytes_comm [] [] = refl
eq_bytes_comm [] (y ∷ ys) = refl
eq_bytes_comm (x ∷ xs) [] = refl
eq_bytes_comm (x ∷ xs) (y ∷ ys) = rw (==_comm x y, eq_bytes_comm xs ys)

eq_list_comm :
    {A : Type 0} (eq : A → A → Bool)
    → ((x y : A) → eq x y ≡ eq y x)
    → (xs ys : List A) → eq_list eq xs ys ≡ eq_list eq ys xs
unfolding eq_list
eq_list_comm eq h [] [] = refl
eq_list_comm eq h [] (y ∷ ys) = refl
eq_list_comm eq h (x ∷ xs) [] = refl
eq_list_comm eq h (x ∷ xs) (y ∷ ys) = rw (h x y, eq_list_comm eq h xs ys)

eq_bool_comm : (a b : Bool) → eq_bool a b ≡ eq_bool b a
eq_bool_comm true true = refl
eq_bool_comm true false = refl
eq_bool_comm false true = refl
eq_bool_comm false false = refl

module _ {P : Parts} (std : Std P) (eq_f64_comm : (x y : P.Float) → std.eq_f64 x y ≡ std.eq_f64 y x)
    (eq_f32_comm : (x y : P.Float32) → std.eq_f32 x y ≡ std.eq_f32 y x) where
  eq_parsed_comm : (o : Option P.Float) (y : P.Float) → eq_parsed std o y ≡ eq_to_parsed std y o
  eq_parsed_comm none y = refl
  eq_parsed_comm (some x) y = rw (eq_f64_comm x y)

  eq_to_parsed_comm : (x : P.Float) (o : Option P.Float) → eq_to_parsed std x o ≡ eq_parsed std o x
  eq_to_parsed_comm x none = refl
  eq_to_parsed_comm x (some y) = rw (eq_f64_comm x y)

  null_left : (v : Value P) → sql_eq std value_null v ≡ sql_eq std v value_null
  unfolding sql_eq
  null_left value_null = refl
  null_left v = refl

  -- Equality does not depend on the order of its operands, where that of the floats does not: not for
  -- two values of the same type, nor where a string is read as a number or as a truth value.
  pub sql_eq_comm : (v w : Value P) → sql_eq std v w ≡ sql_eq std w v
  unfolding sql_eq
  sql_eq_comm value_null w = null_left w
  sql_eq_comm v value_null = sym (null_left v)
  sql_eq_comm (value_integer a) (value_integer b) = rw (==ℤ_comm a b)
  sql_eq_comm (value_timestamp a) (value_timestamp b) = rw (==ℤ_comm a b)
  sql_eq_comm (value_float a) (value_float b) = rw (eq_f64_comm a b)
  sql_eq_comm (value_bool a) (value_bool b) = rw (eq_bool_comm a b)
  sql_eq_comm (value_bytes a) (value_bytes b) = rw (eq_bytes_comm a b)
  sql_eq_comm (value_date a) (value_date b) = rw (eq_bytes_comm a b)
  sql_eq_comm (value_vector a) (value_vector b) = rw (eq_list_comm std.eq_f32 eq_f32_comm a b)
  sql_eq_comm (value_integer a) (value_float b) = rw (eq_f64_comm (std.of_i64 a) b)
  sql_eq_comm (value_float a) (value_integer b) = rw (eq_f64_comm a (std.of_i64 b))
  sql_eq_comm (value_bytes a) (value_integer b) =
      eq_parsed_comm (parse_bytes_as_f64 std a) (std.of_i64 b)
  sql_eq_comm (value_integer a) (value_bytes b) =
      eq_to_parsed_comm (std.of_i64 a) (parse_bytes_as_f64 std b)
  sql_eq_comm (value_bytes a) (value_float b) = eq_parsed_comm (parse_bytes_as_f64 std a) b
  sql_eq_comm (value_float a) (value_bytes b) = eq_to_parsed_comm a (parse_bytes_as_f64 std b)
  sql_eq_comm v w = refl
