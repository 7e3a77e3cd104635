-- ===== src/Planner/Value.antt =====
-- crates/noedb-planner/src (value.rs, lib.rs): the values of the cells, the outcomes of evaluation, and
-- what is used of the standard library. A panic is an outcome of its own.
pub mod Equality
use noe_db.Base.{ℕ, Bool, true, false, not, ◌&&◌, ◌==◌, Option, none, some, List, [], ◌∷◌}
use noe_db.Base.Bytes.{Bytes}
use noe_db.Base.Int.{ℤ, ◌==ℤ◌}
use noe_db.Base.Text.{eq_bytes}
use noe_db.Sql.Ast.{Parts}

-- The messages of the errors are left out, and the errors that evaluation never makes.
pub data ExecError : Type 0 where
  unsupported_expr type_mismatch : ExecError
  unknown_column : Bytes → ExecError

pub data ExecResult {ℓ} (A : Type ℓ) : Type ℓ where
  ok : A → ExecResult A
  err : ExecError → ExecResult A
  panic : ExecResult A

infixl 5 ◌>>=◌
abbrev pub ◌>>=◌ {ℓ κ} :
    {A : Type ℓ} {B : Type κ} → ExecResult A → (A → ExecResult B) → ExecResult B
ok a >>= f = f a
err e >>= f = err e
panic >>= f = panic

-- `o.ok_or(e)`
abbrev pub ok_or {ℓ} : {A : Type ℓ} → ExecError → Option A → ExecResult A
ok_or e none = err e
ok_or e (some a) = ok a

-- What is used of the floats and the strings of the standard library. A character is its number.
pub record Std (P : Parts) : Type 0 where
  pub from_utf8 : Bytes → Option Bytes
  pub from_utf8_lossy : Bytes → Bytes
  pub trim : Bytes → Bytes
  pub to_uppercase : Bytes → Bytes
  pub to_lowercase : Bytes → Bytes
  pub chars : Bytes → List ℕ
  pub parse_i64 : Bytes → Option ℤ
  pub parse_f64 : Bytes → Option P.Float
  pub parse_f32 : Bytes → Option P.Float32
  pub show_i64 : ℤ → Bytes
  pub show_f64 : P.Float → Bytes
  pub show_f32 : P.Float32 → Bytes
  pub of_i64 : ℤ → P.Float
  pub trunc_to_i64 : P.Float → ℤ
  pub of_f32 : P.Float32 → P.Float
  pub f32_of_le_bytes : Bytes → P.Float32
  pub zero_f64 : P.Float
  pub one_f64 : P.Float
  pub add : P.Float → P.Float → P.Float
  pub sub : P.Float → P.Float → P.Float
  pub mul : P.Float → P.Float → P.Float
  pub div : P.Float → P.Float → P.Float
  pub rem : P.Float → P.Float → P.Float
  pub neg : P.Float → P.Float
  pub abs : P.Float → P.Float
  pub round : P.Float → P.Float
  pub sqrt : P.Float → P.Float
  pub sum_f64 : List P.Float → P.Float
  pub eq_f64 : P.Float → P.Float → Bool
  pub lt_f64 : P.Float → P.Float → Bool
  pub le_f64 : P.Float → P.Float → Bool
  pub eq_f32 : P.Float32 → P.Float32 → Bool

-- `f64::from(b)`
abbrev pub of_bool : {P : Parts} → Std P → Bool → P.Float
of_bool std true = std.one_f64
of_bool std false = std.zero_f64

module _ (P : Parts) where
  pub data Value : Type 0 where
    value_null : Value
    value_integer : ℤ → Value
    value_float : P.Float → Value
    value_bytes : Bytes → Value
    value_bool : Bool → Value
    value_date : Bytes → Value
    value_timestamp : ℤ → Value
    value_vector : List P.Float32 → Value

  abbrev pub Row : Type 0
  Row = List (Bytes × Value)

abbrev pub is_null_value : {P : Parts} → Value P → Bool
is_null_value value_null = true
is_null_value _ = false

-- The equality of a `Vec`.
unfoldable pub eq_list : {A : Type 0} → (A → A → Bool) → List A → List A → Bool
eq_list eq [] [] = true
eq_list eq [] (y ∷ ys) = false
eq_list eq (x ∷ xs) [] = false
eq_list eq (x ∷ xs) (y ∷ ys) = eq x y && eq_list eq xs ys

abbrev pub eq_bool : Bool → Bool → Bool
eq_bool true b = b
eq_bool false b = not b

-- `Some(*a == (b[0] != 0))` for a string of one byte
abbrev pub eq_byte : Bool → Bytes → Option Bool
eq_byte a (x ∷ []) = some (eq_bool a (not (x == 0)))
eq_byte a _ = some false

module _ {P : Parts} (std : Std P) where
  abbrev pub trim_and_parse : Option Bytes → Option P.Float
  trim_and_parse none = none
  trim_and_parse (some s) = std.parse_f64 (std.trim s)

  abbrev pub parse_bytes_as_f64 : Bytes → Option P.Float
  parse_bytes_as_f64 b = trim_and_parse (std.from_utf8 b)

  abbrev pub eq_parsed : Option P.Float → P.Float → Option Bool
  eq_parsed none y = none
  eq_parsed (some x) y = some (std.eq_f64 x y)

  abbrev pub eq_to_parsed : P.Float → Option P.Float → Option Bool
  eq_to_parsed x none = none
  eq_to_parsed x (some y) = some (std.eq_f64 x y)

  -- Equality with the `NULL` of SQL: `none` if it is not known.
  unfoldable pub sql_eq : Value P → Value P → Option Bool
  unfolding eq_bytes eq_list
  sql_eq value_null value_null = some true
  sql_eq value_null _ = none
  sql_eq _ value_null = none
  sql_eq (value_integer a) (value_integer b) = some (a ==ℤ b)
  sql_eq (value_float a) (value_float b) = some (std.eq_f64 a b)
  sql_eq (value_bool a) (value_bool b) = some (eq_bool a b)
  sql_eq (value_bool a) (value_bytes b) = eq_byte a b
  sql_eq (value_bytes b) (value_bool a) = eq_byte a b
  sql_eq (value_bytes a) (value_bytes b) = some (eq_bytes a b)
  sql_eq (value_date a) (value_date b) = some (eq_bytes a b)
  sql_eq (value_timestamp a) (value_timestamp b) = some (a ==ℤ b)
  sql_eq (value_vector a) (value_vector b) = some (eq_list std.eq_f32 a b)
  sql_eq (value_integer a) (value_float b) = some (std.eq_f64 (std.of_i64 a) b)
  sql_eq (value_float a) (value_integer b) = some (std.eq_f64 a (std.of_i64 b))
  sql_eq (value_bytes a) (value_integer b) = eq_parsed (parse_bytes_as_f64 a) (std.of_i64 b)
  sql_eq (value_integer a) (value_bytes b) = eq_to_parsed (std.of_i64 a) (parse_bytes_as_f64 b)
  sql_eq (value_bytes a) (value_float b) = eq_parsed (parse_bytes_as_f64 a) b
  sql_eq (value_float a) (value_bytes b) = eq_to_parsed a (parse_bytes_as_f64 b)
  sql_eq _ _ = some false
