-- ===== src/Planner/Operators.antt =====
-- crates/noedb-planner/src/eval.rs: the operators and the functions on values. Negating the least
-- integer is a panic, as in a build that checks for overflow (`overflow-checks` of the workspace).
use noe_db.Base.{
  ◌==◌, ◌%◌, Bool, true, false, not, ◌&&◌, List, [], ◌∷◌, map, Option, none, some, if◌then◌else◌,
  length, drop,
}
use noe_db.Base.Bytes.{Bytes, cmp_bytes, is_lt, is_gt}
use noe_db.Base.Int.{ℤ, ltb_int, leb_int, checked_neg}
use noe_db.Base.Text.{codes, starts_with, is_empty}
use noe_db.Sql.Ast.{
  Parts, Literal, literal_null, literal_integer, literal_float, literal_string, literal_boolean,
  BinaryOp, eq_op, ne_op, lt_op, gt_op, le_op, ge_op, and_op, or_op, plus_op, minus_op, div_op,
  mod_op, mul_op, like_op, distance_op, UnaryOp, unary_minus, unary_not,
}
use noe_db.Planner.Value.{
  Value, Std, ExecResult, ok, err, ◌>>=◌, ok_or, type_mismatch, unsupported_expr, of_bool,
  value_null, value_integer, value_float, value_bytes, value_bool, value_date, value_timestamp,
  value_vector, sql_eq, parse_bytes_as_f64, panic,
}
use noe_db.Planner.Cast.{parse_parts, parts_of, without_brackets}
use noe_db.Planner.Like.{sql_like}

module _ {P : Parts} where
  unfoldable pub literal_to_value : Literal P → Value P
  literal_to_value literal_null = value_null
  literal_to_value (literal_integer n) = value_integer n
  literal_to_value (literal_float f) = value_float f
  literal_to_value (literal_string s) = value_bytes s
  literal_to_value (literal_boolean b) = value_bool b

  -- The empty string counts as null here.
  abbrev pub is_sql_null : Value P → Bool
  is_sql_null value_null = true
  is_sql_null (value_bytes b) = is_empty b
  is_sql_null _ = false

  -- The integer, or the panic of an arithmetic that is checked for overflow.
  abbrev pub or_overflow : Option ℤ → ExecResult (Value P)
  or_overflow (some n) = ok (value_integer n)
  or_overflow none = panic

  abbrev pub is_bool : Bool → Value P → Bool
  is_bool b (value_bool true) = b
  is_bool b (value_bool false) = not b
  is_bool b _ = false

-- `*negated`: the answer is turned around.
abbrev pub negate_if : Bool → Bool → Bool
negate_if negated b = if negated then not b else b

abbrev pub apply_cmp : ℤ → ℤ → BinaryOp → Bool
apply_cmp a b lt_op = ltb_int a b
apply_cmp a b gt_op = ltb_int b a
apply_cmp a b le_op = leb_int a b
apply_cmp a b ge_op = leb_int b a
apply_cmp a b _ = false

abbrev pub apply_cmp_bytes : Bytes → Bytes → BinaryOp → Bool
apply_cmp_bytes a b lt_op = is_lt (cmp_bytes a b)
apply_cmp_bytes a b gt_op = is_gt (cmp_bytes a b)
apply_cmp_bytes a b le_op = not (is_gt (cmp_bytes a b))
apply_cmp_bytes a b ge_op = not (is_lt (cmp_bytes a b))
apply_cmp_bytes a b _ = false

-- `chunks_exact(4)`
unfoldable pub chunks_exact : Bytes → List Bytes
chunks_exact (a ∷ b ∷ c ∷ d ∷ rest) = (a ∷ b ∷ c ∷ d ∷ []) ∷ chunks_exact rest
chunks_exact _ = []

module _ {P : Parts} (std : Std P) where
  -- `a > b` and `a >= b` of floats are `b < a` and `b <= a`.
  abbrev pub apply_cmp_f : P.Float → P.Float → BinaryOp → Bool
  apply_cmp_f a b lt_op = std.lt_f64 a b
  apply_cmp_f a b gt_op = std.lt_f64 b a
  apply_cmp_f a b le_op = std.le_f64 a b
  apply_cmp_f a b ge_op = std.le_f64 b a
  apply_cmp_f a b _ = false

  abbrev pub coerce_numeric : Value P → Option P.Float
  coerce_numeric (value_integer n) = some (std.of_i64 n)
  coerce_numeric (value_float f) = some f
  coerce_numeric (value_bool b) = some (of_bool std b)
  coerce_numeric (value_bytes b) = parse_bytes_as_f64 std b
  coerce_numeric (value_timestamp ts) = some (std.of_i64 ts)
  coerce_numeric _ = none

  -- The comparison of two values that are not both numeric.
  abbrev pub cmp_same : Value P → Value P → BinaryOp → ExecResult Bool
  cmp_same (value_bytes a) (value_bytes b) op = ok (apply_cmp_bytes a b op)
  cmp_same (value_date a) (value_date b) op = ok (apply_cmp_bytes a b op)
  cmp_same (value_timestamp a) (value_timestamp b) op = ok (apply_cmp a b op)
  cmp_same _ _ op = err type_mismatch

  abbrev pub cmp_coerced :
      Option P.Float → Option P.Float → BinaryOp → ExecResult Bool → ExecResult Bool
  cmp_coerced (some a) (some b) op otherwise = ok (apply_cmp_f a b op)
  cmp_coerced (some a) none op otherwise = otherwise
  cmp_coerced none b op otherwise = otherwise

  unfoldable pub cmp_values : Value P → Value P → BinaryOp → ExecResult Bool
  cmp_values value_null r op = ok false
  cmp_values l value_null op = ok false
  cmp_values l r op = cmp_coerced (coerce_numeric l) (coerce_numeric r) op (cmp_same l r op)

  unfoldable pub like_match : Value P → Value P → Bool
  unfolding sql_like
  like_match (value_bytes text) (value_bytes pat) =
      sql_like (std.chars (std.from_utf8_lossy text)) (std.chars (std.from_utf8_lossy pat))
  like_match _ _ = false

  abbrev pub float_arithmetic : BinaryOp → P.Float → P.Float → ExecResult (Value P)
  float_arithmetic plus_op a b = ok (value_float (std.add a b))
  float_arithmetic minus_op a b = ok (value_float (std.sub a b))
  float_arithmetic div_op a b =
      if std.eq_f64 b std.zero_f64 then err type_mismatch else ok (value_float (std.div a b))
  float_arithmetic mul_op a b = ok (value_float (std.mul a b))
  float_arithmetic mod_op a b =
      if std.eq_f64 b std.zero_f64 then err type_mismatch else ok (value_float (std.rem a b))
  float_arithmetic _ a b = err unsupported_expr

  unfoldable pub eval_arithmetic : BinaryOp → Value P → Value P → ExecResult (Value P)
  eval_arithmetic op value_null r = ok value_null
  eval_arithmetic op l value_null = ok value_null
  eval_arithmetic op l r = do
    a ← ok_or type_mismatch (coerce_numeric l)
    b ← ok_or type_mismatch (coerce_numeric r)
    float_arithmetic op a b

  abbrev pub decode_ndv1 : Bytes → ExecResult (List P.Float32)
  decode_ndv1 bytes =
      if starts_with bytes (codes "NDV1")
      then (if length (drop 4 bytes) % 4 == 0
          then ok (map std.f32_of_le_bytes (chunks_exact (drop 4 bytes)))
          else err type_mismatch)
      else err type_mismatch

  abbrev pub parse_vector_literal_flexible : Bytes → ExecResult (List P.Float32)
  parse_vector_literal_flexible bytes = do
    s ← ok_or type_mismatch (std.from_utf8 bytes)
    if is_empty (without_brackets (std.trim s))
        then ok []
        else parse_parts std (parts_of (std.trim s))

  unfoldable pub vector_as_f32s : Value P → ExecResult (List P.Float32)
  unfolding starts_with chunks_exact parse_parts
  vector_as_f32s (value_vector v) = ok v
  vector_as_f32s (value_bytes b) =
      if starts_with b (codes "NDV1") then decode_ndv1 b else parse_vector_literal_flexible b
  vector_as_f32s _ = err type_mismatch

  abbrev pub squares : List P.Float32 → List P.Float32 → List P.Float
  squares (x ∷ xs) (y ∷ ys) =
      let d = std.sub (std.of_f32 x) (std.of_f32 y) in std.mul d d ∷ squares xs ys
  squares _ _ = []

  unfoldable pub vector_l2_distance : Value P → Value P → ExecResult P.Float
  unfolding vector_as_f32s
  vector_l2_distance left right = do
    a ← vector_as_f32s left
    b ← vector_as_f32s right
    if length a == length b then ok (std.sqrt (std.sum_f64 (squares a b))) else err type_mismatch

  abbrev pub of_equality : Bool → Option Bool → Value P
  of_equality negated none = value_null
  of_equality negated (some b) = value_bool (negate_if negated b)

  -- `AND` and `OR` look at the right operand only where the left one leaves the answer open.
  abbrev pub and_null : Value P → Value P
  and_null r = if is_bool false r then value_bool false else value_null

  abbrev pub or_null : Value P → Value P
  or_null r = if is_bool true r then value_bool true else value_null

  unfoldable pub and_values : Value P → ExecResult (Value P) → ExecResult (Value P)
  and_values (value_bool false) right = ok (value_bool false)
  and_values value_null right = do r ← right; ok (and_null r)
  and_values (value_bool true) right = right
  and_values _ right = err type_mismatch

  unfoldable pub or_values : Value P → ExecResult (Value P) → ExecResult (Value P)
  or_values (value_bool true) right = ok (value_bool true)
  or_values value_null right = do r ← right; ok (or_null r)
  or_values (value_bool false) right = right
  or_values _ right = err type_mismatch

  abbrev pub cmp_result : Value P → Value P → BinaryOp → ExecResult (Value P)
  cmp_result l r op = do b ← cmp_values l r op; ok (value_bool b)

  -- The operators that evaluate both operands.
  abbrev pub strict_binary : BinaryOp → Value P → Value P → ExecResult (Value P)
  strict_binary eq_op l r = ok (of_equality false (sql_eq std l r))
  strict_binary ne_op l r = ok (of_equality true (sql_eq std l r))
  strict_binary lt_op l r = cmp_result l r lt_op
  strict_binary gt_op l r = cmp_result l r gt_op
  strict_binary le_op l r = cmp_result l r le_op
  strict_binary ge_op l r = cmp_result l r ge_op
  strict_binary like_op l r = ok (value_bool (like_match l r))
  strict_binary plus_op l r = eval_arithmetic plus_op l r
  strict_binary minus_op l r = eval_arithmetic minus_op l r
  strict_binary div_op l r = eval_arithmetic div_op l r
  strict_binary mul_op l r = eval_arithmetic mul_op l r
  strict_binary mod_op l r = eval_arithmetic mod_op l r
  strict_binary distance_op l r = do d ← vector_l2_distance l r; ok (value_float d)
  strict_binary and_op l r = err unsupported_expr
  strict_binary or_op l r = err unsupported_expr

  abbrev pub both : BinaryOp → ExecResult (Value P) → ExecResult (Value P) → ExecResult (Value P)
  both op left right = do l ← left; r ← right; strict_binary op l r

  unfoldable pub eval_binary :
      BinaryOp → ExecResult (Value P) → ExecResult (Value P) → ExecResult (Value P)
  unfolding and_values or_values cmp_values like_match eval_arithmetic vector_l2_distance sql_eq
  eval_binary and_op left right = do l ← left; and_values l right
  eval_binary or_op left right = do l ← left; or_values l right
  eval_binary op left right = both op left right

  unfoldable pub eval_unary : UnaryOp → Value P → ExecResult (Value P)
  eval_unary unary_not (value_bool b) = ok (value_bool (not b))
  eval_unary unary_not value_null = ok value_null
  eval_unary unary_minus (value_integer n) = or_overflow (checked_neg n)
  eval_unary unary_minus (value_float f) = ok (value_float (std.neg f))
  eval_unary unary_minus value_null = ok value_null
  eval_unary _ _ = err type_mismatch

  abbrev pub between_values : Value P → Value P → Value P → Bool → ExecResult (Value P)
  between_values v lo hi negated = do
    ge ← cmp_values v lo ge_op
    le ← cmp_values v hi le_op
    ok (value_bool (negate_if negated (ge && le)))

  unfoldable pub eval_between : Value P → Value P → Value P → Bool → ExecResult (Value P)
  unfolding cmp_values
  eval_between value_null lo hi negated = ok (value_bool false)
  eval_between v value_null hi negated = ok (value_bool false)
  eval_between v lo value_null negated = ok (value_bool false)
  eval_between v lo hi negated = between_values v lo hi negated
