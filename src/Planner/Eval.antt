-- ===== src/Planner/Eval.antt =====
-- crates/noedb-planner/src/eval.rs: the evaluation of expressions. An operand that the source leaves
-- unevaluated is evaluated here too, and its outcome not looked at.
pub mod Typing
pub mod Logic
use noe_db.Base.{
  ℕ, Bool, true, false, not, ◌||◌, List, [], ◌∷◌, Option, none, some, if◌then◌else◌, length, ◌^◌,
  ◌-◌, min,
}
use noe_db.Base.Bytes.{Bytes}
use noe_db.Base.Int.{ℤ, pos, checked_abs}
use noe_db.Base.Text.{codes, eq_bytes, to_ascii_uppercase}
use noe_db.Sql.Ast.{
  Parts, BinaryOp, UnaryOp, Expr, Exprs, literal, column, binary, unary, is_null, in_values,
  in_subquery, exists_subquery, scalar_subquery, between, paren, param, current_user, cast_as,
  function, no_exprs, one_more,
}
use noe_db.Planner.Value.{
  Value, Row, Std, ExecResult, ok, err, panic, ◌>>=◌, ok_or, type_mismatch, unsupported_expr,
  value_null, value_integer, value_float, value_bytes, value_bool, is_null_value, sql_eq,
  parse_bytes_as_f64,
}
use noe_db.Planner.Row.{resolve}
use noe_db.Planner.Cast.{cast_value}
use noe_db.Planner.Operators.{
  literal_to_value, is_sql_null, negate_if, eval_binary, eval_unary, eval_between, or_overflow,
}

-- `Some(true)`
abbrev pub is_true : Option Bool → Bool
is_true (some b) = b
is_true none = false

module _ {P : Parts} (std : Std P) where
  abbrev pub string_unary : (Bytes → Bytes) → Value P → ExecResult (Value P)
  string_unary f value_null = ok value_null
  string_unary f (value_bytes b) = ok (value_bytes (f (std.from_utf8_lossy b)))
  string_unary f _ = err type_mismatch

  -- `i64::try_from(n).unwrap_or(i64::MAX)`
  abbrev pub length_value : Value P → ExecResult (Value P)
  length_value value_null = ok value_null
  length_value (value_bytes b) =
      ok (value_integer (pos (min (length (std.chars (std.from_utf8_lossy b))) (2 ^ 63 - 1))))
  length_value _ = err type_mismatch

  abbrev pub abs_value : Value P → ExecResult (Value P)
  abs_value value_null = ok value_null
  abs_value (value_integer n) = or_overflow (checked_abs n)
  abs_value (value_float f) = ok (value_float (std.abs f))
  abs_value _ = err type_mismatch

  abbrev pub round_value : Value P → ExecResult (Value P)
  round_value value_null = ok value_null
  round_value (value_integer n) = ok (value_integer n)
  round_value (value_float f) = ok (value_float (std.round f))
  round_value (value_bytes b) = do
    n ← ok_or type_mismatch (parse_bytes_as_f64 std b)
    ok (value_float (std.round n))
  round_value _ = err type_mismatch

  -- The outcomes of the first argument, a panic if there is none, and of the first that is not null.
  unfoldable pub call_scalar :
      Bytes → ExecResult (Value P) → ExecResult (Value P) → ExecResult (Value P)
  unfolding eq_bytes
  call_scalar name first coalesced =
      if eq_bytes name (codes "UPPER")
      then (do v ← first; string_unary std.to_uppercase v)
      else if eq_bytes name (codes "LOWER")
      then (do v ← first; string_unary std.to_lowercase v)
      else if eq_bytes name (codes "LENGTH")
      then (do v ← first; length_value v)
      else if eq_bytes name (codes "TRIM")
      then (do v ← first; string_unary std.trim v)
      else if eq_bytes name (codes "COALESCE")
      then coalesced
      else if eq_bytes name (codes "ABS")
      then (do v ← first; abs_value v)
      else if eq_bytes name (codes "ROUND")
      then (do v ← first; round_value v)
      else err unsupported_expr

  -- A literal or a parameter on the right of `IN` is evaluated with no row.
  abbrev pub rhs_row : Expr P → Row P → Row P
  rhs_row (literal l) row = []
  rhs_row (param n) row = []
  rhs_row _ row = row

  abbrev pub coalesce_step : Value P → ExecResult (Value P) → ExecResult (Value P)
  coalesce_step v rest = if is_null_value v then rest else ok v

  abbrev pub found_step : Bool → ExecResult Bool → ExecResult Bool
  found_step true rest = ok true
  found_step false rest = rest

  abbrev pub is_null_result : Bool → Value P → Value P
  is_null_result negated v = value_bool (negate_if negated (is_sql_null v))

  abbrev pub in_result : Bool → Bool → Value P
  in_result negated found = value_bool (negate_if negated found)

  abbrev pub unless_over : Option P.WindowSpec → ExecResult (Value P) → ExecResult (Value P)
  unless_over none r = r
  unless_over (some w) r = err unsupported_expr

  unfoldable mutual
    unfolding call_scalar resolve literal_to_value eval_binary eval_unary eval_between cast_value
        sql_eq to_ascii_uppercase

    pub eval_expr : Expr P → Row P → ExecResult (Value P)
    eval_expr (literal l) row = ok (literal_to_value l)
    eval_expr (column c) row = resolve c row
    eval_expr (unary op e) row = do v ← eval_expr e row; eval_unary std op v
    eval_expr (binary op l r) row = eval_binary std op (eval_expr l row) (eval_expr r row)
    eval_expr (is_null e negated) row = do v ← eval_expr e row; ok (is_null_result negated v)
    eval_expr (in_values e values negated) row = do
      v ← eval_expr e row
      found ← eval_in v values row
      ok (in_result negated found)
    eval_expr (cast_as e ty) row = do v ← eval_expr e row; cast_value std v ty
    eval_expr (between e low high negated) row = do
      v ← eval_expr e row
      lo ← eval_expr low row
      hi ← eval_expr high row
      eval_between std v lo hi negated
    eval_expr (in_subquery e s negated) row = err unsupported_expr
    eval_expr (exists_subquery s negated) row = err unsupported_expr
    eval_expr (scalar_subquery s) row = err unsupported_expr
    eval_expr (param n) row = err unsupported_expr
    eval_expr current_user row = err unsupported_expr
    eval_expr (function name args over) row =
        unless_over over
          (call_scalar (to_ascii_uppercase name) (eval_first args row) (eval_coalesce args row))
    eval_expr (paren e) row = eval_expr e row

    -- `eval_expr(&args[0], row)`
    pub eval_first : Exprs P → Row P → ExecResult (Value P)
    eval_first no_exprs row = panic
    eval_first (one_more e es) row = eval_expr e row

    -- The loop of `COALESCE`.
    pub eval_coalesce : Exprs P → Row P → ExecResult (Value P)
    eval_coalesce no_exprs row = ok value_null
    eval_coalesce (one_more e es) row = do
      v ← eval_expr e row
      coalesce_step v (eval_coalesce es row)

    -- The loop of `IN`: whether one of the values equals `v`.
    pub eval_in : Value P → Exprs P → Row P → ExecResult Bool
    eval_in v no_exprs row = ok false
    eval_in v (one_more e es) row = do
      val ← eval_expr e (rhs_row e row)
      found_step (is_true (sql_eq std v val)) (eval_in v es row)

  abbrev pub truth : Value P → ExecResult Bool
  truth (value_bool b) = ok b
  truth value_null = ok false
  truth _ = err type_mismatch

  unfoldable pub eval_predicate : Expr P → Row P → ExecResult Bool
  unfolding eval_expr
  eval_predicate e row = do v ← eval_expr e row; truth v
