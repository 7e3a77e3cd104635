-- ===== src/Planner/Eval/Typing.antt =====
-- crates/noedb-planner/src/eval.rs: expressions that are typed by the columns of the row.
pub mod Operands
pub mod Calls
pub mod Soundness
use noe_db.Base.{Bool, List, ◌≡◌, Option, none, some, length, ℕ}
use noe_db.Base.Bytes.{Bytes}
use noe_db.Base.Text.{codes, to_ascii_uppercase}
use noe_db.Sql.Ast.{
  Parts, SqlType, sql_int, sql_boolean, sql_float, sql_text, sql_varchar, BinaryOp, UnaryOp, Expr,
  Exprs, literal, column, binary, unary, is_null, in_values, between, paren, cast_as, function,
  no_exprs, one_more, eq_op, ne_op, lt_op, gt_op, le_op, ge_op, and_op, or_op, plus_op, minus_op,
  mul_op, like_op, unary_minus, unary_not, Literal, literal_null, literal_integer, literal_float,
  literal_string, literal_boolean, ColumnRef,
}
use noe_db.Planner.Value.{ok}
use noe_db.Planner.Row.{resolve}
use noe_db.Planner.Cast.Types.{
  Kind, integer_kind, float_kind, bytes_kind, bool_kind, date_kind, timestamp_kind,
}

-- The kinds that arithmetic coerces whatever the value is; a string may be no number.
pub data Numeric : Kind → Type 0 where
  integers : Numeric integer_kind
  floats : Numeric float_kind
  bools : Numeric bool_kind
  timestamps : Numeric timestamp_kind

pub data Comparable : Kind → Kind → Type 0 where
  numbers : {k k' : Kind} → Numeric k → Numeric k' → Comparable k k'
  strings : Comparable bytes_kind bytes_kind
  dates : Comparable date_kind date_kind

pub data IsComparison : BinaryOp → Type 0 where
  is_lt : IsComparison lt_op
  is_gt : IsComparison gt_op
  is_le : IsComparison le_op
  is_ge : IsComparison ge_op

-- The operators of arithmetic but `/` and `%`, which fail at a zero.
pub data IsTotalArithmetic : BinaryOp → Type 0 where
  is_plus : IsTotalArithmetic plus_op
  is_minus : IsTotalArithmetic minus_op
  is_mul : IsTotalArithmetic mul_op

pub data BinaryTyped : BinaryOp → Kind → Kind → Kind → Type 0 where
  and_typed : BinaryTyped and_op bool_kind bool_kind bool_kind
  or_typed : BinaryTyped or_op bool_kind bool_kind bool_kind
  eq_typed : {k k' : Kind} → BinaryTyped eq_op k k' bool_kind
  ne_typed : {k k' : Kind} → BinaryTyped ne_op k k' bool_kind
  cmp_typed :
      {op : BinaryOp} {k k' : Kind}
      → IsComparison op
      → Comparable k k'
      → BinaryTyped op k k' bool_kind
  like_typed : {k k' : Kind} → BinaryTyped like_op k k' bool_kind
  arithmetic_typed :
      {op : BinaryOp} {k k' : Kind}
      → IsTotalArithmetic op
      → Numeric k
      → Numeric k'
      → BinaryTyped op k k' float_kind

-- A minus is typed on floats only, since the least integer has no negative.
pub data UnaryTyped : UnaryOp → Kind → Type 0 where
  not_typed : UnaryTyped unary_not bool_kind
  minus_float : UnaryTyped unary_minus float_kind

-- The functions of one argument, by their names in capitals; ABS on floats only, as the minus.
pub data FunctionTyped (name : Bytes) : Kind → Kind → Type 0 where
  upper_typed : name ≡ codes "UPPER" → FunctionTyped name bytes_kind bytes_kind
  lower_typed : name ≡ codes "LOWER" → FunctionTyped name bytes_kind bytes_kind
  trim_typed : name ≡ codes "TRIM" → FunctionTyped name bytes_kind bytes_kind
  length_typed : name ≡ codes "LENGTH" → FunctionTyped name bytes_kind integer_kind
  abs_float : name ≡ codes "ABS" → FunctionTyped name float_kind float_kind
  round_integer : name ≡ codes "ROUND" → FunctionTyped name integer_kind integer_kind
  round_float : name ≡ codes "ROUND" → FunctionTyped name float_kind float_kind

-- The casts that no value of the kind fails.
pub data Castable : Kind → SqlType → Kind → Type 0 where
  to_text : {k : Kind} → Castable k sql_text bytes_kind
  to_varchar : {k : Kind} {n : Option ℕ} → Castable k (sql_varchar n) bytes_kind
  to_int : {k : Kind} → Numeric k → Castable k sql_int integer_kind
  to_float : {k : Kind} → Numeric k → Castable k sql_float float_kind
  to_bool : {k : Kind} → Numeric k → Castable k sql_boolean bool_kind

module _ {P : Parts} where
  pub data LiteralTyped : Literal P → Kind → Type 0 where
    null_literal : {k : Kind} → LiteralTyped literal_null k
    integer_literal : {n : _} → LiteralTyped (literal_integer n) integer_kind
    float_literal : {f : _} → LiteralTyped (literal_float f) float_kind
    string_literal : {s : _} → LiteralTyped (literal_string s) bytes_kind
    boolean_literal : {b : _} → LiteralTyped (literal_boolean b) bool_kind

-- The columns of a row and their kinds.
abbrev pub Columns : Type 0
Columns = List (Bytes × Kind)

module _ {P : Parts} (columns : Columns) where
  mutual
    pub data HasType : Expr P → Kind → Type 0 where
      literal_typed : {l : _} {k : Kind} → LiteralTyped l k → HasType (literal l) k
      column_typed : {c : ColumnRef} {k : Kind} → resolve c columns ≡ ok k → HasType (column c) k
      unary_typed :
          {op : UnaryOp} {e : _} {k : Kind} → UnaryTyped op k → HasType e k → HasType (unary op e) k
      binary_typed :
          {op : BinaryOp} {l r : _} {k k' j : Kind}
          → BinaryTyped op k k' j
          → HasType l k
          → HasType r k'
          → HasType (binary op l r) j
      is_null_typed :
          {e : _} {k : Kind} {negated : Bool} → HasType e k → HasType (is_null e negated) bool_kind
      in_typed :
          {e : _} {values : _} {k : Kind} {negated : Bool}
          → HasType e k
          → EachTyped values
          → HasType (in_values e values negated) bool_kind
      between_typed :
          {e low high : _} {k k' j : Kind} {negated : Bool}
          → HasType e k
          → HasType low k'
          → HasType high j
          → Comparable k k'
          → Comparable k j
          → HasType (between e low high negated) bool_kind
      cast_typed :
          {e : _} {ty : SqlType} {k j : Kind}
          → Castable k ty j
          → HasType e k
          → HasType (cast_as e ty) j
      function_typed :
          {name : Bytes} {e : _} {es : _} {k j : Kind}
          → FunctionTyped (to_ascii_uppercase name) k j
          → HasType e k
          → HasType (function name (one_more e es) none) j
      coalesce_typed :
          {name : Bytes} {es : _} {k : Kind}
          → to_ascii_uppercase name ≡ codes "COALESCE"
          → AllTyped es k
          → HasType (function name es none) k
      paren_typed : {e : _} {k : Kind} → HasType e k → HasType (paren e) k

    -- Expressions of one kind.
    pub data AllTyped : Exprs P → Kind → Type 0 where
      all_none : {k : Kind} → AllTyped no_exprs k
      all_more :
          {e : _} {es : _} {k : Kind} → HasType e k → AllTyped es k → AllTyped (one_more e es) k

    -- Expressions, each of a kind of its own.
    pub data EachTyped : Exprs P → Type 0 where
      each_none : EachTyped no_exprs
      each_more :
          {e : _} {es : _} {k : Kind} → HasType e k → EachTyped es → EachTyped (one_more e es)
