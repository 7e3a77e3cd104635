-- ===== src/Sql/Ast.antt =====
-- crates/noedb-ast/src (expr.rs, name.rs, stmt.rs): expressions. A string is the list of its bytes.
use noe_db.Base.{Option, Bool, ℕ}
use noe_db.Base.Bytes.{Bytes}
use noe_db.Base.Int.{ℤ}

-- The types that an expression holds and that the model leaves open: the floats, the statements of
-- subqueries and the specifications of windows.
pub record Parts : Type 1 where
  pub Float : Type 0
  pub Float32 : Type 0
  pub SelectStmt : Type 0
  pub WindowSpec : Type 0

pub data BinaryOp : Type 0 where
  eq_op ne_op lt_op gt_op le_op ge_op and_op or_op : BinaryOp
  plus_op minus_op div_op mod_op mul_op like_op distance_op : BinaryOp

pub data UnaryOp : Type 0 where
  unary_minus unary_not : UnaryOp

pub data SqlType : Type 0 where
  sql_int sql_boolean sql_float sql_text sql_date sql_timestamp : SqlType
  sql_varchar : Option ℕ → SqlType
  sql_vector : ℕ → SqlType
  sql_named : Bytes → SqlType

pub data ColumnRef : Type 0 where
  named_column : Option Bytes → Bytes → ColumnRef
  star_column : ColumnRef
  qualified_star : Bytes → ColumnRef

module _ (P : Parts) where
  pub data Literal : Type 0 where
    literal_null : Literal
    literal_integer : ℤ → Literal
    literal_float : P.Float → Literal
    literal_string : Bytes → Literal
    literal_boolean : Bool → Literal

  -- `Exprs` is a list of expressions.
  mutual
    pub data Expr : Type 0 where
      literal : Literal → Expr
      column : ColumnRef → Expr
      binary : BinaryOp → Expr → Expr → Expr
      unary : UnaryOp → Expr → Expr
      is_null : Expr → Bool → Expr
      in_values : Expr → Exprs → Bool → Expr
      in_subquery : Expr → P.SelectStmt → Bool → Expr
      exists_subquery : P.SelectStmt → Bool → Expr
      scalar_subquery : P.SelectStmt → Expr
      between : Expr → Expr → Expr → Bool → Expr
      paren : Expr → Expr
      param : ℕ → Expr
      current_user : Expr
      cast_as : Expr → SqlType → Expr
      function : Bytes → Exprs → Option P.WindowSpec → Expr

    pub data Exprs : Type 0 where
      no_exprs : Exprs
      one_more : Expr → Exprs → Exprs
