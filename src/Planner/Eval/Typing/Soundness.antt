-- ===== src/Planner/Eval/Typing/Soundness.antt =====
-- crates/noedb-planner/src/eval.rs: what is typed evaluates to a value of its kind.
use noe_db.Base.{Bool, true, false, ◌≡◌, refl}
use noe_db.Base.Bytes.{Bytes}
use noe_db.Base.Text.{codes}
use noe_db.Sql.Ast.{Parts, Expr, Exprs, literal, param, Literal}
use noe_db.Planner.Value.{Value, Row, Std, ExecResult, ok, value_null, sql_eq}
use noe_db.Planner.Row.Related.{Related, resolve-Related}
use noe_db.Planner.Cast.Types.{
  Kind, bool_kind, an_integer, a_float, a_string, a_bool, a_date, a_timestamp, a_vector,
}
use noe_db.Planner.Operators.{literal_to_value}
use noe_db.Planner.Eval.{
  eval_expr, eval_first, eval_coalesce, eval_in, call_scalar, rhs_row, eval_predicate,
  coalesce_step, found_step, is_true, truth,
}
use noe_db.Planner.Eval.Typing.{
  LiteralTyped, null_literal, integer_literal, float_literal, string_literal, boolean_literal,
  Columns, HasType, AllTyped, EachTyped, literal_typed, column_typed, unary_typed, binary_typed,
  is_null_typed, in_typed, between_typed, cast_typed, function_typed, coalesce_typed, paren_typed,
  all_none, all_more, each_none, each_more,
}
use noe_db.Planner.Eval.Typing.Operands.{
  Fits, null_fits, value_fits, Yields, truth_value, eval_binary-Fits, eval_unary-Fits,
}
use noe_db.Planner.Eval.Typing.Calls.{eval_between-Fits, call_scalar-Fits, cast_value-Fits}

module _ {P : Parts} (std : Std P) where
  literal-Fits : {l : Literal P} {k : Kind} → LiteralTyped l k → Fits (literal_to_value l) k
  unfolding literal_to_value
  literal-Fits null_literal = null_fits
  literal-Fits integer_literal = value_fits an_integer
  literal-Fits float_literal = value_fits a_float
  literal-Fits string_literal = value_fits a_string
  literal-Fits boolean_literal = value_fits a_bool

  -- A literal or a parameter does not look at the row.
  eval_expr-rhs_row :
      (e : Expr P) (row : Row P) → eval_expr std e (rhs_row std e row) ≡ eval_expr std e row
  unfolding eval_expr
  eval_expr-rhs_row (literal l) row = refl
  eval_expr-rhs_row (param n) row = refl
  eval_expr-rhs_row e row = refl

  found_step-ok :
      (found : Bool) {r : ExecResult Bool}
      → (b : Bool) × (r ≡ ok b)
      → (b : Bool) × (found_step std found r ≡ ok b)
  found_step-ok true h = (true, refl)
  found_step-ok false h = h

  coalesce_step-Fits :
      {v : Value P} {k : Kind} {r : ExecResult (Value P)}
      → Fits v k
      → Yields r k
      → Yields (coalesce_step std v r) k
  coalesce_step-Fits null_fits y = y
  coalesce_step-Fits (value_fits an_integer) y = (_, refl, value_fits an_integer)
  coalesce_step-Fits (value_fits a_float) y = (_, refl, value_fits a_float)
  coalesce_step-Fits (value_fits a_string) y = (_, refl, value_fits a_string)
  coalesce_step-Fits (value_fits a_bool) y = (_, refl, value_fits a_bool)
  coalesce_step-Fits (value_fits a_date) y = (_, refl, value_fits a_date)
  coalesce_step-Fits (value_fits a_timestamp) y = (_, refl, value_fits a_timestamp)
  coalesce_step-Fits (value_fits (a_vector e)) y = (_, refl, value_fits (a_vector e))

  truth-Fits : {v : Value P} → Fits v bool_kind → (b : Bool) × (truth std v ≡ ok b)
  truth-Fits null_fits = (false, refl)
  truth-Fits (value_fits (a_bool {b = b})) = (b, refl)

  call_coalesce :
      {name : Bytes} (first : ExecResult (Value P)) {coalesced : ExecResult (Value P)} {k : Kind}
      → name ≡ codes "COALESCE"
      → Yields coalesced k
      → Yields (call_scalar std name first coalesced) k
  unfolding call_scalar
  call_coalesce first e y = rw e y

module _ {P : Parts} (std : Std P) {columns : Columns} {row : Row P}
    (h : Related Fits row columns) where
  mutual
    unfolding eval_expr eval_first eval_coalesce eval_in

    pub eval_expr-Yields :
        {e : Expr P} {k : Kind} → HasType columns e k → Yields (eval_expr std e row) k
    eval_expr-Yields (literal_typed l) = (_, refl, literal-Fits std l)
    eval_expr-Yields (column_typed {c = c} e) = resolve-Related Fits c h e
    eval_expr-Yields (unary_typed u t) =
        let (v, e, f) = eval_expr-Yields t in rw e (eval_unary-Fits std u f)
    eval_expr-Yields (binary_typed b t s) =
        let (v, e, f) = eval_expr-Yields t in
        let (w, e', g) = eval_expr-Yields s in rw (e, e') (eval_binary-Fits std b f g)
    eval_expr-Yields (is_null_typed t) =
        let (v, e, f) = eval_expr-Yields t in rw e (truth_value std _)
    eval_expr-Yields (in_typed {values = values} t ts) =
        let (v, e, f) = eval_expr-Yields t in
        let (b, e') = eval_in-ok v ts in rw (e, e') (truth_value std _)
    eval_expr-Yields (between_typed {negated = negated} t s u c d) =
        let (v, e, f) = eval_expr-Yields t in
        let (lo, e', g) = eval_expr-Yields s in
        let (hi, e'', i) = eval_expr-Yields u in
        rw (e, e', e'') (eval_between-Fits std negated c d f g i)
    eval_expr-Yields (cast_typed c t) =
        let (v, e, f) = eval_expr-Yields t in rw e (cast_value-Fits std c f)
    eval_expr-Yields (function_typed n t) =
        let (v, e, f) = eval_expr-Yields t in rw e (call_scalar-Fits std _ n f)
    eval_expr-Yields (coalesce_typed n ts) = call_coalesce std _ n (eval_coalesce-Yields ts)
    eval_expr-Yields (paren_typed t) = eval_expr-Yields t

    eval_coalesce-Yields :
        {es : Exprs P} {k : Kind} → AllTyped columns es k → Yields (eval_coalesce std es row) k
    eval_coalesce-Yields all_none = (value_null, refl, null_fits)
    eval_coalesce-Yields (all_more t ts) =
        let (v, e, f) = eval_expr-Yields t in
        rw e (coalesce_step-Fits std f (eval_coalesce-Yields ts))

    eval_in-ok :
        (v : Value P) {es : Exprs P}
        → EachTyped columns es
        → (b : Bool) × (eval_in std v es row ≡ ok b)
    eval_in-ok v each_none = (false, refl)
    eval_in-ok v (each_more {e = e} t ts) =
        let (w, same, f) = eval_expr-Yields t in
        rw (eval_expr-rhs_row std e row, same)
          (found_step-ok std (is_true (sql_eq std v w)) (eval_in-ok v ts))

module _ {P : Parts} (std : Std P) {columns : Columns} {row : Row P} where
  -- An expression that is typed by the columns of a row, the cells of which are null or of their
  -- column's kind, evaluates to null or to a value of the expression's kind: never to an error, and
  -- never to a panic. Typed are comparisons of numeric kinds, of strings and of dates, arithmetic but
  -- for `/` and `%`, `AND`, `OR` and `NOT` on truth values, equality, `LIKE`, `IN`, `BETWEEN`,
  -- `IS NULL`, the casts and the functions that no value of the operand's kind fails, and `COALESCE`.
  -- A minus and `ABS` are typed on floats only: on the least integer they overflow, which is a panic.
  pub eval_expr-HasType :
      (e : Expr P) (k : Kind)
      → Related Fits row columns
      → HasType columns e k
      → (v : Value P) × (eval_expr std e row ≡ ok v) × Fits v k
  eval_expr-HasType e k h t = eval_expr-Yields std h t

  -- Under the same conditions a predicate of the kind of truth values accepts or rejects the row.
  pub eval_predicate-HasType :
      (e : Expr P)
      → Related Fits row columns
      → HasType columns e bool_kind
      → (b : Bool) × (eval_predicate std e row ≡ ok b)
  unfolding eval_predicate
  eval_predicate-HasType e h t =
      let (v, same, f) = eval_expr-Yields std h t in rw same (truth-Fits std f)
