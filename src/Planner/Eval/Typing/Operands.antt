-- ===== src/Planner/Eval/Typing/Operands.antt =====
-- crates/noedb-planner/src/eval.rs: the operators at operands of the right kinds.
use noe_db.Base.{Bool, true, false, Option, none, some, ◌≡◌, ◌≢◌, refl}
use noe_db.Sql.Ast.{Parts, BinaryOp, UnaryOp, lt_op, gt_op, le_op, ge_op}
use noe_db.Planner.Value.{
  Value, Std, ExecResult, ok, ◌>>=◌, ok_or, type_mismatch, value_null, value_float, value_bytes,
  value_bool, sql_eq,
}
use noe_db.Planner.Cast.Types.{
  Kind, float_kind, bool_kind, HasKind, an_integer, a_float, a_string, a_bool, a_date, a_timestamp,
}
use noe_db.Planner.Operators.{
  eval_binary, eval_unary, cmp_values, eval_arithmetic, like_match, and_values, or_values,
  cmp_coerced, cmp_same, coerce_numeric, float_arithmetic, of_equality, apply_cmp_f,
  apply_cmp_bytes, cmp_result, negate_if,
}
use noe_db.Planner.Eval.Typing.{
  Numeric, integers, floats, bools, timestamps, Comparable, numbers, strings, dates, is_lt, is_gt,
  is_le, is_ge, IsTotalArithmetic, is_plus, is_minus, is_mul, BinaryTyped, and_typed, or_typed,
  eq_typed, ne_typed, cmp_typed, like_typed, arithmetic_typed, UnaryTyped, not_typed, minus_float,
}

module _ {P : Parts} where
  -- A value of a kind, or null.
  pub data Fits : Value P → Kind → Type 0 where
    null_fits : {k : Kind} → Fits value_null k
    value_fits : {v : Value P} {k : Kind} → HasKind v k → Fits v k

  abbrev pub Yields : ExecResult (Value P) → Kind → Type 0
  Yields r k = (v : Value P) × (r ≡ ok v) × Fits v k

module _ {P : Parts} (std : Std P) where
  coerce-Numeric :
      {v : Value P} {k : Kind}
      → Numeric k
      → HasKind v k
      → (f : P.Float) × (coerce_numeric std v ≡ some f) × (v ≢ value_null)
  coerce-Numeric integers an_integer = (_, refl, λ h. cc)
  coerce-Numeric floats a_float = (_, refl, λ h. cc)
  coerce-Numeric bools a_bool = (_, refl, λ h. cc)
  coerce-Numeric timestamps a_timestamp = (_, refl, λ h. cc)

  cmp_values-eq :
      (l r : Value P) (op : BinaryOp)
      → l ≢ value_null
      → r ≢ value_null
      → cmp_values std l r op
        ≡ cmp_coerced std (coerce_numeric std l) (coerce_numeric std r) op (cmp_same std l r op)
  unfolding cmp_values
  cmp_values-eq value_null r op h k = absurd (h refl)
  cmp_values-eq l value_null op h k = absurd (k refl)
  cmp_values-eq l r op h k = refl

  eval_arithmetic-eq :
      (op : BinaryOp) (l r : Value P)
      → l ≢ value_null
      → r ≢ value_null
      → eval_arithmetic std op l r ≡ (
          ok_or type_mismatch (coerce_numeric std l) >>= λ a.
          ok_or type_mismatch (coerce_numeric std r) >>= λ b. float_arithmetic std op a b)
  unfolding eval_arithmetic
  eval_arithmetic-eq op value_null r h k = absurd (h refl)
  eval_arithmetic-eq op l value_null h k = absurd (k refl)
  eval_arithmetic-eq op l r h k = refl

  cmp_coerced-ok :
      (x y : Option P.Float) (op : BinaryOp) (b : Bool)
      → (c : Bool) × (cmp_coerced std x y op (ok b) ≡ ok c)
  cmp_coerced-ok (some a) (some c) op b = (apply_cmp_f std a c op, refl)
  cmp_coerced-ok (some a) none op b = (b, refl)
  cmp_coerced-ok none y op b = (b, refl)

  -- A comparison has an answer.
  pub cmp_values-Comparable :
      (op : BinaryOp) {l r : Value P} {k k' : Kind}
      → Comparable k k'
      → HasKind l k
      → HasKind r k'
      → (b : Bool) × (cmp_values std l r op ≡ ok b)
  unfolding cmp_values
  cmp_values-Comparable op {l = l} {r = r} (numbers n n') h h' =
      let (a, e, p) = coerce-Numeric n h in
      let (b, e', p') = coerce-Numeric n' h' in
      (apply_cmp_f std a b op, rw (cmp_values-eq l r op p p', e, e'))
  cmp_values-Comparable op strings (a_string {b = x}) (a_string {b = y}) =
      cmp_coerced-ok (coerce_numeric std (value_bytes x)) (coerce_numeric std (value_bytes y)) op
        (apply_cmp_bytes x y op)
  cmp_values-Comparable op dates (a_date {b = x}) (a_date {b = y}) = (apply_cmp_bytes x y op, refl)

  float_arithmetic-Fits :
      {op : BinaryOp}
      → IsTotalArithmetic op
      → (a b : P.Float) → Yields (float_arithmetic std op a b) float_kind
  float_arithmetic-Fits is_plus a b = (value_float (std.add a b), refl, value_fits a_float)
  float_arithmetic-Fits is_minus a b = (value_float (std.sub a b), refl, value_fits a_float)
  float_arithmetic-Fits is_mul a b = (value_float (std.mul a b), refl, value_fits a_float)

  eval_arithmetic-Fits :
      {op : BinaryOp} {l r : Value P} {k k' : Kind}
      → IsTotalArithmetic op
      → Numeric k
      → Numeric k'
      → Fits l k
      → Fits r k'
      → Yields (eval_arithmetic std op l r) float_kind
  unfolding eval_arithmetic
  eval_arithmetic-Fits op n n' null_fits f = (value_null, refl, null_fits)
  eval_arithmetic-Fits op integers n' (value_fits an_integer) null_fits =
      (value_null, refl, null_fits)
  eval_arithmetic-Fits op floats n' (value_fits a_float) null_fits = (value_null, refl, null_fits)
  eval_arithmetic-Fits op bools n' (value_fits a_bool) null_fits = (value_null, refl, null_fits)
  eval_arithmetic-Fits op timestamps n' (value_fits a_timestamp) null_fits =
      (value_null, refl, null_fits)
  eval_arithmetic-Fits {op = op} {l = l} {r = r} o n n' (value_fits h) (value_fits h') =
      let (a, e, p) = coerce-Numeric n h in
      let (b, e', p') = coerce-Numeric n' h' in
      rw (eval_arithmetic-eq op l r p p', e, e') (float_arithmetic-Fits o a b)

  pub truth_value : (b : Bool) → Yields {P = P} (ok (value_bool b)) bool_kind
  truth_value b = (value_bool b, refl, value_fits a_bool)

  pub equality-Fits :
      (negated : Bool) (o : Option Bool) → Yields (ok (of_equality std negated o)) bool_kind
  equality-Fits negated none = (value_null, refl, null_fits)
  equality-Fits negated (some b) = truth_value (negate_if negated b)

  pub cmp_result-Fits :
      (op : BinaryOp) {l r : Value P} {k k' : Kind}
      → Comparable k k'
      → Fits l k
      → Fits r k'
      → Yields (cmp_result std l r op) bool_kind
  unfolding cmp_values
  cmp_result-Fits op c null_fits f = truth_value false
  cmp_result-Fits op (numbers integers n') (value_fits an_integer) null_fits = truth_value false
  cmp_result-Fits op (numbers floats n') (value_fits a_float) null_fits = truth_value false
  cmp_result-Fits op (numbers bools n') (value_fits a_bool) null_fits = truth_value false
  cmp_result-Fits op (numbers timestamps n') (value_fits a_timestamp) null_fits = truth_value false
  cmp_result-Fits op strings (value_fits a_string) null_fits = truth_value false
  cmp_result-Fits op dates (value_fits a_date) null_fits = truth_value false
  cmp_result-Fits op c (value_fits h) (value_fits h') =
      let (b, e) = cmp_values-Comparable op c h h' in rw e (truth_value b)

  and_values-Fits :
      {l r : Value P}
      → Fits l bool_kind
      → Fits r bool_kind
      → Yields (and_values std l (ok r)) bool_kind
  unfolding and_values
  and_values-Fits null_fits null_fits = (value_null, refl, null_fits)
  and_values-Fits null_fits (value_fits (a_bool {b = true})) = (value_null, refl, null_fits)
  and_values-Fits null_fits (value_fits (a_bool {b = false})) = truth_value false
  and_values-Fits (value_fits (a_bool {b = true})) f = (_, refl, f)
  and_values-Fits (value_fits (a_bool {b = false})) f = truth_value false

  or_values-Fits :
      {l r : Value P}
      → Fits l bool_kind
      → Fits r bool_kind
      → Yields (or_values std l (ok r)) bool_kind
  unfolding or_values
  or_values-Fits null_fits null_fits = (value_null, refl, null_fits)
  or_values-Fits null_fits (value_fits (a_bool {b = true})) = truth_value true
  or_values-Fits null_fits (value_fits (a_bool {b = false})) = (value_null, refl, null_fits)
  or_values-Fits (value_fits (a_bool {b = true})) f = truth_value true
  or_values-Fits (value_fits (a_bool {b = false})) f = (_, refl, f)

  pub eval_binary-Fits :
      {op : BinaryOp} {k k' j : Kind} {l r : Value P}
      → BinaryTyped op k k' j
      → Fits l k
      → Fits r k'
      → Yields (eval_binary std op (ok l) (ok r)) j
  unfolding eval_binary
  eval_binary-Fits and_typed f g = and_values-Fits f g
  eval_binary-Fits or_typed f g = or_values-Fits f g
  eval_binary-Fits {l = l} {r = r} eq_typed f g = equality-Fits false (sql_eq std l r)
  eval_binary-Fits {l = l} {r = r} ne_typed f g = equality-Fits true (sql_eq std l r)
  eval_binary-Fits (cmp_typed is_lt c) f g = cmp_result-Fits lt_op c f g
  eval_binary-Fits (cmp_typed is_gt c) f g = cmp_result-Fits gt_op c f g
  eval_binary-Fits (cmp_typed is_le c) f g = cmp_result-Fits le_op c f g
  eval_binary-Fits (cmp_typed is_ge c) f g = cmp_result-Fits ge_op c f g
  eval_binary-Fits {l = l} {r = r} like_typed f g = truth_value (like_match std l r)
  eval_binary-Fits (arithmetic_typed is_plus n n') f g = eval_arithmetic-Fits is_plus n n' f g
  eval_binary-Fits (arithmetic_typed is_minus n n') f g = eval_arithmetic-Fits is_minus n n' f g
  eval_binary-Fits (arithmetic_typed is_mul n n') f g = eval_arithmetic-Fits is_mul n n' f g

  pub eval_unary-Fits :
      {op : UnaryOp} {k : Kind} {v : Value P}
      → UnaryTyped op k
      → Fits v k
      → Yields (eval_unary std op v) k
  unfolding eval_unary
  eval_unary-Fits not_typed null_fits = (value_null, refl, null_fits)
  eval_unary-Fits not_typed (value_fits a_bool) = truth_value _
  eval_unary-Fits minus_float null_fits = (value_null, refl, null_fits)
  eval_unary-Fits minus_float (value_fits a_float) = (_, refl, value_fits a_float)
