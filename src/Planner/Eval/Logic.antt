-- ===== src/Planner/Eval/Logic.antt =====
-- crates/noedb-planner/src/eval.rs: the logic of three values, and comparisons with null.
use noe_db.Base.{Bool, true, false, not, Option, some, none, ◌≡◌, refl, ◌⊎◌, inl, inr}
use noe_db.Sql.Ast.{
  Parts, BinaryOp, Expr, binary, unary, paren, and_op, or_op, unary_not, lt_op, gt_op, le_op, ge_op,
}
use noe_db.Planner.Value.{Value, Row, Std, ok, value_null, value_bool}
use noe_db.Planner.Operators.{eval_binary, eval_unary, and_values, or_values, cmp_values}
use noe_db.Planner.Eval.{eval_expr, eval_predicate}
use noe_db.Planner.Eval.Typing.{IsComparison, is_lt, is_gt, is_le, is_ge}

-- The truth values of SQL: `none` is unknown.
abbrev pub Truth : Type 0
Truth = Option Bool

-- The truth tables of Kleene.
abbrev pub and3 : Truth → Truth → Truth
and3 (some false) b = some false
and3 a (some false) = some false
and3 (some true) b = b
and3 none b = none

abbrev pub or3 : Truth → Truth → Truth
or3 (some true) b = some true
or3 a (some true) = some true
or3 (some false) b = b
or3 none b = none

abbrev pub not3 : Truth → Truth
not3 none = none
not3 (some b) = some (not b)

-- The connectives over conditions, which may be any expressions.
pub data Formula (A : Type 0) : Type 0 where
  condition : A → Formula A
  f_and f_or : Formula A → Formula A → Formula A
  f_not : Formula A → Formula A

unfoldable pub truth_of : {A : Type 0} → (A → Truth) → Formula A → Truth
truth_of g (condition a) = g a
truth_of g (f_and p q) = and3 (truth_of g p) (truth_of g q)
truth_of g (f_or p q) = or3 (truth_of g p) (truth_of g q)
truth_of g (f_not p) = not3 (truth_of g p)

module _ {P : Parts} where
  abbrev pub of_truth : Truth → Value P
  of_truth none = value_null
  of_truth (some b) = value_bool b

  unfoldable pub to_expr : Formula (Expr P) → Expr P
  to_expr (condition e) = e
  to_expr (f_and p q) = binary and_op (to_expr p) (to_expr q)
  to_expr (f_or p q) = binary or_op (to_expr p) (to_expr q)
  to_expr (f_not p) = unary unary_not (to_expr p)

  -- The conditions of a formula evaluate to the truth values that `g` gives.
  abbrev pub Evaluates : Std P → Row P → (Expr P → Truth) → Formula (Expr P) → Type 0
  Evaluates std row g (condition e) = eval_expr std e row ≡ ok (of_truth (g e))
  Evaluates std row g (f_and p q) = Evaluates std row g p × Evaluates std row g q
  Evaluates std row g (f_or p q) = Evaluates std row g p × Evaluates std row g q
  Evaluates std row g (f_not p) = Evaluates std row g p

module _ {P : Parts} (std : Std P) (row : Row P) where
  and_table :
      (a b : Truth)
      → eval_binary std and_op (ok (of_truth a)) (ok (of_truth b)) ≡ ok (of_truth (and3 a b))
  unfolding eval_binary and_values
  and_table none none = refl
  and_table none (some true) = refl
  and_table none (some false) = refl
  and_table (some true) none = refl
  and_table (some true) (some true) = refl
  and_table (some true) (some false) = refl
  and_table (some false) b = refl

  or_table :
      (a b : Truth)
      → eval_binary std or_op (ok (of_truth a)) (ok (of_truth b)) ≡ ok (of_truth (or3 a b))
  unfolding eval_binary or_values
  or_table none none = refl
  or_table none (some true) = refl
  or_table none (some false) = refl
  or_table (some false) none = refl
  or_table (some false) (some true) = refl
  or_table (some false) (some false) = refl
  or_table (some true) b = refl

  not_table : (a : Truth) → eval_unary std unary_not (of_truth a) ≡ ok (of_truth (not3 a))
  unfolding eval_unary
  not_table none = refl
  not_table (some b) = refl

  -- A combination by `AND`, `OR` and `NOT` of conditions that evaluate to truth values or null
  -- evaluates to the value that the tables of Kleene's three-valued logic give it, null being unknown.
  pub eval_expr-truth_of :
      (g : Expr P → Truth) (p : Formula (Expr P))
      → Evaluates std row g p
      → eval_expr std (to_expr p) row ≡ ok (of_truth (truth_of g p))
  unfolding eval_expr to_expr truth_of
  eval_expr-truth_of g (condition e) h = h
  eval_expr-truth_of g (f_and p q) h =
      rw (eval_expr-truth_of g p h.0, eval_expr-truth_of g q h.1)
        (and_table (truth_of g p) (truth_of g q))
  eval_expr-truth_of g (f_or p q) h =
      rw (eval_expr-truth_of g p h.0, eval_expr-truth_of g q h.1)
        (or_table (truth_of g p) (truth_of g q))
  eval_expr-truth_of g (f_not p) h = rw (eval_expr-truth_of g p h) (not_table (truth_of g p))

  cmp_values-null_left : (v : Value P) (op : BinaryOp) → cmp_values std value_null v op ≡ ok false
  unfolding cmp_values
  cmp_values-null_left v op = refl

  cmp_values-null_right : (v : Value P) (op : BinaryOp) → cmp_values std v value_null op ≡ ok false
  unfolding cmp_values
  cmp_values-null_right value_null op = refl
  cmp_values-null_right v op = refl

  cmp_values-null :
      (v w : Value P) (op : BinaryOp)
      → (v ≡ value_null) ⊎ (w ≡ value_null)
      → cmp_values std v w op ≡ ok false
  cmp_values-null v w op (inl e) = rw e (cmp_values-null_left w op)
  cmp_values-null v w op (inr e) = rw e (cmp_values-null_right v op)

  -- Where an operand of `<`, `>`, `<=` or `>=` evaluates to null, the comparison is not unknown but
  -- false, so that a `WHERE` with `NOT` before it accepts the row.
  pub eval_predicate-not_null :
      (l r : Expr P) (op : BinaryOp) (v w : Value P)
      → IsComparison op
      → eval_expr std l row ≡ ok v
      → eval_expr std r row ≡ ok w
      → (v ≡ value_null) ⊎ (w ≡ value_null)
      → (eval_predicate std (binary op l r) row ≡ ok false)
        × (eval_predicate std (unary unary_not (paren (binary op l r))) row ≡ ok true)
  unfolding eval_predicate eval_expr eval_binary eval_unary
  eval_predicate-not_null l r op v w is_lt e f h =
      (rw (e, f, cmp_values-null v w lt_op h), rw (e, f, cmp_values-null v w lt_op h))
  eval_predicate-not_null l r op v w is_gt e f h =
      (rw (e, f, cmp_values-null v w gt_op h), rw (e, f, cmp_values-null v w gt_op h))
  eval_predicate-not_null l r op v w is_le e f h =
      (rw (e, f, cmp_values-null v w le_op h), rw (e, f, cmp_values-null v w le_op h))
  eval_predicate-not_null l r op v w is_ge e f h =
      (rw (e, f, cmp_values-null v w ge_op h), rw (e, f, cmp_values-null v w ge_op h))
