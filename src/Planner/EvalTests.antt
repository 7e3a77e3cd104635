-- ===== src/Planner/EvalTests.antt =====
-- Examples, and the theorems of evaluation at concrete inputs. The floats are integers here.
use noe_db.Base.{ℕ, true, false, [], ◌∷◌, none, some, ◌≡◌, refl, arith, inl, ◌/◌}
use noe_db.Base.Bytes.{Bytes}
use noe_db.Base.Text.{codes}
use noe_db.Base.Int.{pos}
use noe_db.Sql.Ast.{
  Expr, literal, column, binary, unary, paren, named_column, literal_null, literal_integer,
  literal_boolean, plus_op, lt_op, unary_not, sql_date, sql_timestamp, sql_boolean,
}
use noe_db.Planner.Value.{
  Row, Value, ok, ◌>>=◌, value_null, value_integer, value_bool, value_timestamp,
}
use noe_db.Planner.Samples.{parts, std}
use noe_db.Planner.Row.{resolve}
use noe_db.Planner.Row.Related.{Related, no_cells, a_cell}
use noe_db.Planner.Calendar.{epoch_day_to_ymd, is_leap, year_loop, month_loop}
use noe_db.Planner.Calendar.Days.{days_of_date, IsDate, epoch_day_to_ymd-IsDate}
use noe_db.Planner.Cast.{cast_value}
use noe_db.Planner.Cast.Types.{
  Kind, integer_kind, bool_kind, kind_of, HasKind, cast_value-HasKind, an_integer,
}
use noe_db.Planner.Cast.Dates.{cast_value-timestamp_of_date}
use noe_db.Planner.Eval.{eval_expr, eval_predicate}
use noe_db.Planner.Eval.Typing.{
  Columns, HasType, literal_typed, column_typed, binary_typed, cmp_typed, is_lt, numbers, integers,
  integer_literal, arithmetic_typed, is_plus, floats,
}
use noe_db.Planner.Eval.Typing.Operands.{Fits, null_fits, value_fits}
use noe_db.Planner.Eval.Typing.Soundness.{eval_expr-HasType}
use noe_db.Planner.Eval.Logic.{
  Formula, condition, f_and, f_or, f_not, truth_of, to_expr, of_truth, Truth, eval_expr-truth_of,
  eval_predicate-not_null,
}

-- The row `age = 7, score = NULL`.
abbrev age : Bytes
age = codes "age"

abbrev score : Bytes
score = codes "score"

abbrev columns : Columns
columns = (age, integer_kind) ∷ (score, integer_kind) ∷ []

abbrev row : Row parts
row = (age, value_integer (pos 7)) ∷ (score, value_null) ∷ []

row-Related : Related Fits row columns
row-Related = a_cell (value_fits an_integer) (a_cell null_fits no_cells)

abbrev age_column : Expr parts
age_column = column (named_column none age)

abbrev score_column : Expr parts
score_column = column (named_column none score)

abbrev nine : Expr parts
nine = literal (literal_integer (pos 9))

-- `score < age + 9`
abbrev below : Expr parts
below = binary lt_op score_column (binary plus_op age_column nine)

below-HasType : HasType columns below bool_kind
unfolding resolve
below-HasType = binary_typed (cmp_typed is_lt (numbers integers floats)) (column_typed refl) (
    binary_typed (arithmetic_typed is_plus integers integers) (column_typed refl)
      (literal_typed integer_literal))

eval_expr-HasType_example : (v : Value parts) × (eval_expr std below row ≡ ok v) × Fits v bool_kind
eval_expr-HasType_example = eval_expr-HasType std below bool_kind row-Related below-HasType

age_runs : eval_expr std (binary lt_op age_column nine) row ≡ ok (value_bool true)
unfolding eval_expr
age_runs = refl

-- The conditions `NULL` and `TRUE`.
abbrev unknown : Expr parts
unknown = literal literal_null

abbrev certain : Expr parts
certain = literal (literal_boolean true)

abbrev truth_values : Expr parts → Truth
truth_values (literal literal_null) = none
truth_values _ = some true

abbrev formula : Formula (Expr parts)
formula = f_or (f_and (condition unknown) (condition certain)) (f_not (condition unknown))

eval_expr-truth_of_example :
    eval_expr std (to_expr formula) row ≡ ok (of_truth (truth_of truth_values formula))
eval_expr-truth_of_example =
    eval_expr-truth_of std row truth_values formula (unfold eval_expr in ((refl, refl), refl))

eval_predicate-not_null_example :
    (eval_predicate std (binary lt_op score_column nine) row ≡ ok false)
    × (eval_predicate std (unary unary_not (paren (binary lt_op score_column nine))) row ≡ ok true)
eval_predicate-not_null_example =
    eval_predicate-not_null std row score_column nine lt_op value_null (value_integer (pos 9)) is_lt
      (unfold eval_expr in refl) (unfold eval_expr in refl) (inl refl)

leap_day : epoch_day_to_ymd 19782 ≡ some (2024, 2, 29)
unfolding epoch_day_to_ymd year_loop month_loop is_leap
leap_day = refl

epoch_day_to_ymd-IsDate_example :
    (y m d : ℕ) × (epoch_day_to_ymd 19782 ≡ some (y, m, d))
    × IsDate y m d
    × (days_of_date y m d ≡ 19782)
epoch_day_to_ymd-IsDate_example = epoch_day_to_ymd-IsDate 19782 (omega arith)

cast_value-HasKind_example :
    (k : Kind) × (kind_of sql_boolean ≡ some k) × HasKind {P = parts} (value_bool true) k
cast_value-HasKind_example =
    cast_value-HasKind std (value_integer (pos 7)) (value_bool true) sql_boolean (λ h. cc)
      (unfold cast_value in refl)

leap_day-IsDate : IsDate 2024 2 29
unfolding is_leap
leap_day-IsDate = omega arith

leap_days : days_of_date 2024 2 29 ≡ 1709164800 / 86400
unfolding days_of_date
leap_days = refl

cast_value-timestamp_of_date_example :
    (cast_value std (value_timestamp (pos 1709164800)) sql_date >>= λ v.
    cast_value std v sql_timestamp)
    ≡ ok (value_timestamp (pos 0))
cast_value-timestamp_of_date_example =
    cast_value-timestamp_of_date std 1709164800 (λ s h. refl) (λ s h. refl) 2024 2 29 (omega arith)
      leap_day-IsDate leap_days
