-- ===== src/Sql/Expression.antt =====
-- crates/noedb-parser/src/expr.rs: the parser of expressions, with fuel for the depth of the calls and
-- for the rounds of each loop. The statements of subqueries and the specifications of windows are
-- parsed by parameters.
pub mod Fuel
pub mod Ends
pub mod Total
pub mod Chains
use noe_db.Base.{
  ℕ, zero, suc, Bool, true, false, not, ◌&&◌, ◌||◌, List, [], ◌∷◌, Option, none, some,
  if◌then◌else◌, leb, length,
}
use noe_db.Base.Bytes.{Bytes}
use noe_db.Sql.Ast.{
  Parts, BinaryOp, eq_op, ne_op, lt_op, gt_op, le_op, ge_op, and_op, or_op, plus_op, minus_op,
  div_op, mod_op, mul_op, like_op, distance_op, UnaryOp, unary_minus, unary_not, ColumnRef,
  named_column, star_column, qualified_star, Literal, literal_null, literal_integer, literal_float,
  literal_string, literal_boolean, Expr, Exprs, literal, column, binary, unary, is_null, in_values,
  in_subquery, exists_subquery, scalar_subquery, between, paren, param, current_user, cast_as,
  function, no_exprs, one_more,
}
use noe_db.Sql.Token.{
  Token, Keyword, Operator, sym_eq, sym_ne, sym_lt, sym_gt, sym_le, sym_ge, sym_minus, sym_plus,
  sym_div, sym_mod, sym_distance, keyword, ident, quoted_ident, integer_token, float_token,
  string_token, op_token, punct, parameter, l_paren, r_paren, comma, dot, star, kw_null, kw_true,
  kw_false, kw_cast, kw_as, kw_not, kw_exists, kw_select, kw_with, kw_current_user, kw_is, kw_in,
  kw_between, kw_and, kw_or, kw_over, kw_like,
}
use noe_db.Sql.Parser.{
  Result, parsed, failed, out_of_fuel, ◌>>=◌, unexpected_token, Tokens, is_keyword, is_punct, at,
  at_second, bump, expect_keyword, expect_punct, parse_ident, parse_sql_type,
}

pub data Prec : Type 0 where
  prec_or prec_and prec_compare prec_add prec_primary : Prec

abbrev pub prec_level : Prec → ℕ
prec_level prec_or = 1
prec_level prec_and = 2
prec_level prec_compare = 3
prec_level prec_add = 4
prec_level prec_primary = 5

abbrev pub operator_to_binary : Operator → BinaryOp
operator_to_binary sym_eq = eq_op
operator_to_binary sym_ne = ne_op
operator_to_binary sym_lt = lt_op
operator_to_binary sym_gt = gt_op
operator_to_binary sym_le = le_op
operator_to_binary sym_ge = ge_op
operator_to_binary sym_plus = plus_op
operator_to_binary sym_minus = minus_op
operator_to_binary sym_div = div_op
operator_to_binary sym_mod = mod_op
operator_to_binary sym_distance = distance_op

abbrev pub is_additive : Operator → Bool
is_additive sym_plus = true
is_additive sym_minus = true
is_additive sym_div = true
is_additive sym_mod = true
is_additive _ = false

-- The parsers of the parts that the model leaves open.
pub record Subparsers (P : Parts) : Type 0 where
  pub parse_select_subquery : Tokens P → Result (P.SelectStmt × Tokens P)
  pub parse_window_spec : Tokens P → Result (P.WindowSpec × Tokens P)

module _ {P : Parts} where
  abbrev pub is_minus_sign : Token P → Bool
  is_minus_sign (op_token sym_minus) = true
  is_minus_sign _ = false

  abbrev pub starts_subquery : Token P → Bool
  starts_subquery t = is_keyword kw_select t || is_keyword kw_with t

  -- What is parsed behind a first identifier.
  unfoldable pub parse_column_from_ident : Bytes → Tokens P → Result (Expr P × Tokens P)
  unfolding parse_ident
  parse_column_from_ident first ts =
      if at (is_punct dot) ts
      then (if at (is_punct star) (bump ts)
          then parsed (column (qualified_star first), bump (bump ts))
          else (do
            (name, rest) ← parse_ident (bump ts)
            parsed (column (named_column (some first) name), rest)))
      else parsed (column (named_column none first), ts)

  -- The operators that a token stands for at the levels of comparisons and of arithmetic.
  abbrev pub comparison_of : Tokens P → Option BinaryOp
  comparison_of (op_token o ∷ ts) = if is_additive o then none else some (operator_to_binary o)
  comparison_of _ = none

  abbrev pub arithmetic_of : Tokens P → Option BinaryOp
  arithmetic_of (op_token o ∷ ts) = if is_additive o then some (operator_to_binary o) else none
  arithmetic_of (punct star ∷ ts) = some mul_op
  arithmetic_of _ = none

module _ {P : Parts} (sub : Subparsers P) (rec : Prec → Tokens P → Result (Expr P × Tokens P)) where
  -- Expressions with commas between them, at most `n` of them.
  unfoldable pub parse_comma_exprs : ℕ → Tokens P → Result (Exprs P × Tokens P)
  parse_comma_exprs zero ts = out_of_fuel
  parse_comma_exprs (suc n) ts = do
    (e, ts') ← rec prec_or ts
    let more = parse_comma_exprs n (bump ts')
    if at (is_punct comma) ts'
        then (do (es, rest) ← more; parsed (one_more e es, rest))
        else parsed (one_more e no_exprs, ts')

  abbrev pub parse_args : ℕ → Tokens P → Result (Exprs P × Tokens P)
  parse_args n ts =
      if at (is_punct r_paren) ts then parsed (no_exprs, ts) else parse_comma_exprs n ts

  abbrev pub parse_ident_expr : ℕ → Tokens P → Result (Expr P × Tokens P)
  parse_ident_expr n ts = do
    (first, ts') ← parse_ident ts
    if at (is_punct l_paren) ts'
        then (do
          (es, ts'') ← parse_args n (bump ts')
          rest ← expect_punct r_paren ts''
          parsed (function first es none, rest))
        else parse_column_from_ident first ts'

  abbrev pub parse_atom : ℕ → Tokens P → Result (Expr P × Tokens P)
  parse_atom n [] = failed unexpected_token
  parse_atom n (integer_token v ∷ ts) = parsed (literal (literal_integer v), ts)
  parse_atom n (float_token v ∷ ts) = parsed (literal (literal_float v), ts)
  parse_atom n (string_token s ∷ ts) = parsed (literal (literal_string s), ts)
  parse_atom n (keyword kw_null text ∷ ts) = parsed (literal literal_null, ts)
  parse_atom n (keyword kw_true text ∷ ts) = parsed (literal (literal_boolean true), ts)
  parse_atom n (keyword kw_false text ∷ ts) = parsed (literal (literal_boolean false), ts)
  parse_atom n (punct star ∷ ts) = parsed (column star_column, ts)
  parse_atom n (punct p ∷ ts) = failed unexpected_token
  parse_atom n (op_token o ∷ ts) = failed unexpected_token
  parse_atom n (parameter i ∷ ts) = failed unexpected_token
  parse_atom n ts = parse_ident_expr n ts

  abbrev pub parse_cast : Tokens P → Result (Expr P × Tokens P)
  parse_cast ts = do
    ts' ← expect_punct l_paren ts
    (inner, ts'') ← rec prec_or ts'
    ts''' ← expect_keyword kw_as ts''
    (ty, ts'''') ← parse_sql_type ts'''
    rest ← expect_punct r_paren ts''''
    parsed (cast_as inner ty, rest)

  abbrev pub parse_exists : Bool → Tokens P → Result (Expr P × Tokens P)
  parse_exists negated ts = do
    ts' ← expect_punct l_paren ts
    (query, ts'') ← sub.parse_select_subquery ts'
    rest ← expect_punct r_paren ts''
    parsed (exists_subquery query negated, rest)

  -- Behind an opening parenthesis.
  abbrev pub parse_parens : Tokens P → Result (Expr P × Tokens P)
  parse_parens ts =
      if at starts_subquery ts
      then (do
        (query, ts') ← sub.parse_select_subquery ts
        rest ← expect_punct r_paren ts'
        parsed (scalar_subquery query, rest))
      else (do
        (inner, ts') ← rec prec_or ts
        rest ← expect_punct r_paren ts'
        parsed (paren inner, rest))

  abbrev pub parse_operand : UnaryOp → Prec → Tokens P → Result (Expr P × Tokens P)
  parse_operand op min ts = do (inner, rest) ← rec min ts; parsed (unary op inner, rest)

  abbrev pub parse_parameter : ℕ → Tokens P → Result (Expr P × Tokens P)
  parse_parameter n (parameter i ∷ ts) = parsed (param i, ts)
  parse_parameter n ts = parse_atom n ts

  unfoldable pub parse_prefix : ℕ → Tokens P → Result (Expr P × Tokens P)
  unfolding parse_comma_exprs parse_ident expect_punct expect_keyword parse_column_from_ident
      parse_sql_type
  parse_prefix n ts =
      if at (is_keyword kw_cast) ts
      then parse_cast (bump ts)
      else if at (is_keyword kw_not) ts && at_second (is_keyword kw_exists) ts
      then parse_exists true (bump (bump ts))
      else if at (is_keyword kw_not) ts
      then parse_operand unary_not prec_and (bump ts)
      else if at is_minus_sign ts
      then parse_operand unary_minus prec_add (bump ts)
      else if at (is_keyword kw_exists) ts
      then parse_exists false (bump ts)
      else if at (is_punct l_paren) ts
      then parse_parens (bump ts)
      else if at (is_keyword kw_current_user) ts
      then parsed (current_user, bump ts)
      else parse_parameter n ts

  -- The right side of `IN`, made an expression at once.
  abbrev pub parse_in_rhs : ℕ → Expr P → Bool → Tokens P → Result (Expr P × Tokens P)
  parse_in_rhs n left negated ts = do
    ts' ← expect_punct l_paren ts
    if at (is_keyword kw_select) ts'
        then (do
          (query, ts'') ← sub.parse_select_subquery ts'
          rest ← expect_punct r_paren ts''
          parsed (in_subquery left query negated, rest))
        else (do
          (es, ts'') ← parse_args n ts'
          rest ← expect_punct r_paren ts''
          parsed (in_values left es negated, rest))

  abbrev pub parse_is_null : Expr P → Tokens P → Result (Expr P × Tokens P)
  parse_is_null left ts =
      if at (is_keyword kw_not) ts
      then (do rest ← expect_keyword kw_null (bump ts); parsed (is_null left true, rest))
      else (do rest ← expect_keyword kw_null ts; parsed (is_null left false, rest))

  abbrev pub parse_between : Expr P → Bool → Tokens P → Result (Expr P × Tokens P)
  parse_between left negated ts = do
    (low, ts') ← rec prec_compare ts
    ts'' ← expect_keyword kw_and ts'
    (high, rest) ← rec prec_compare ts''
    parsed (between left low high negated, rest)

  abbrev pub parse_over : Expr P → Tokens P → Result (Expr P × Tokens P)
  parse_over (function name es over) ts = do
    (spec, rest) ← sub.parse_window_spec ts
    parsed (function name es (some spec), rest)
  parse_over _ ts = failed unexpected_token

  abbrev pub parse_right : BinaryOp → Prec → Expr P → Tokens P → Result (Expr P × Tokens P)
  parse_right op min left ts = do (right, rest) ← rec min ts; parsed (binary op left right, rest)

  -- A round of the loop either goes on with a new left operand or ends.
  pub data Round : Type 0 where
    next_round : Result (Expr P × Tokens P) → Round
    last_round : Expr P → Tokens P → Round

  abbrev pub arithmetic_round : Prec → Expr P → Tokens P → Round
  arithmetic_round min left ts =
      if leb (prec_level min) (prec_level prec_add)
      then (elim (arithmetic_of ts) [
        | some op ↦ next_round (parse_right op prec_add left (bump ts))
        | none ↦ last_round left ts
      ])
      else last_round left ts

  abbrev pub compare_round : Prec → Expr P → Tokens P → Round
  compare_round min left ts =
      if leb (prec_level min) (prec_level prec_compare)
      then (elim (comparison_of ts) [
        | some op ↦ next_round (parse_right op prec_compare left (bump ts))
        | none ↦ arithmetic_round min left ts
      ])
      else arithmetic_round min left ts

  -- From `BETWEEN` on. A `NOT` that no `BETWEEN` follows is gone by then.
  abbrev pub keyword_round : Prec → Expr P → Tokens P → Round
  keyword_round min left ts =
      if at (is_keyword kw_between) ts
      then next_round (parse_between left false (bump ts))
      else if at (is_keyword kw_over) ts
      then next_round (parse_over left (bump ts))
      else if at (is_keyword kw_like) ts
      then next_round (parse_right like_op prec_compare left (bump ts))
      else if leb (prec_level min) (prec_level prec_or) && at (is_keyword kw_or) ts
      then next_round (parse_right or_op prec_and left (bump ts))
      else if leb (prec_level min) (prec_level prec_and) && at (is_keyword kw_and) ts
      then next_round (parse_right and_op prec_compare left (bump ts))
      else compare_round min left ts

  unfoldable pub parse_round : ℕ → Prec → Expr P → Tokens P → Round
  unfolding parse_comma_exprs expect_punct expect_keyword
  parse_round n min left ts =
      if at (is_keyword kw_is) ts
      then next_round (parse_is_null left (bump ts))
      else if at (is_keyword kw_not) ts && at_second (is_keyword kw_in) ts
      then next_round (parse_in_rhs n left true (bump (bump ts)))
      else if at (is_keyword kw_in) ts
      then next_round (parse_in_rhs n left false (bump ts))
      else if at (is_keyword kw_not) ts && at_second (is_keyword kw_between) ts
      then next_round (parse_between left true (bump (bump ts)))
      else if at (is_keyword kw_not) ts
      then keyword_round min left (bump ts)
      else keyword_round min left ts

  -- What follows a round, `again` being the rest of the loop.
  abbrev pub after_round :
      (Expr P → Tokens P → Result (Expr P × Tokens P)) → Round → Result (Expr P × Tokens P)
  after_round again (last_round e rest) = parsed (e, rest)
  after_round again (next_round (parsed (e, rest))) = again e rest
  after_round again (next_round (failed err)) = failed err
  after_round again (next_round out_of_fuel) = out_of_fuel

  -- The loop, with at most `k` rounds.
  unfoldable pub parse_loop : ℕ → ℕ → Prec → Expr P → Tokens P → Result (Expr P × Tokens P)
  unfolding parse_round
  parse_loop n zero min left ts = out_of_fuel
  parse_loop n (suc k) min left ts = after_round (parse_loop n k min) (parse_round n min left ts)

module _ {P : Parts} (sub : Subparsers P) where
  unfoldable pub parse_expr_prec : ℕ → Prec → Tokens P → Result (Expr P × Tokens P)
  unfolding parse_prefix parse_loop
  parse_expr_prec zero min ts = out_of_fuel
  parse_expr_prec (suc fuel) min ts = do
    (left, rest) ← parse_prefix sub (parse_expr_prec fuel) fuel ts
    parse_loop sub (parse_expr_prec fuel) fuel (suc fuel) min left rest

  -- With more fuel than tokens.
  unfoldable pub parse_expr : Tokens P → Result (Expr P × Tokens P)
  unfolding parse_expr_prec
  parse_expr ts = parse_expr_prec (suc (length ts)) prec_or ts
