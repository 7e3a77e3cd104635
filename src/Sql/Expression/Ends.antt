-- ===== src/Sql/Expression/Ends.antt =====
-- crates/noedb-parser/src/expr.rs: the parsers of the parts of an expression use up tokens.
use noe_db.Base.{ℕ, zero, suc, ◌≤◌, ◌<◌, Bool, true, false, [], ◌∷◌, length, arith}
use noe_db.Base.Bytes.{Bytes}
use noe_db.Sql.Ast.{Parts, Expr, BinaryOp, UnaryOp, function, unary_not, unary_minus}
use noe_db.Sql.Token.{
  keyword, ident, quoted_ident, integer_token, float_token, string_token, op_token, punct,
  parameter, l_paren, r_paren, comma, dot, star, kw_null, kw_true, kw_false, kw_as, kw_not, kw_and,
  kw_select,
}
use noe_db.Sql.Parser.{Result, Tokens, bump, at, is_keyword, is_punct}
use noe_db.Sql.Expression.{
  Subparsers, Prec, prec_or, prec_and, prec_compare, prec_add, parse_comma_exprs, parse_args,
  parse_ident_expr, parse_atom, parse_cast, parse_exists, parse_parens, parse_operand,
  parse_parameter, parse_prefix, parse_in_rhs, parse_is_null, parse_between, parse_over,
  parse_right, parse_column_from_ident, starts_subquery,
}
use noe_db.Sql.Expression.Fuel.{
  Good, good_parsed, good_failed, Good-mono, Good-if, Good-bind, GoodTokens-bind, length-bump,
  expect_keyword-Good, expect_punct-Good, parse_ident-Good, parse_sql_type-Good,
}

-- What is required of the parsers of subqueries and windows: they end, and use up tokens.
pub record UsesTokens {P : Parts} (sub : Subparsers P) : Type 0 where
  pub select_Good : (ts : Tokens P) → Good (length ts) (sub.parse_select_subquery ts)
  pub window_Good : (ts : Tokens P) → Good (length ts) (sub.parse_window_spec ts)

module _ {P : Parts} where
  parse_column-Good :
      (first : Bytes) (ts : Tokens P) → Good (suc (length ts)) (parse_column_from_ident first ts)
  unfolding parse_column_from_ident
  parse_column-Good first ts =
      Good-if (at (is_punct dot) ts)
        (Good-if (at (is_punct star) (bump ts))
          (good_parsed (omega (arith, length-bump ts, length-bump (bump ts))))
          (Good-bind _ (parse_ident-Good (bump ts))
            λ name rest h. good_parsed (omega (arith, length-bump ts))))
        (good_parsed (omega arith))

module _ {P : Parts} (sub : Subparsers P) (uses : UsesTokens sub)
    (rec : Prec → Tokens P → Result (Expr P × Tokens P)) (n : ℕ)
    (rec_Good : (min : Prec) (ts : Tokens P) → length ts < n → Good (length ts) (rec min ts)) where
  open uses use {select_Good, window_Good}

  comma_exprs-Good :
      (k : ℕ) (ts : Tokens P)
      → length ts < n
      → length ts < k
      → Good (length ts) (parse_comma_exprs sub rec k ts)
  unfolding parse_comma_exprs
  comma_exprs-Good zero ts h h' = absurd (omega arith)
  comma_exprs-Good (suc k) ts h h' = Good-bind _ (rec_Good prec_or ts h) λ e rest lt.
      Good-if (at (is_punct comma) rest)
        (Good-bind _
          (comma_exprs-Good k (bump rest) (omega (arith, length-bump rest))
            (omega (arith, length-bump rest)))
          λ es rest' lt'. good_parsed (omega (arith, length-bump rest)))
        (good_parsed lt)

  args-Good : (ts : Tokens P) → length ts < n → Good (suc (length ts)) (parse_args sub rec n ts)
  args-Good ts h =
      Good-if (at (is_punct r_paren) ts) (good_parsed (omega arith))
        (Good-mono (comma_exprs-Good n ts h h) (omega arith))

  ident_expr-Good :
      (ts : Tokens P) → length ts ≤ n → Good (length ts) (parse_ident_expr sub rec n ts)
  ident_expr-Good ts h = Good-bind _ (parse_ident-Good ts) λ first rest lt.
      Good-if (at (is_punct l_paren) rest)
        (Good-bind _ (args-Good (bump rest) (omega (arith, length-bump rest))) λ es rest' lt'.
          GoodTokens-bind _ (expect_punct-Good r_paren rest')
            λ rest'' lt''. good_parsed (omega (arith, length-bump rest)))
        (Good-mono (parse_column-Good first rest) (omega arith))

  cast-Good : (ts : Tokens P) → length ts < n → Good (length ts) (parse_cast sub rec ts)
  cast-Good ts h = GoodTokens-bind _ (expect_punct-Good l_paren ts) λ a la.
      Good-bind _ (rec_Good prec_or a (omega arith)) λ inner b lb.
        GoodTokens-bind _ (expect_keyword-Good kw_as b) λ c lc.
          Good-bind _ (parse_sql_type-Good c) λ ty d ld.
            GoodTokens-bind _ (expect_punct-Good r_paren d) λ e le. good_parsed (omega arith)

  exists-Good :
      (negated : Bool) (ts : Tokens P) → Good (length ts) (parse_exists sub rec negated ts)
  exists-Good negated ts = GoodTokens-bind _ (expect_punct-Good l_paren ts) λ a la.
      Good-bind _ (select_Good a) λ query b lb.
        GoodTokens-bind _ (expect_punct-Good r_paren b) λ c lc. good_parsed (omega arith)

  parens-Good : (ts : Tokens P) → length ts < n → Good (length ts) (parse_parens sub rec ts)
  parens-Good ts h =
      Good-if (at starts_subquery ts)
        (Good-bind _ (select_Good ts) λ query a la.
          GoodTokens-bind _ (expect_punct-Good r_paren a) λ b lb. good_parsed (omega arith))
        (Good-bind _ (rec_Good prec_or ts h) λ inner a la.
          GoodTokens-bind _ (expect_punct-Good r_paren a) λ b lb. good_parsed (omega arith))

  operand-Good :
      (op : UnaryOp) (min : Prec) (ts : Tokens P)
      → length ts < n
      → Good (length ts) (parse_operand sub rec op min ts)
  operand-Good op min ts h = Good-bind _ (rec_Good min ts h) λ inner a la. good_parsed la

  pub right-Good :
      (op : BinaryOp) (min : Prec) (left : Expr P) (ts : Tokens P)
      → length ts < n
      → Good (length ts) (parse_right sub rec op min left ts)
  right-Good op min left ts h = Good-bind _ (rec_Good min ts h) λ right a la. good_parsed la

  pub between-Good :
      (left : Expr P) (negated : Bool) (ts : Tokens P)
      → length ts < n
      → Good (length ts) (parse_between sub rec left negated ts)
  between-Good left negated ts h = Good-bind _ (rec_Good prec_compare ts h) λ low a la.
      GoodTokens-bind _ (expect_keyword-Good kw_and a) λ b lb.
        Good-bind _ (rec_Good prec_compare b (omega arith)) λ high c lc. good_parsed (omega arith)

  pub is_null-Good :
      (left : Expr P) (ts : Tokens P) → Good (length ts) (parse_is_null sub rec left ts)
  is_null-Good left ts =
      Good-if (at (is_keyword kw_not) ts)
        (GoodTokens-bind _ (expect_keyword-Good kw_null (bump ts))
          λ a la. good_parsed (omega (arith, length-bump ts)))
        (GoodTokens-bind _ (expect_keyword-Good kw_null ts) λ a la. good_parsed la)

  pub in_rhs-Good :
      (left : Expr P) (negated : Bool) (ts : Tokens P)
      → length ts < n
      → Good (length ts) (parse_in_rhs sub rec n left negated ts)
  in_rhs-Good left negated ts h = GoodTokens-bind _ (expect_punct-Good l_paren ts) λ a la.
      Good-if (at (is_keyword kw_select) a)
        (Good-bind _ (select_Good a) λ query b lb.
          GoodTokens-bind _ (expect_punct-Good r_paren b) λ c lc. good_parsed (omega arith))
        (Good-bind _ (args-Good a (omega arith)) λ es b lb.
          GoodTokens-bind _ (expect_punct-Good r_paren b) λ c lc. good_parsed (omega arith))

  pub over-Good : (left : Expr P) (ts : Tokens P) → Good (length ts) (parse_over sub rec left ts)
  over-Good (function name es over) ts = Good-bind _ (window_Good ts) λ spec a la. good_parsed la
  over-Good left ts = good_failed

  atom-Good : (ts : Tokens P) → length ts ≤ n → Good (length ts) (parse_atom sub rec n ts)
  atom-Good [] h = good_failed
  atom-Good (integer_token v ∷ ts) h = good_parsed (omega arith)
  atom-Good (float_token v ∷ ts) h = good_parsed (omega arith)
  atom-Good (string_token s ∷ ts) h = good_parsed (omega arith)
  atom-Good (keyword kw_null text ∷ ts) h = good_parsed (omega arith)
  atom-Good (keyword kw_true text ∷ ts) h = good_parsed (omega arith)
  atom-Good (keyword kw_false text ∷ ts) h = good_parsed (omega arith)
  atom-Good (keyword kw text ∷ ts) h = ident_expr-Good (keyword kw text ∷ ts) h
  atom-Good (ident text ∷ ts) h = ident_expr-Good (ident text ∷ ts) h
  atom-Good (quoted_ident s ∷ ts) h = ident_expr-Good (quoted_ident s ∷ ts) h
  atom-Good (punct star ∷ ts) h = good_parsed (omega arith)
  atom-Good (punct p ∷ ts) h = good_failed
  atom-Good (op_token o ∷ ts) h = good_failed
  atom-Good (parameter i ∷ ts) h = good_failed

  parameter-Good : (ts : Tokens P) → length ts ≤ n → Good (length ts) (parse_parameter sub rec n ts)
  parameter-Good (parameter i ∷ ts) h = good_parsed (omega arith)
  parameter-Good ts h = atom-Good ts h

  pub prefix-Good : (ts : Tokens P) → length ts ≤ n → Good (length ts) (parse_prefix sub rec n ts)
  unfolding parse_prefix
  prefix-Good [] h = good_failed
  prefix-Good (t ∷ ts) h =
      let less : length ts < n = omega arith in
      let less' : length (bump ts) < n = omega (arith, length-bump ts) in
      let le : length ts ≤ length (t ∷ ts) = omega arith in
      let le' : length (bump ts) ≤ length (t ∷ ts) = omega (arith, length-bump ts) in
      Good-if _ (Good-mono (cast-Good ts less) le) (
        Good-if _ (Good-mono (exists-Good true (bump ts)) le') (
          Good-if _ (Good-mono (operand-Good unary_not prec_and ts less) le) (
            Good-if _ (Good-mono (operand-Good unary_minus prec_add ts less) le) (
              Good-if _ (Good-mono (exists-Good false ts) le) (
                Good-if _ (Good-mono (parens-Good ts less) le)
                  (Good-if _ (good_parsed (omega arith)) (parameter-Good (t ∷ ts) h)))))))
