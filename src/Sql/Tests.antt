-- ===== src/Sql/Tests.antt =====
-- Examples, and the theorems of the parser at concrete inputs.
use noe_db.Base.{ℕ, [], ◌∷◌, ◌++◌, ◌≡◌, refl, none}
use noe_db.Base.Text.{codes}
use noe_db.Base.Int.{pos}
use noe_db.Sql.Ast.{
  Parts, Expr, literal, column, binary, unary, named_column, literal_integer, plus_op, mul_op,
  lt_op, and_op, or_op, unary_not,
}
use noe_db.Sql.Token.{
  Token, Keyword, integer_token, ident, keyword, op_token, punct, star, sym_plus, sym_lt, kw_and,
  kw_or, kw_not, kw_like, r_paren, string_token,
}
use noe_db.Sql.Parser.{parsed, failed, unexpected_token, Tokens}
use noe_db.Sql.Expression.{Subparsers, prec_or, parse_expr, parse_expr_prec}
use noe_db.Sql.Expression.Chains.{
  Reads, comparisons, conjunctions, disjunctions, an_integer, a_column, one_atom, one_sum,
  a_comparison, one_comparison, a_conjunction, one_conjunction, a_disjunction, at_r_paren, at_end,
}
use noe_db.Sql.Expression.Chains.Parses.{parse_expr-Reads}
use noe_db.Sql.Expression.Chains.Prefixes.{parse_expr-not, parse_expr_prec-not_like}

abbrev parts : Parts
parts = record { Float = ℕ; Float32 = ℕ; SelectStmt = ℕ; WindowSpec = ℕ }

abbrev sub : Subparsers parts
sub = record {
  parse_select_subquery = λ ts. failed unexpected_token;
  parse_window_spec = λ ts. failed unexpected_token;
}

abbrev num : ℕ → Token parts
num n = integer_token (pos n)

abbrev lit : ℕ → Expr parts
lit n = literal (literal_integer (pos n))

abbrev word : Keyword → Token parts
word kw = keyword kw []

-- `2 * 3 + 4`
abbrev product_and_sum : Tokens parts
product_and_sum = num 2 ∷ punct star ∷ num 3 ∷ op_token sym_plus ∷ num 4 ∷ []

product_of_sum :
    parse_expr sub product_and_sum
    ≡ parsed (binary mul_op (lit 2) (binary plus_op (lit 3) (lit 4)), [])
unfolding parse_expr
product_of_sum = refl

-- `a AND 1 < 2 OR 3`
abbrev condition : Tokens parts
condition =
    ident (codes "a") ∷ word kw_and ∷ num 1 ∷ op_token sym_lt ∷ num 2 ∷ word kw_or ∷ num 3 ∷ []

abbrev a : Expr parts
a = column (named_column none (codes "a"))

abbrev condition_expr : Expr parts
condition_expr = binary or_op (binary and_op a (binary lt_op (lit 1) (lit 2))) (lit 3)

a-Reads : Reads conjunctions (ident (codes "a") ∷ []) a
a-Reads = one_comparison (one_sum (one_atom a_column))

less-Reads : Reads comparisons (num 1 ∷ op_token sym_lt ∷ num 2 ∷ []) (binary lt_op (lit 1) (lit 2))
less-Reads = a_comparison sym_lt refl (one_atom an_integer) (one_atom an_integer)

condition-Reads : Reads disjunctions condition condition_expr
condition-Reads =
    a_disjunction [] (one_conjunction (a_conjunction [] a-Reads less-Reads))
      (one_comparison (one_sum (one_atom an_integer)))

parse_expr-Reads_example :
    parse_expr sub (condition ++ (punct r_paren ∷ [])) ≡ parsed (condition_expr, punct r_paren ∷ [])
parse_expr-Reads_example =
    parse_expr-Reads sub condition (punct r_paren ∷ []) condition_expr condition-Reads at_r_paren

-- `NOT a AND 1 < 2`, in which `NOT` takes all.
abbrev a_and_less : Tokens parts
a_and_less = ident (codes "a") ∷ word kw_and ∷ num 1 ∷ op_token sym_lt ∷ num 2 ∷ []

parse_expr-not_example :
    parse_expr sub (word kw_not ∷ (a_and_less ++ []))
    ≡ parsed (unary unary_not (binary and_op a (binary lt_op (lit 1) (lit 2))), [])
parse_expr-not_example =
    parse_expr-not sub a_and_less [] (binary and_op a (binary lt_op (lit 1) (lit 2))) []
      (a_conjunction [] a-Reads less-Reads) at_end

parse_expr_prec-not_like_example :
    parse_expr_prec sub 9 prec_or
      (ident (codes "a") ∷ word kw_not ∷ word kw_like ∷ string_token (codes "x%") ∷ [])
    ≡ parse_expr_prec sub 9 prec_or
        (ident (codes "a") ∷ word kw_like ∷ string_token (codes "x%") ∷ [])
parse_expr_prec-not_like_example =
    parse_expr_prec-not_like sub 9 prec_or (codes "a") [] [] (string_token (codes "x%") ∷ [])
