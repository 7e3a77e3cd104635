-- ===== src/Sql/Expression/Chains/Rounds.antt =====
-- crates/noedb-parser/src/expr.rs: the rounds of the loop at the operators of the grammar.
use noe_db.Base.{ℕ, true, false, ◌∷◌, ◌≡◌, refl, ◌≤◌, arith}
use noe_db.Base.Bytes.{Bytes}
use noe_db.Sql.Ast.{Parts, Expr, and_op, or_op, mul_op}
use noe_db.Sql.Token.{Operator, keyword, punct, op_token, star, kw_and, kw_or}
use noe_db.Sql.Parser.{Result, Tokens}
use noe_db.Sql.Expression.{
  Subparsers, Prec, prec_or, prec_and, prec_compare, prec_add, prec_primary, is_additive,
  operator_to_binary, parse_round, next_round, last_round, parse_right, prec_level,
}
use noe_db.Sql.Expression.Chains.{
  StopAt, at_end, at_r_paren, at_comma, at_semicolon, at_or_and, at_or_compare, at_or_add,
  at_and_compare, at_and_add, at_comparison,
}

module _ {P : Parts} (sub : Subparsers P) (rec : Prec → Tokens P → Result (Expr P × Tokens P))
    (n : ℕ) where
  pub stop_round :
      {min : Prec} (left : Expr P) {rest : Tokens P}
      → StopAt min rest
      → parse_round sub rec n min left rest ≡ last_round left rest
  unfolding parse_round
  stop_round left (at_end {min = prec_or}) = refl
  stop_round left (at_end {min = min}) = refl
  stop_round left (at_r_paren {min = prec_or}) = refl
  stop_round left (at_r_paren {min = min}) = refl
  stop_round left (at_comma {min = prec_or}) = refl
  stop_round left (at_comma {min = min}) = refl
  stop_round left (at_semicolon {min = prec_or}) = refl
  stop_round left (at_semicolon {min = min}) = refl
  stop_round left (at_or_and text) = refl
  stop_round left (at_or_compare text) = refl
  stop_round left (at_or_add text) = refl
  stop_round left (at_and_compare text) = refl
  stop_round left (at_and_add text) = refl
  stop_round left (at_comparison o e) = ground arith

  pub arithmetic_round_at :
      (min : Prec) (left : Expr P) (o : Operator) (rest : Tokens P)
      → prec_level min ≤ 4
      → is_additive o ≡ true
      → parse_round sub rec n min left (op_token o ∷ rest)
        ≡ next_round (parse_right sub rec (operator_to_binary o) prec_add left rest)
  unfolding parse_round
  arithmetic_round_at prec_or left o rest le e = ground arith
  arithmetic_round_at prec_and left o rest le e = ground arith
  arithmetic_round_at prec_compare left o rest le e = ground arith
  arithmetic_round_at prec_add left o rest le e = ground arith
  arithmetic_round_at prec_primary left o rest le e = absurd (omega arith)

  pub product_round_at :
      (min : Prec) (left : Expr P) (rest : Tokens P)
      → prec_level min ≤ 4
      → parse_round sub rec n min left (punct star ∷ rest)
        ≡ next_round (parse_right sub rec mul_op prec_add left rest)
  unfolding parse_round
  product_round_at prec_or left rest le = refl
  product_round_at prec_and left rest le = refl
  product_round_at prec_compare left rest le = refl
  product_round_at prec_add left rest le = refl
  product_round_at prec_primary left rest le = absurd (omega arith)

  pub comparison_round_at :
      (min : Prec) (left : Expr P) (o : Operator) (rest : Tokens P)
      → prec_level min ≤ 3
      → is_additive o ≡ false
      → parse_round sub rec n min left (op_token o ∷ rest)
        ≡ next_round (parse_right sub rec (operator_to_binary o) prec_compare left rest)
  unfolding parse_round
  comparison_round_at prec_or left o rest le e = ground arith
  comparison_round_at prec_and left o rest le e = ground arith
  comparison_round_at prec_compare left o rest le e = ground arith
  comparison_round_at min left o rest le e = absurd (omega arith)

  pub and_round_at :
      (min : Prec) (left : Expr P) (text : Bytes) (rest : Tokens P)
      → prec_level min ≤ 2
      → parse_round sub rec n min left (keyword kw_and text ∷ rest)
        ≡ next_round (parse_right sub rec and_op prec_compare left rest)
  unfolding parse_round
  and_round_at prec_or left text rest le = refl
  and_round_at prec_and left text rest le = refl
  and_round_at min left text rest le = absurd (omega arith)

  pub or_round_at :
      (left : Expr P) (text : Bytes) (rest : Tokens P)
      → parse_round sub rec n prec_or left (keyword kw_or text ∷ rest)
        ≡ next_round (parse_right sub rec or_op prec_and left rest)
  unfolding parse_round
  or_round_at left text rest = refl
