-- ===== src/Sql/Expression/Chains/Prefixes.antt =====
-- crates/noedb-parser/src/expr.rs: `NOT` and `-` before an operand, and `NOT` behind one.
use noe_db.Base.{
  ℕ, zero, suc, ◌∷◌, ◌++◌, length, length-append, ◌≡◌, refl, arith, ◌∙◌, ap, false, ◌<◌,
  append_assoc,
}
use noe_db.Base.Bytes.{Bytes}
use noe_db.Sql.Ast.{Parts, Expr, unary, unary_not, unary_minus}
use noe_db.Sql.Token.{
  keyword, ident, op_token, sym_minus, kw_not, kw_like, kw_exists, star, kw_and, kw_or,
}
use noe_db.Sql.Parser.{Result, parsed, Tokens, is_keyword, at, ◌>>=◌, parse_ident}
use noe_db.Sql.Expression.{
  Subparsers, Prec, prec_or, prec_and, prec_add, parse_prefix, parse_loop, parse_round,
  parse_expr_prec, parse_expr, parse_column_from_ident, punct,
}
use noe_db.Sql.Expression.Chains.{
  Reads, sums, conjunctions, StopAt, an_integer, a_string, a_column, in_parens, one_atom, a_sum,
  a_product, one_sum, a_comparison, one_comparison, a_conjunction, Layer, one_conjunction,
  a_disjunction,
}
use noe_db.Sql.Expression.Chains.Loops.{StopAt-add, StopAt-compare, StopAt-and, loop_stops, done}
use noe_db.Sql.Expression.Chains.Parses.{sums-Reaches, conjunctions-Reaches}

module _ {P : Parts} where
  not_exists :
      {layer : Layer} {ts : Tokens P} {e : Expr P}
      → Reads layer ts e
      → (us : Tokens P) → at (is_keyword kw_exists) (ts ++ us) ≡ false
  not_exists an_integer us = refl
  not_exists a_string us = refl
  not_exists a_column us = refl
  not_exists (in_parens d) us = refl
  not_exists (one_atom d) us = not_exists d us
  not_exists (a_sum o {ts = ts} {us = vs} h d f) us =
      rw (append_assoc ts (op_token o ∷ vs) us) (not_exists d ((op_token o ∷ vs) ++ us))
  not_exists (a_product {ts = ts} {us = vs} d f) us =
      rw (append_assoc ts (punct star ∷ vs) us) (not_exists d ((punct star ∷ vs) ++ us))
  not_exists (one_sum d) us = not_exists d us
  not_exists (a_comparison o {ts = ts} {us = vs} h d f) us =
      rw (append_assoc ts (op_token o ∷ vs) us) (not_exists d ((op_token o ∷ vs) ++ us))
  not_exists (one_comparison d) us = not_exists d us
  not_exists (a_conjunction text {ts = ts} {us = vs} d f) us =
      rw (append_assoc ts (keyword kw_and text ∷ vs) us)
        (not_exists d ((keyword kw_and text ∷ vs) ++ us))
  not_exists (one_conjunction d) us = not_exists d us
  not_exists (a_disjunction text {ts = ts} {us = vs} d f) us =
      rw (append_assoc ts (keyword kw_or text ∷ vs) us)
        (not_exists d ((keyword kw_or text ∷ vs) ++ us))

module _ {P : Parts} (sub : Subparsers P) where
  not_prefix :
      (rec : Prec → Tokens P → Result (Expr P × Tokens P)) (n : ℕ) (text : Bytes)
      (us rest : Tokens P) (e : Expr P)
      → at (is_keyword kw_exists) us ≡ false
      → rec prec_and us ≡ parsed (e, rest)
      → parse_prefix sub rec n (keyword kw_not text ∷ us) ≡ parsed (unary unary_not e, rest)
  unfolding parse_prefix
  not_prefix rec n text us rest e h k = rw (h, k)

  minus_prefix :
      (rec : Prec → Tokens P → Result (Expr P × Tokens P)) (n : ℕ) (us rest : Tokens P) (e : Expr P)
      → rec prec_add us ≡ parsed (e, rest)
      → parse_prefix sub rec n (op_token sym_minus ∷ us) ≡ parsed (unary unary_minus e, rest)
  unfolding parse_prefix
  minus_prefix rec n us rest e k = rw k

  -- From the operand on.
  from_prefix :
      (f : ℕ) (ts : Tokens P) (e : Expr P) (rest : Tokens P)
      → parse_prefix sub (parse_expr_prec sub (suc f)) (suc f) ts ≡ parsed (e, rest)
      → length rest < suc (suc f)
      → StopAt prec_or rest
      → parse_expr_prec sub (suc (suc f)) prec_or ts ≡ parsed (e, rest)
  unfolding parse_expr_prec
  from_prefix f ts e rest same lt s =
      ap
        (λ r. r >>= λ q.
          parse_loop sub (parse_expr_prec sub (suc f)) (suc f) (suc (suc f)) prec_or q.0 q.1)
        same
      ∙ loop_stops sub (suc f) (suc (suc f)) e lt s

  -- `NOT` takes the whole of a conjunction for its operand, whatever stands behind it that can end an
  -- expression.
  pub parse_expr-not :
      (ts rest : Tokens P) (e : Expr P) (text : Bytes)
      → Reads conjunctions ts e
      → StopAt prec_or rest
      → parse_expr sub (keyword kw_not text ∷ (ts ++ rest)) ≡ parsed (unary unary_not e, rest)
  unfolding parse_expr
  parse_expr-not ts rest e text d s =
      let f = length (ts ++ rest) in
      let stop = StopAt-compare (StopAt-and s) in
      let operand =
        done sub f (ts ++ rest) e
          (conjunctions-Reaches sub d f prec_and rest (omega arith) stop (omega arith))
          (StopAt-and s) in
      from_prefix f (keyword kw_not text ∷ (ts ++ rest)) (unary unary_not e) rest
        (not_prefix (parse_expr_prec sub (suc f)) (suc f) text (ts ++ rest) rest e
          (not_exists d rest) operand)
        (omega (arith, length-append ts rest)) s

  -- `-` takes the whole of a sum.
  pub parse_expr-minus :
      (ts rest : Tokens P) (e : Expr P)
      → Reads sums ts e
      → StopAt prec_or rest
      → parse_expr sub (op_token sym_minus ∷ (ts ++ rest)) ≡ parsed (unary unary_minus e, rest)
  unfolding parse_expr
  parse_expr-minus ts rest e d s =
      let f = length (ts ++ rest) in
      let stop = StopAt-add (StopAt-compare (StopAt-and s)) in
      let operand =
        done sub f (ts ++ rest) e
          (sums-Reaches sub d f prec_add rest (omega arith) stop (omega arith)) stop in
      from_prefix f (op_token sym_minus ∷ (ts ++ rest)) (unary unary_minus e) rest
        (minus_prefix (parse_expr_prec sub (suc f)) (suc f) (ts ++ rest) rest e operand)
        (omega (arith, length-append ts rest)) s

  -- A column, `NOT LIKE` and any tokens are parsed as the column, `LIKE` and the tokens: the `NOT` is
  -- gone, at every level and with every fuel.
  pub parse_expr_prec-not_like :
      (fuel : ℕ) (min : Prec) (name text text' : Bytes) (ts : Tokens P)
      → parse_expr_prec sub fuel min (ident name ∷ keyword kw_not text ∷ keyword kw_like text' ∷ ts)
        ≡ parse_expr_prec sub fuel min (ident name ∷ keyword kw_like text' ∷ ts)
  unfolding parse_expr_prec parse_prefix parse_loop parse_round parse_column_from_ident parse_ident
  parse_expr_prec-not_like zero min name text text' ts = refl
  parse_expr_prec-not_like (suc fuel) min name text text' ts = refl
