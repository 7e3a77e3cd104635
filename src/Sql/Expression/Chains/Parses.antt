-- ===== src/Sql/Expression/Chains/Parses.antt =====
-- crates/noedb-parser/src/expr.rs: the parser implements the grammar of operators.
use noe_db.Base.{
  ℕ, zero, suc, ◌≤◌, [], ◌∷◌, ◌++◌, length, length-append, append_assoc, ◌≡◌, refl, ap, arith,
}
use noe_db.Sql.Ast.{Parts, Expr, and_op, or_op, mul_op}
use noe_db.Sql.Token.{op_token, punct, keyword, r_paren, star, kw_and, kw_or}
use noe_db.Sql.Parser.{parsed, Tokens}
use noe_db.Sql.Expression.{
  Subparsers, Prec, prec_or, prec_and, prec_compare, prec_add, prec_level, operator_to_binary,
  parse_expr_prec, parse_expr, parse_prefix, parse_column_from_ident,
}
use noe_db.Sql.Expression.Chains.{
  atoms, sums, comparisons, conjunctions, disjunctions, Reads, an_integer, a_string, a_column,
  in_parens, one_atom, a_sum, a_product, one_sum, a_comparison, one_comparison, a_conjunction,
  one_conjunction, a_disjunction, StopAt, at_r_paren, at_or_and, at_and_compare, at_comparison,
}
use noe_db.Sql.Expression.Chains.Rounds.{
  arithmetic_round_at, product_round_at, comparison_round_at, and_round_at, or_round_at,
}
use noe_db.Sql.Expression.Chains.Loops.{
  IsFree, StopAt-IsFree, StopAt-add, StopAt-compare, StopAt-and, no_subquery, Reaches, done, extend,
  length-split, length-right, parens-Reaches,
}

module _ {P : Parts} (sub : Subparsers P) where
  mutual
    unfolding parse_expr_prec parse_prefix parse_column_from_ident

    atoms-Reaches :
        {ts : Tokens P} {e : Expr P}
        → Reads atoms ts e
        → (fuel : ℕ) (min : Prec) (rest : Tokens P) → IsFree rest
        → length (ts ++ rest) ≤ fuel
        → Reaches sub fuel min (ts ++ rest) e rest
    atoms-Reaches an_integer fuel min rest free le = (suc fuel, omega arith, refl)
    atoms-Reaches a_string fuel min rest free le = (suc fuel, omega arith, refl)
    atoms-Reaches a_column fuel min rest free le = (suc fuel, omega arith, rw (free.0, free.1))
    atoms-Reaches (in_parens {ts = ts} {e = e} d) zero min rest free le = absurd (omega arith)
    atoms-Reaches (in_parens {ts = ts} {e = e} d) (suc f) min rest free le =
        let us = ts ++ (punct r_paren ∷ rest) in
        let enough : length us ≤ f =
          omega (arith, ap length (append_assoc ts (punct r_paren ∷ []) rest)) in
        rw (append_assoc ts (punct r_paren ∷ []) rest) (
          parens-Reaches sub f min us rest e
            (omega (arith, length-append ts (punct r_paren ∷ rest)))
            (no_subquery d (punct r_paren ∷ rest))
            (done sub f us e (disjunctions-Reaches d f (punct r_paren ∷ rest) at_r_paren enough)
              at_r_paren))

    pub sums-Reaches :
        {ts : Tokens P} {e : Expr P}
        → Reads sums ts e
        → (fuel : ℕ) (min : Prec) (rest : Tokens P) → prec_level min ≤ 4
        → StopAt prec_add rest
        → length (ts ++ rest) ≤ fuel
        → Reaches sub fuel min (ts ++ rest) e rest
    sums-Reaches (one_atom d) fuel min rest m s le =
        atoms-Reaches d fuel min rest (StopAt-IsFree s) le
    sums-Reaches (a_sum o {ts = ts} {us = us} {l = l} {r = r} h d c) fuel min rest m s le =
        extend sub fuel min prec_add ts us (op_token o) l r (operator_to_binary o) rest
          (omega (arith, length-split sub ts us rest (op_token o)))
          (atoms-Reaches d fuel min (op_token o ∷ (us ++ rest)) (refl, refl)
            (omega (arith, length-split sub ts us rest (op_token o))))
          (arithmetic_round_at sub (parse_expr_prec sub fuel) fuel min l o (us ++ rest) m h)
          (λ f same.
            sums-Reaches c f prec_add rest (omega arith) s
              (length-right sub ts us rest (op_token o) f (omega arith)))
          s
    sums-Reaches (a_product {ts = ts} {us = us} {l = l} {r = r} d c) fuel min rest m s le =
        extend sub fuel min prec_add ts us (punct star) l r mul_op rest
          (omega (arith, length-split sub ts us rest (punct star)))
          (atoms-Reaches d fuel min (punct star ∷ (us ++ rest)) (refl, refl)
            (omega (arith, length-split sub ts us rest (punct star))))
          (product_round_at sub (parse_expr_prec sub fuel) fuel min l (us ++ rest) m)
          (λ f same.
            sums-Reaches c f prec_add rest (omega arith) s
              (length-right sub ts us rest (punct star) f (omega arith)))
          s

    comparisons-Reaches :
        {ts : Tokens P} {e : Expr P}
        → Reads comparisons ts e
        → (fuel : ℕ) (min : Prec) (rest : Tokens P) → prec_level min ≤ 3
        → StopAt prec_compare rest
        → length (ts ++ rest) ≤ fuel
        → Reaches sub fuel min (ts ++ rest) e rest
    comparisons-Reaches (one_sum d) fuel min rest m s le =
        sums-Reaches d fuel min rest (omega arith) (StopAt-add s) le
    comparisons-Reaches (a_comparison o {ts = ts} {us = us} {l = l} {r = r} h d c) fuel min rest m s
          le =
        extend sub fuel min prec_compare ts us (op_token o) l r (operator_to_binary o) rest
          (omega (arith, length-split sub ts us rest (op_token o)))
          (sums-Reaches d fuel min (op_token o ∷ (us ++ rest)) (omega arith) (at_comparison o h)
            (omega (arith, length-split sub ts us rest (op_token o))))
          (comparison_round_at sub (parse_expr_prec sub fuel) fuel min l o (us ++ rest) m h)
          (λ f same.
            sums-Reaches c f prec_compare rest (omega arith) (StopAt-add s)
              (length-right sub ts us rest (op_token o) f (omega arith)))
          s

    pub conjunctions-Reaches :
        {ts : Tokens P} {e : Expr P}
        → Reads conjunctions ts e
        → (fuel : ℕ) (min : Prec) (rest : Tokens P) → prec_level min ≤ 2
        → StopAt prec_compare rest
        → length (ts ++ rest) ≤ fuel
        → Reaches sub fuel min (ts ++ rest) e rest
    conjunctions-Reaches (one_comparison d) fuel min rest m s le =
        comparisons-Reaches d fuel min rest (omega arith) s le
    conjunctions-Reaches (a_conjunction text {ts = ts} {us = us} {l = l} {r = r} d c) fuel min rest
          m s le =
        extend sub fuel min prec_compare ts us (keyword kw_and text) l r and_op rest
          (omega (arith, length-split sub ts us rest (keyword kw_and text)))
          (conjunctions-Reaches d fuel min (keyword kw_and text ∷ (us ++ rest)) m
            (at_and_compare text)
            (omega (arith, length-split sub ts us rest (keyword kw_and text))))
          (and_round_at sub (parse_expr_prec sub fuel) fuel min l text (us ++ rest) m)
          (λ f same.
            comparisons-Reaches c f prec_compare rest (omega arith) s
              (length-right sub ts us rest (keyword kw_and text) f (omega arith)))
          s

    disjunctions-Reaches :
        {ts : Tokens P} {e : Expr P}
        → Reads disjunctions ts e
        → (fuel : ℕ) (rest : Tokens P) → StopAt prec_and rest
        → length (ts ++ rest) ≤ fuel
        → Reaches sub fuel prec_or (ts ++ rest) e rest
    disjunctions-Reaches (one_conjunction d) fuel rest s le =
        conjunctions-Reaches d fuel prec_or rest (omega arith) (StopAt-compare s) le
    disjunctions-Reaches (a_disjunction text {ts = ts} {us = us} {l = l} {r = r} d c) fuel rest s
          le =
        extend sub fuel prec_or prec_and ts us (keyword kw_or text) l r or_op rest
          (omega (arith, length-split sub ts us rest (keyword kw_or text)))
          (disjunctions-Reaches d fuel (keyword kw_or text ∷ (us ++ rest)) (at_or_and text)
            (omega (arith, length-split sub ts us rest (keyword kw_or text))))
          (or_round_at sub (parse_expr_prec sub fuel) fuel l text (us ++ rest))
          (λ f same.
            conjunctions-Reaches c f prec_and rest (omega arith) (StopAt-compare s)
              (length-right sub ts us rest (keyword kw_or text) f (omega arith)))
          s

  -- A text of the grammar is parsed as the grammar reads it, whatever stands behind it that can end an
  -- expression: `OR` is weaker than `AND`, `AND` weaker than comparisons and those weaker than
  -- arithmetic, where all operators are alike and stand to the right, `*` and `/` not before `+`.
  pub parse_expr-Reads :
      (ts rest : Tokens P) (e : Expr P)
      → Reads disjunctions ts e
      → StopAt prec_or rest
      → parse_expr sub (ts ++ rest) ≡ parsed (e, rest)
  unfolding parse_expr
  parse_expr-Reads ts rest e d s =
      done sub (length (ts ++ rest)) (ts ++ rest) e
        (disjunctions-Reaches d (length (ts ++ rest)) rest (StopAt-and s) (omega arith)) s
