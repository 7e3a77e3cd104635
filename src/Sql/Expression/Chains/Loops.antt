-- ===== src/Sql/Expression/Chains/Loops.antt =====
-- crates/noedb-parser/src/expr.rs: the loop of the parser at the ends and the operators of the grammar.
use noe_db.Base.{
  ℕ, zero, suc, ◌≤◌, ◌<◌, false, ◌∷◌, ◌++◌, length, length-append, append_assoc, ◌≡◌, refl, ◌∙◌, ap,
  arith,
}
use noe_db.Sql.Ast.{Parts, Expr, BinaryOp, binary, paren}
use noe_db.Sql.Token.{Token, op_token, punct, keyword, l_paren, r_paren, dot, star, kw_and, kw_or}
use noe_db.Sql.Parser.{Result, parsed, Tokens, ◌>>=◌, expect_punct, at, is_punct}
use noe_db.Sql.Expression.{
  Subparsers, Prec, prec_or, prec_and, prec_compare, prec_add, next_round, parse_round, parse_loop,
  parse_right, parse_expr_prec, starts_subquery, parse_prefix,
}
use noe_db.Sql.Expression.Chains.{
  Layer, Reads, an_integer, a_string, a_column, in_parens, one_atom, a_sum, a_product, one_sum,
  a_comparison, one_comparison, a_conjunction, one_conjunction, a_disjunction, StopAt, at_end,
  at_r_paren, at_comma, at_semicolon, at_or_and, at_or_compare, at_or_add, at_and_compare,
  at_and_add, at_comparison,
}
use noe_db.Sql.Expression.Chains.Rounds.{stop_round}

module _ {P : Parts} where
  -- Behind an identifier: no call, and no column of a table.
  abbrev pub IsFree : Tokens P → Type 0
  IsFree rest = (at (is_punct l_paren) rest ≡ false) × (at (is_punct dot) rest ≡ false)

  pub StopAt-IsFree : {min : Prec} {rest : Tokens P} → StopAt min rest → IsFree rest
  StopAt-IsFree at_end = (refl, refl)
  StopAt-IsFree at_r_paren = (refl, refl)
  StopAt-IsFree at_comma = (refl, refl)
  StopAt-IsFree at_semicolon = (refl, refl)
  StopAt-IsFree (at_or_and text) = (refl, refl)
  StopAt-IsFree (at_or_compare text) = (refl, refl)
  StopAt-IsFree (at_or_add text) = (refl, refl)
  StopAt-IsFree (at_and_compare text) = (refl, refl)
  StopAt-IsFree (at_and_add text) = (refl, refl)
  StopAt-IsFree (at_comparison o e) = (refl, refl)

  -- What stops a comparison stops a sum.
  pub StopAt-add : {rest : Tokens P} → StopAt prec_compare rest → StopAt prec_add rest
  StopAt-add at_end = at_end
  StopAt-add at_r_paren = at_r_paren
  StopAt-add at_comma = at_comma
  StopAt-add at_semicolon = at_semicolon
  StopAt-add (at_or_compare text) = at_or_add text
  StopAt-add (at_and_compare text) = at_and_add text

  pub StopAt-compare : {rest : Tokens P} → StopAt prec_and rest → StopAt prec_compare rest
  StopAt-compare at_end = at_end
  StopAt-compare at_r_paren = at_r_paren
  StopAt-compare at_comma = at_comma
  StopAt-compare at_semicolon = at_semicolon
  StopAt-compare (at_or_and text) = at_or_compare text

  pub StopAt-and : {rest : Tokens P} → StopAt prec_or rest → StopAt prec_and rest
  StopAt-and at_end = at_end
  StopAt-and at_r_paren = at_r_paren
  StopAt-and at_comma = at_comma
  StopAt-and at_semicolon = at_semicolon

  pub no_subquery :
      {layer : Layer} {ts : Tokens P} {e : Expr P}
      → Reads layer ts e
      → (us : Tokens P) → at starts_subquery (ts ++ us) ≡ false
  no_subquery an_integer us = refl
  no_subquery a_string us = refl
  no_subquery a_column us = refl
  no_subquery (in_parens d) us = refl
  no_subquery (one_atom d) us = no_subquery d us
  no_subquery (a_sum o {ts = ts} {us = vs} h d f) us =
      rw (append_assoc ts (op_token o ∷ vs) us) (no_subquery d ((op_token o ∷ vs) ++ us))
  no_subquery (a_product {ts = ts} {us = vs} d f) us =
      rw (append_assoc ts (punct star ∷ vs) us) (no_subquery d ((punct star ∷ vs) ++ us))
  no_subquery (one_sum d) us = no_subquery d us
  no_subquery (a_comparison o {ts = ts} {us = vs} h d f) us =
      rw (append_assoc ts (op_token o ∷ vs) us) (no_subquery d ((op_token o ∷ vs) ++ us))
  no_subquery (one_comparison d) us = no_subquery d us
  no_subquery (a_conjunction text {ts = ts} {us = vs} d f) us =
      rw (append_assoc ts (keyword kw_and text ∷ vs) us)
        (no_subquery d ((keyword kw_and text ∷ vs) ++ us))
  no_subquery (one_conjunction d) us = no_subquery d us
  no_subquery (a_disjunction text {ts = ts} {us = vs} d f) us =
      rw (append_assoc ts (keyword kw_or text ∷ vs) us)
        (no_subquery d ((keyword kw_or text ∷ vs) ++ us))

module _ {P : Parts} (sub : Subparsers P) where
  -- The parser comes to the loop with the operand `e` and rounds enough for the `rest`.
  abbrev pub Reaches : ℕ → Prec → Tokens P → Expr P → Tokens P → Type 0
  Reaches fuel min ts e rest =
      (k : ℕ) × (length rest < k)
      × (parse_expr_prec sub (suc fuel) min ts
          ≡ parse_loop sub (parse_expr_prec sub fuel) fuel k min e rest)

  pub loop_stops :
      (fuel k : ℕ) {min : Prec} (e : Expr P) {rest : Tokens P}
      → length rest < k
      → StopAt min rest
      → parse_loop sub (parse_expr_prec sub fuel) fuel k min e rest ≡ parsed (e, rest)
  unfolding parse_loop
  loop_stops fuel zero e lt s = absurd (omega arith)
  loop_stops fuel (suc k) e lt s = rw (stop_round sub (parse_expr_prec sub fuel) fuel e s)

  pub done :
      (fuel : ℕ) {min : Prec} (ts : Tokens P) (e : Expr P) {rest : Tokens P}
      → Reaches fuel min ts e rest
      → StopAt min rest
      → parse_expr_prec sub (suc fuel) min ts ≡ parsed (e, rest)
  done fuel ts e (k, lt, same) s = same ∙ loop_stops fuel k e lt s

  -- A round that goes on.
  go :
      (fuel : ℕ) (min : Prec) (ts : Tokens P) (l e : Expr P) (rest rest' : Tokens P)
      → Reaches fuel min ts l rest
      → parse_round sub (parse_expr_prec sub fuel) fuel min l rest ≡ next_round (parsed (e, rest'))
      → length rest' < length rest
      → Reaches fuel min ts e rest'
  unfolding parse_loop
  go fuel min ts l e rest rest' (zero, lt, same) round shorter = absurd (omega arith)
  go fuel min ts l e rest rest' (suc k, lt, same) round shorter = (k, omega arith, same ∙ rw round)

  -- The right operand of a round.
  operand :
      (f : ℕ) {p : Prec} (ts : Tokens P) (r : Expr P) {rest : Tokens P} (op : BinaryOp) (l : Expr P)
      → Reaches f p ts r rest
      → StopAt p rest
      → parse_right sub (parse_expr_prec sub (suc f)) op p l ts ≡ parsed (binary op l r, rest)
  operand f ts r op l reaches s = rw (done f ts r reaches s)

  -- A left operand, an operator and a right operand, of which the round makes one operand.
  pub extend :
      (fuel : ℕ) (min p : Prec) (ts us : Tokens P) (t : Token P) (l r : Expr P) (op : BinaryOp)
      (rest : Tokens P)
      → length (ts ++ (t ∷ (us ++ rest))) ≤ fuel
      → Reaches fuel min (ts ++ (t ∷ (us ++ rest))) l (t ∷ (us ++ rest))
      → parse_round sub (parse_expr_prec sub fuel) fuel min l (t ∷ (us ++ rest))
        ≡ next_round (parse_right sub (parse_expr_prec sub fuel) op p l (us ++ rest))
      → ((f : ℕ) → suc f ≡ fuel → Reaches f p (us ++ rest) r rest)
      → StopAt p rest
      → Reaches fuel min ((ts ++ (t ∷ us)) ++ rest) (binary op l r) rest
  extend zero min p ts us t l r op rest le reaches round right s =
      absurd (omega (arith, length-append ts (t ∷ (us ++ rest))))
  extend (suc f) min p ts us t l r op rest le reaches round right s =
      rw (append_assoc ts (t ∷ us) rest) (
        go (suc f) min (ts ++ (t ∷ (us ++ rest))) l (binary op l r) (t ∷ (us ++ rest)) rest reaches
          (round ∙ ap next_round (operand f (us ++ rest) r op l (right f refl) s))
          (omega (arith, length-append us rest)))

  pub length-split :
      (ts us rest : Tokens P) (t : Token P)
      → length ((ts ++ (t ∷ us)) ++ rest) ≡ length (ts ++ (t ∷ (us ++ rest)))
  length-split ts us rest t = ap length (append_assoc ts (t ∷ us) rest)

  -- What is left of the tokens for the right operand.
  pub length-right :
      (ts us rest : Tokens P) (t : Token P) (f : ℕ)
      → length ((ts ++ (t ∷ us)) ++ rest) ≤ suc f
      → length (us ++ rest) ≤ f
  length-right ts us rest t f h =
      omega (arith, length-split ts us rest t, length-append ts (t ∷ (us ++ rest)))

  parens_prefix :
      (rec : Prec → Tokens P → Result (Expr P × Tokens P)) (n : ℕ) (us rest : Tokens P) (e : Expr P)
      → at starts_subquery us ≡ false
      → rec prec_or us ≡ parsed (e, punct r_paren ∷ rest)
      → parse_prefix sub rec n (punct l_paren ∷ us) ≡ parsed (paren e, rest)
  unfolding parse_prefix expect_punct
  parens_prefix rec n us rest e h k = rw (h, k)

  pub parens-Reaches :
      (f : ℕ) (min : Prec) (us rest : Tokens P) (e : Expr P)
      → length rest < suc (suc f)
      → at starts_subquery us ≡ false
      → parse_expr_prec sub (suc f) prec_or us ≡ parsed (e, punct r_paren ∷ rest)
      → Reaches (suc f) min (punct l_paren ∷ us) (paren e) rest
  unfolding parse_expr_prec
  parens-Reaches f min us rest e lt h k = (
    suc (suc f),
    lt,
    prefixed (parens_prefix (parse_expr_prec sub (suc f)) (suc f) us rest e h k),
  )
    where
      prefixed :
          parse_prefix sub (parse_expr_prec sub (suc f)) (suc f) (punct l_paren ∷ us)
            ≡ parsed (paren e, rest)
          → parse_expr_prec sub (suc (suc f)) min (punct l_paren ∷ us)
            ≡ parse_loop sub (parse_expr_prec sub (suc f)) (suc f) (suc (suc f)) min (paren e) rest
      prefixed same =
          ap
            (λ r. r >>= λ q.
              parse_loop sub (parse_expr_prec sub (suc f)) (suc f) (suc (suc f)) min q.0 q.1)
            same
