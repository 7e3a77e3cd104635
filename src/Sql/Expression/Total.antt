-- ===== src/Sql/Expression/Total.antt =====
-- crates/noedb-parser/src/expr.rs: the parser of expressions ends.
use noe_db.Base.{
  ℕ, zero, suc, ◌≤◌, ◌<◌, Bool, true, false, Option, none, some, if◌then◌else◌, length, ◌≡◌, ◌⊎◌,
  inl, inr, refl, arith,
}
use noe_db.Sql.Ast.{Parts, Expr, BinaryOp, and_op, or_op, like_op}
use noe_db.Sql.Parser.{Result, ParseError, parsed, failed, Tokens, bump}
use noe_db.Sql.Expression.{
  Subparsers, Prec, prec_or, prec_and, prec_compare, prec_add, Round, next_round, last_round,
  arithmetic_round, keyword_round, parse_round, parse_loop, parse_expr_prec, parse_expr,
  comparison_of, arithmetic_of, parse_right, after_round,
}
use noe_db.Sql.Expression.Fuel.{Good, good_parsed, good_failed, Good-mono, length-bump, Good-bind}
use noe_db.Sql.Expression.Ends.{
  UsesTokens, right-Good, between-Good, is_null-Good, in_rhs-Good, over-Good, prefix-Good,
}

module _ {P : Parts} (sub : Subparsers P) (uses : UsesTokens sub)
    (rec : Prec → Tokens P → Result (Expr P × Tokens P)) (n : ℕ)
    (rec_Good : (min : Prec) (ts : Tokens P) → length ts < n → Good (length ts) (rec min ts)) where
  -- A round that goes on uses up a token, and one that ends gives none back.
  data GoodRound (b : ℕ) : Round sub rec → Type 0 where
    good_next : {r : Result (Expr P × Tokens P)} → Good b r → GoodRound b (next_round r)
    good_last : {e : Expr P} {rest : Tokens P} → length rest ≤ b → GoodRound b (last_round e rest)

  GoodRound-mono : {b c : ℕ} {r : Round sub rec} → GoodRound b r → b ≤ c → GoodRound c r
  GoodRound-mono (good_next g) le = good_next (Good-mono g le)
  GoodRound-mono (good_last h) le = good_last (omega arith)

  GoodRound-if :
      {b : ℕ} (t : Bool) {r s : Round sub rec}
      → GoodRound b r
      → GoodRound b s
      → GoodRound b (if t then r else s)
  GoodRound-if true g h = g
  GoodRound-if false g h = h

  operator-GoodRound :
      {b : ℕ} (o : Option BinaryOp) (min : Prec) (left : Expr P) (ts : Tokens P) {r : Round sub rec}
      → length ts < n
      → length ts ≤ b
      → GoodRound b r
      → GoodRound b
          (elim o [ some op ↦ next_round (parse_right sub rec op min left ts) | none ↦ r ])
  operator-GoodRound (some op) min left ts h le g =
      good_next (Good-mono (right-Good sub uses rec n rec_Good op min left ts h) le)
  operator-GoodRound none min left ts h le g = g

  keyword-GoodRound :
      (min : Prec) (left : Expr P) (ts : Tokens P)
      → length ts < n
      → GoodRound (length ts) (keyword_round sub rec min left ts)
  keyword-GoodRound min left ts h =
      let less : length (bump ts) < n = omega (arith, length-bump ts) in
      let le = length-bump ts in
      let last : GoodRound (length ts) (last_round left ts) = good_last (omega arith) in
      let right = λ (op : BinaryOp) (m : Prec).
        good_next (Good-mono (right-Good sub uses rec n rec_Good op m left (bump ts) less) le) in
      let sums : GoodRound (length ts) (arithmetic_round sub rec min left ts) =
        GoodRound-if _ (operator-GoodRound (arithmetic_of ts) prec_add left (bump ts) less le last)
          last in
      GoodRound-if _
        (good_next (Good-mono (between-Good sub uses rec n rec_Good left false (bump ts) less) le))
        (GoodRound-if _
          (good_next (Good-mono (over-Good sub uses rec n rec_Good left (bump ts)) le))
          (GoodRound-if _ (right like_op prec_compare) (
            GoodRound-if _ (right or_op prec_and) (
              GoodRound-if _ (right and_op prec_compare) (
                GoodRound-if _
                  (operator-GoodRound (comparison_of ts) prec_compare left (bump ts) less le sums)
                  sums)))))

  round-GoodRound :
      (min : Prec) (left : Expr P) (ts : Tokens P)
      → length ts < n
      → GoodRound (length ts) (parse_round sub rec n min left ts)
  unfolding parse_round
  round-GoodRound min left ts h =
      let le = length-bump ts in
      let le' : length (bump (bump ts)) ≤ length ts =
        omega (arith, length-bump ts, length-bump (bump ts)) in
      let less : length (bump ts) < n = omega (arith, length-bump ts) in
      let less' : length (bump (bump ts)) < n = omega arith in
      GoodRound-if _
        (good_next (Good-mono (is_null-Good sub uses rec n rec_Good left (bump ts)) le))
        (GoodRound-if _
          (good_next (Good-mono (in_rhs-Good sub uses rec n rec_Good left true _ less') le'))
          (GoodRound-if _
            (good_next (Good-mono (in_rhs-Good sub uses rec n rec_Good left false _ less) le))
            (GoodRound-if _
              (good_next (Good-mono (between-Good sub uses rec n rec_Good left true _ less') le'))
              (GoodRound-if _ (GoodRound-mono (keyword-GoodRound min left (bump ts) less) le)
                (keyword-GoodRound min left ts h)))))

  after-Good :
      (b : ℕ) (again : Expr P → Tokens P → Result (Expr P × Tokens P)) {r : Round sub rec}
      → GoodRound b r
      → ((e : Expr P) (rest : Tokens P) → length rest < b → Good (suc (length rest)) (again e rest))
      → Good (suc b) (after_round sub rec again r)
  after-Good b again (good_next (good_parsed {a = e} {rest = rest} h)) k =
      Good-mono (k e rest h) (omega arith)
  after-Good b again (good_next good_failed) k = good_failed
  after-Good b again (good_last h) k = good_parsed (omega arith)

  pub loop-Good :
      (k : ℕ) (min : Prec) (left : Expr P) (ts : Tokens P)
      → length ts < n
      → length ts < k
      → Good (suc (length ts)) (parse_loop sub rec n k min left ts)
  unfolding parse_loop
  loop-Good zero min left ts h h' = absurd (omega arith)
  loop-Good (suc k) min left ts h h' =
      after-Good (length ts) (parse_loop sub rec n k min) (round-GoodRound min left ts h)
        λ e rest lt. loop-Good k min e rest (omega arith) (omega arith)

module _ {P : Parts} (sub : Subparsers P) (uses : UsesTokens sub) where
  parse_expr_prec-Good :
      (fuel : ℕ) (min : Prec) (ts : Tokens P)
      → length ts < fuel
      → Good (length ts) (parse_expr_prec sub fuel min ts)
  unfolding parse_expr_prec
  parse_expr_prec-Good zero min ts h = absurd (omega arith)
  parse_expr_prec-Good (suc fuel) min ts h =
      Good-bind _
        (prefix-Good sub uses (parse_expr_prec sub fuel) fuel (parse_expr_prec-Good fuel) ts
          (omega arith))
        λ left rest lt.
          Good-mono
            (loop-Good sub uses (parse_expr_prec sub fuel) fuel (parse_expr_prec-Good fuel)
              (suc fuel) min left rest (omega arith) (omega arith))
            (omega arith)

  Good-cases :
      {A : Type 0} {b : ℕ} {r : Result (A × Tokens P)}
      → Good b r
      → ((a : A) × (rest : Tokens P) × (r ≡ parsed (a, rest)) × (length rest < b))
        ⊎ ((e : ParseError) × (r ≡ failed e))
  Good-cases (good_parsed {a = a} {rest = rest} h) = inl (a, rest, refl, h)
  Good-cases (good_failed {e = e}) = inr (e, refl)

  -- Where the parsers of subqueries and windows end and use up tokens, the parser of expressions ends
  -- on every list of tokens: with an expression, for which it has used up a token, or with an error.
  parse_expr_total :
      (ts : Tokens P)
      → ((e : Expr P) × (rest : Tokens P) × (parse_expr sub ts ≡ parsed (e, rest))
          × (length rest < length ts))
        ⊎ ((e : ParseError) × (parse_expr sub ts ≡ failed e))
  unfolding parse_expr
  parse_expr_total ts = Good-cases (parse_expr_prec-Good (suc (length ts)) prec_or ts (omega arith))
