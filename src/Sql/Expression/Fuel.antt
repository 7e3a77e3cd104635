-- ===== src/Sql/Expression/Fuel.antt =====
-- crates/noedb-parser/src (parser.rs, types.rs): the parsers of names and types use up tokens.
use noe_db.Base.{
  ℕ, suc, ◌≤◌, ◌<◌, Bool, true, false, [], ◌∷◌, if◌then◌else◌, length, arith, Bool-cases, inl, inr,
  ltb, ◌^◌,
}
use noe_db.Base.Bytes.{Bytes}
use noe_db.Sql.Ast.{
  Parts, SqlType, sql_int, sql_boolean, sql_float, sql_text, sql_date, sql_timestamp, sql_named,
}
use noe_db.Sql.Token.{
  Keyword, Punctuation, keyword, ident, quoted_ident, integer_token, l_paren, r_paren,
}
use noe_db.Base.Int.{pos}
use noe_db.Sql.Parser.{
  Result, parsed, failed, ◌>>=◌, Tokens, bump, expect_keyword, expect_punct, ParseError,
  parse_ident, parse_sql_type, parse_type_length, varchar, parse_length_in_parens, type_of_name, at,
  is_punct, is_keyword,
}
use noe_db.Base.Text.{to_ascii_uppercase}

module _ {P : Parts} where
  -- Not out of fuel, and fewer than `b` tokens left.
  pub data Good {A : Type 0} (b : ℕ) : Result (A × Tokens P) → Type 0 where
    good_parsed : {a : A} {rest : Tokens P} → length rest < b → Good b (parsed (a, rest))
    good_failed : {e : ParseError} → Good b (failed e)

  pub data GoodTokens (b : ℕ) : Result (Tokens P) → Type 0 where
    good_tokens : {rest : Tokens P} → length rest < b → GoodTokens b (parsed rest)
    good_error : {e : ParseError} → GoodTokens b (failed e)

  pub Good-mono : {A : Type 0} {b c : ℕ} {r : Result (A × Tokens P)} → Good b r → b ≤ c → Good c r
  Good-mono (good_parsed h) le = good_parsed (omega arith)
  Good-mono good_failed le = good_failed

  pub Good-if :
      {A : Type 0} {b : ℕ} (t : Bool) {r s : Result (A × Tokens P)}
      → Good b r
      → Good b s
      → Good b (if t then r else s)
  Good-if true g h = g
  Good-if false g h = h

  pub Good-bind :
      {A B : Type 0} {b c : ℕ} {m : Result (A × Tokens P)}
      (f : A × Tokens P → Result (B × Tokens P))
      → Good b m
      → ((a : A) (rest : Tokens P) → length rest < b → Good c (f (a, rest)))
      → Good c (m >>= f)
  Good-bind f (good_parsed {a = a} {rest = rest} h) k = k a rest h
  Good-bind f good_failed k = good_failed

  pub GoodTokens-bind :
      {B : Type 0} {b c : ℕ} {m : Result (Tokens P)} (f : Tokens P → Result (B × Tokens P))
      → GoodTokens b m
      → ((rest : Tokens P) → length rest < b → Good c (f rest))
      → Good c (m >>= f)
  GoodTokens-bind f (good_tokens {rest = rest} h) k = k rest h
  GoodTokens-bind f good_error k = good_failed

  pub length-bump : (ts : Tokens P) → length (bump ts) ≤ length ts
  length-bump [] = omega arith
  length-bump (t ∷ ts) = omega arith

  pub expect_keyword-Good :
      (kw : Keyword) (ts : Tokens P) → GoodTokens (length ts) (expect_keyword kw ts)
  unfolding expect_keyword
  expect_keyword-Good kw [] = good_error
  expect_keyword-Good kw (t ∷ ts) = elim (Bool-cases (is_keyword kw t)) [
    | inl yes_it ↦ rw yes_it (good_tokens (omega arith))
    | inr not_it ↦ rw not_it good_error
  ]

  pub expect_punct-Good :
      (p : Punctuation) (ts : Tokens P) → GoodTokens (length ts) (expect_punct p ts)
  unfolding expect_punct
  expect_punct-Good p [] = good_error
  expect_punct-Good p (t ∷ ts) = elim (Bool-cases (is_punct p t)) [
    | inl yes_it ↦ rw yes_it (good_tokens (omega arith))
    | inr not_it ↦ rw not_it good_error
  ]

  pub parse_ident-Good : (ts : Tokens P) → Good (length ts) (parse_ident ts)
  unfolding parse_ident
  parse_ident-Good [] = good_failed
  parse_ident-Good (ident text ∷ ts) = good_parsed (omega arith)
  parse_ident-Good (quoted_ident s ∷ ts) = good_parsed (omega arith)
  parse_ident-Good (keyword kw text ∷ ts) = good_parsed (omega arith)
  parse_ident-Good (t ∷ ts) = good_failed

  parse_type_length-Good : (ts : Tokens P) → Good (length ts) (parse_type_length ts)
  unfolding parse_type_length
  parse_type_length-Good [] = good_failed
  parse_type_length-Good (integer_token (pos n) ∷ ts) =
      Good-if (ltb n (2 ^ 32)) (good_parsed (omega arith)) good_failed
  parse_type_length-Good (t ∷ ts) = good_failed

  parse_length_in_parens-Good : (ts : Tokens P) → Good (length ts) (parse_length_in_parens ts)
  parse_length_in_parens-Good ts = GoodTokens-bind _ (expect_punct-Good l_paren ts) λ ts' h.
      Good-bind _ (parse_type_length-Good ts') λ n ts'' h'.
        GoodTokens-bind _ (expect_punct-Good r_paren ts'') λ rest h''. good_parsed (omega arith)

  varchar-Good : (ts : Tokens P) → Good (suc (length ts)) (varchar ts)
  varchar-Good ts =
      Good-if (at (is_punct l_paren) ts)
        (Good-bind _ (parse_length_in_parens-Good ts) λ n rest h. good_parsed (omega arith))
        (good_parsed (omega arith))

  pub here : (ts : Tokens P) (ty : SqlType) → Good (suc (length ts)) (parsed (ty, ts))
  here ts ty = good_parsed (omega arith)

  type_of_name-Good : (name : Bytes) (ts : Tokens P) → Good (suc (length ts)) (type_of_name name ts)
  type_of_name-Good name ts = Good-if _ (here ts sql_int) (
      Good-if _ (here ts sql_boolean) (
        Good-if _ (here ts sql_float) (
          Good-if _ (here ts sql_text) (
            Good-if _ (here ts sql_date) (
              Good-if _ (here ts sql_timestamp) (
                Good-if _ (varchar-Good ts) (
                  Good-if _
                    (Good-bind _ (parse_length_in_parens-Good ts)
                      λ n rest h. good_parsed (omega arith))
                    (here ts (sql_named name)))))))))

  pub parse_sql_type-Good : (ts : Tokens P) → Good (length ts) (parse_sql_type ts)
  unfolding parse_sql_type
  parse_sql_type-Good ts =
      Good-bind _ (parse_ident-Good ts)
        λ name rest h. Good-mono (type_of_name-Good (to_ascii_uppercase name) rest) (omega arith)
