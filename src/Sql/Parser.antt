-- ===== src/Sql/Parser.antt =====
-- crates/noedb-parser/src (parser.rs, error.rs, types.rs): the stream of tokens and the names of types.
-- The spans are left out.
use noe_db.Base.{ℕ, Bool, false, List, [], ◌∷◌, none, some, if◌then◌else◌, ltb, ◌^◌}
use noe_db.Base.Bytes.{Bytes}
use noe_db.Base.Int.{pos}
use noe_db.Base.Text.{codes, to_ascii_uppercase, one_of}
use noe_db.Sql.Ast.{
  Parts, SqlType, sql_int, sql_boolean, sql_float, sql_text, sql_date, sql_timestamp, sql_varchar,
  sql_vector, sql_named,
}
use noe_db.Sql.Token.{
  Token, Keyword, Punctuation, keyword, ident, quoted_ident, integer_token, punct, eq_keyword,
  eq_punctuation, l_paren, r_paren,
}

pub data ParseError : Type 0 where
  unexpected_token : ParseError
  expected_keyword : Keyword → ParseError
  expected_punctuation : Punctuation → ParseError

pub data Result {ℓ} (A : Type ℓ) : Type ℓ where
  parsed : A → Result A
  failed : ParseError → Result A
  out_of_fuel : Result A

infixl 5 ◌>>=◌
abbrev pub ◌>>=◌ {ℓ κ} : {A : Type ℓ} {B : Type κ} → Result A → (A → Result B) → Result B
parsed a >>= f = f a
failed e >>= f = failed e
out_of_fuel >>= f = out_of_fuel

module _ (P : Parts) where
  abbrev pub Tokens : Type 0
  Tokens = List (Token P)

module _ {P : Parts} where
  abbrev pub is_keyword : Keyword → Token P → Bool
  is_keyword kw (keyword k text) = eq_keyword k kw
  is_keyword kw _ = false

  abbrev pub is_punct : Punctuation → Token P → Bool
  is_punct p (punct q) = eq_punctuation q p
  is_punct p _ = false

  -- `matches!(p.peek_kind(), …)`
  abbrev pub at : (Token P → Bool) → Tokens P → Bool
  at test [] = false
  at test (t ∷ ts) = test t

  -- `matches!(p.peek_ahead(1), …)`
  abbrev pub at_second : (Token P → Bool) → Tokens P → Bool
  at_second test [] = false
  at_second test (t ∷ ts) = at test ts

  -- `bump`, which stays at the end.
  abbrev pub bump : Tokens P → Tokens P
  bump [] = []
  bump (t ∷ ts) = ts

  unfoldable pub expect_keyword : Keyword → Tokens P → Result (Tokens P)
  expect_keyword kw ts =
      if at (is_keyword kw) ts then parsed (bump ts) else failed (expected_keyword kw)

  unfoldable pub expect_punct : Punctuation → Tokens P → Result (Tokens P)
  expect_punct p ts =
      if at (is_punct p) ts then parsed (bump ts) else failed (expected_punctuation p)

  unfoldable pub parse_ident : Tokens P → Result (Bytes × Tokens P)
  parse_ident (ident text ∷ ts) = parsed (text, ts)
  parse_ident (quoted_ident s ∷ ts) = parsed (s, ts)
  parse_ident (keyword kw text ∷ ts) = parsed (text, ts)
  parse_ident _ = failed unexpected_token

  unfoldable pub parse_type_length : Tokens P → Result (ℕ × Tokens P)
  parse_type_length (integer_token (pos n) ∷ ts) =
      if ltb n (2 ^ 32) then parsed (n, ts) else failed unexpected_token
  parse_type_length _ = failed unexpected_token

  -- `(n)`
  abbrev pub parse_length_in_parens : Tokens P → Result (ℕ × Tokens P)
  parse_length_in_parens ts = do
    ts' ← expect_punct l_paren ts
    (n, ts'') ← parse_type_length ts'
    rest ← expect_punct r_paren ts''
    parsed (n, rest)

  abbrev pub varchar : Tokens P → Result (SqlType × Tokens P)
  varchar ts =
      if at (is_punct l_paren) ts
      then (do (n, rest) ← parse_length_in_parens ts; parsed (sql_varchar (some n), rest))
      else parsed (sql_varchar none, ts)

  abbrev pub type_of_name : Bytes → Tokens P → Result (SqlType × Tokens P)
  type_of_name name ts =
      if one_of (codes "INT" ∷ codes "INTEGER" ∷ codes "BIGINT" ∷ []) name
      then parsed (sql_int, ts)
      else if one_of (codes "BOOLEAN" ∷ codes "BOOL" ∷ []) name
      then parsed (sql_boolean, ts)
      else if one_of (codes "FLOAT" ∷ codes "REAL" ∷ codes "DOUBLE" ∷ []) name
      then parsed (sql_float, ts)
      else if one_of (codes "TEXT" ∷ []) name
      then parsed (sql_text, ts)
      else if one_of (codes "DATE" ∷ []) name
      then parsed (sql_date, ts)
      else if one_of (codes "TIMESTAMP" ∷ codes "TIMESTAMPTZ" ∷ []) name
      then parsed (sql_timestamp, ts)
      else if one_of (codes "VARCHAR" ∷ codes "CHAR" ∷ []) name
      then varchar ts
      else if one_of (codes "VECTOR" ∷ []) name
      then (do (n, rest) ← parse_length_in_parens ts; parsed (sql_vector n, rest))
      else parsed (sql_named name, ts)

  unfoldable pub parse_sql_type : Tokens P → Result (SqlType × Tokens P)
  unfolding parse_ident one_of expect_punct parse_type_length to_ascii_uppercase
  parse_sql_type ts = do (name, rest) ← parse_ident ts; type_of_name (to_ascii_uppercase name) rest
