-- ===== src/Sql/Expression/Chains.antt =====
-- crates/noedb-parser/src/expr.rs: a grammar of operators that the parser implements.
pub mod Rounds
pub mod Loops
pub mod Parses
pub mod Prefixes
use noe_db.Base.{Bool, true, false, List, [], ◌∷◌, ◌++◌, none, ◌≡◌}
use noe_db.Base.Bytes.{Bytes}
use noe_db.Sql.Ast.{
  Parts, Expr, binary, unary, paren, literal, literal_integer, literal_string, column, named_column,
  and_op, or_op, mul_op,
}
use noe_db.Sql.Token.{
  Token, Operator, integer_token, string_token, ident, keyword, punct, op_token, l_paren, r_paren,
  comma, semicolon, star, kw_and, kw_or,
}
use noe_db.Sql.Parser.{Tokens}
use noe_db.Sql.Expression.{
  Prec, prec_or, prec_and, prec_compare, prec_add, is_additive, operator_to_binary,
}

pub data Layer : Type 0 where
  atoms sums comparisons conjunctions disjunctions : Layer

module _ {P : Parts} where
  -- A sum, in which all of `+ - * / %` are alike, stands to the right of its operator; a comparison is
  -- of two sums; `AND` binds tighter than `OR`, and both stand to the left.
  pub data Reads : Layer → Tokens P → Expr P → Type 0 where
    an_integer : {v : _} → Reads atoms (integer_token v ∷ []) (literal (literal_integer v))
    a_string : {s : Bytes} → Reads atoms (string_token s ∷ []) (literal (literal_string s))
    a_column : {name : Bytes} → Reads atoms (ident name ∷ []) (column (named_column none name))
    in_parens :
        {ts : Tokens P} {e : Expr P}
        → Reads disjunctions ts e
        → Reads atoms (punct l_paren ∷ (ts ++ (punct r_paren ∷ []))) (paren e)
    one_atom : {ts : Tokens P} {e : Expr P} → Reads atoms ts e → Reads sums ts e
    a_sum :
        (o : Operator) {ts us : Tokens P} {l r : Expr P}
        → is_additive o ≡ true
        → Reads atoms ts l
        → Reads sums us r
        → Reads sums (ts ++ (op_token o ∷ us)) (binary (operator_to_binary o) l r)
    a_product :
        {ts us : Tokens P} {l r : Expr P}
        → Reads atoms ts l
        → Reads sums us r
        → Reads sums (ts ++ (punct star ∷ us)) (binary mul_op l r)
    one_sum : {ts : Tokens P} {e : Expr P} → Reads sums ts e → Reads comparisons ts e
    a_comparison :
        (o : Operator) {ts us : Tokens P} {l r : Expr P}
        → is_additive o ≡ false
        → Reads sums ts l
        → Reads sums us r
        → Reads comparisons (ts ++ (op_token o ∷ us)) (binary (operator_to_binary o) l r)
    one_comparison : {ts : Tokens P} {e : Expr P} → Reads comparisons ts e → Reads conjunctions ts e
    a_conjunction :
        (text : Bytes) {ts us : Tokens P} {l r : Expr P}
        → Reads conjunctions ts l
        → Reads comparisons us r
        → Reads conjunctions (ts ++ (keyword kw_and text ∷ us)) (binary and_op l r)
    one_conjunction :
        {ts : Tokens P} {e : Expr P} → Reads conjunctions ts e → Reads disjunctions ts e
    a_disjunction :
        (text : Bytes) {ts us : Tokens P} {l r : Expr P}
        → Reads disjunctions ts l
        → Reads conjunctions us r
        → Reads disjunctions (ts ++ (keyword kw_or text ∷ us)) (binary or_op l r)

  -- What stands behind an operand that is parsed at a level.
  pub data StopAt : Prec → Tokens P → Type 0 where
    at_end : {min : Prec} → StopAt min []
    at_r_paren : {min : Prec} {ts : Tokens P} → StopAt min (punct r_paren ∷ ts)
    at_comma : {min : Prec} {ts : Tokens P} → StopAt min (punct comma ∷ ts)
    at_semicolon : {min : Prec} {ts : Tokens P} → StopAt min (punct semicolon ∷ ts)
    at_or_and : (text : Bytes) {ts : Tokens P} → StopAt prec_and (keyword kw_or text ∷ ts)
    at_or_compare : (text : Bytes) {ts : Tokens P} → StopAt prec_compare (keyword kw_or text ∷ ts)
    at_or_add : (text : Bytes) {ts : Tokens P} → StopAt prec_add (keyword kw_or text ∷ ts)
    at_and_compare : (text : Bytes) {ts : Tokens P} → StopAt prec_compare (keyword kw_and text ∷ ts)
    at_and_add : (text : Bytes) {ts : Tokens P} → StopAt prec_add (keyword kw_and text ∷ ts)
    at_comparison :
        (o : Operator) {ts : Tokens P} → is_additive o ≡ false → StopAt prec_add (op_token o ∷ ts)
