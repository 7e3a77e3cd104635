-- ===== src/Sql.antt =====
-- SQL text: the expressions (crates/noedb-ast/src), the tokens (crates/noedb-lexer/src) and the parser
-- of expressions (crates/noedb-parser/src). Spans are left out: no decision depends on one.
pub mod Ast
pub mod Token
pub mod Parser
pub mod Expression
mod Tests
