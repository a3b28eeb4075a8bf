-- ===== src/Expr.antt =====
-- The expression language of `${{ … }}`: src/expr.rs.
pub mod Values
pub mod Lexer
pub mod Call
pub mod Eval
pub mod Substitute
