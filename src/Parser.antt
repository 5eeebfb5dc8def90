-- ===== src/Parser.antt =====
-- The parser, src/parser.c and src/parser.h.
pub mod State
pub mod Ahead
pub mod Climb
pub mod Types
pub mod Calls
pub mod Exprs
pub mod Pratt
pub mod TypeExprs
pub mod Stmts
pub mod Members
pub mod Decls
pub mod Unit
pub mod Sound
pub mod Stuck
