-- ===== src/Ast.antt =====
-- The nodes of a program, src/ast.h, and the functions of src/ast.c that build them.
pub mod Decls
pub mod Exprs
pub mod Growth
pub mod Lists
pub mod Stmts
pub mod Syntax
pub mod TypeExprs
