-- ===== src/Symbol.antt =====
-- src/symbol.h and src/symbol.c.
pub mod Scope
pub mod Lookup
pub mod Chain
