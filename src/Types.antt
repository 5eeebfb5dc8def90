-- ===== src/Types.antt =====
-- src/type.h and src/type.c.
pub mod Shape
pub mod Key
pub mod Table
pub mod Interning
pub mod Canonical
pub mod Coerce
pub mod Coercions
pub mod Coercible
pub mod FromAst
