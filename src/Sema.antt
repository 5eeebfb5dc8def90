-- ===== src/Sema.antt =====
-- src/sema.h and src/sema.c.
pub mod State
pub mod Methods
pub mod Diverge
pub mod Resolve
pub mod Declare
pub mod Rules
pub mod Operators
pub mod Accesses
pub mod Check
pub mod Forms
pub mod Bodies
pub mod MethodLookup
