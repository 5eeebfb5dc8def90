-- ===== src/Diag.antt =====
-- src/diag.c, src/source_loc.h: source locations and the diagnostic engine.
pub mod Engine
pub mod Growth
