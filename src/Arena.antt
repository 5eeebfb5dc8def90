-- ===== src/Arena.antt =====
-- src/arena.h and src/arena.c.
pub mod Chunks
pub mod Align
pub mod Layout
pub mod Pointer
