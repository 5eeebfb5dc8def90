-- ===== src/Tests.antt =====
-- The development at concrete inputs.
mod Lexing
mod Text
mod Storage
mod Typing
mod Checking
mod Parsing
