-- ===== src/Lexer.antt =====
-- src/lexer.h and src/lexer.c.
pub mod Token
pub mod Keyword
pub mod Chars
pub mod Skip
pub mod Scan
pub mod Operator
pub mod Next
pub mod Moves
pub mod Skipped
pub mod Spans
pub mod OperatorSpans
pub mod Laws
pub mod Stream
pub mod Keywords
pub mod Names
pub mod Idents
