-- ===== src/Lib.antt =====
-- A model of the front end of the Raya compiler rayac, and theorems about it.
--
-- The compiler reads one source file. The lexer cuts it into tokens for the parser, which builds a
-- tree in an arena; the semantic analysis declares the names of the tree in scopes, resolves type
-- expressions to interned types, and checks bodies. The lexer and the analysis report to one
-- diagnostics engine, the parser to stderr.
--
-- Files and the sources that they model:
--   Base            numbers, tests, lists, bytes and bits that all parts share
--   StringView      src/string_view.h: views, their comparison, slices and numbers
--   Diag            src/diag.c, src/source_loc.h: the engine, diag_init and diag_emit
--   Lexer           src/lexer.c, src/lexer.h. Token, Keyword and Chars hold the data and the moves,
--                   Skip the white space, Scan identifiers, numbers, strings and characters,
--                   Operator the operators, Next the functions lexer_next, lexer_peek and
--                   lexer_advance. The other files of the folder hold proofs.
--   Arena           src/arena.c: Chunks has the chunks and the allocation, the others proofs
--   Symbol          src/symbol.c: Scope has the scopes, Lookup and Chain proofs
--   Types           src/type.c, src/type.h: Shape has the types, their hash and their equality,
--                   Table the type table and its constructors, Coerce st_can_coerce, FromAst
--                   st_from_ast. Key, Interning, Canonical, Coercions and
--                   Coercible hold proofs.
--   Ast             src/ast.h: Syntax has the nodes, type expressions and patterns; src/ast.c: Lists,
--                   Decls, Stmts, Exprs and TypeExprs the functions that build them, and
--                   Growth the buffers of the lists
--   Parser          src/parser.c, src/parser.h: State has the tokens, the reports and the monad, Calls
--                   the loops, Exprs and Pratt expressions, TypeExprs patterns and types, Stmts
--                   blocks and statements, Members attributes and parameters, Decls declarations,
--                   Unit the top level and the recursion. Ahead, Types, Climb, Sound and Stuck
--                   hold proofs.
--   Sema            src/sema.c: State has the state and the monad, Methods the method table,
--                   Diverge the divergence analysis, Resolve constants and type expressions,
--                   Declare the first pass, Rules, Operators, Accesses and Forms what the checks
--                   of a node do with the types of its parts, Check the recursion over statements
--                   and expressions, Bodies the second pass and sema_run. MethodLookup is a proof.
--   Tests           the development at concrete inputs
--
-- How the code is represented: a struct is a record and a tagged union a data type; a function that
-- writes through a pointer returns the new value; a pointer to a scope or to a type is its place in
-- the list of all scopes or types; a chain through `next` pointers is a list. A `char` is a byte, and
-- characters are compared as numbers. `size_t` wraps at 2 ^ 64 where the code can wrap: in the sums of
-- the arena and in the column that make_token computes. Line, column and position counters, which a
-- source that fits the memory cannot make wrap, are natural numbers.
--
-- Loops that move through the source run on fuel, the number of bytes left, and each round moves on by
-- a byte at least. A parent scope stands before its children, and a type before the types built of it,
-- so that their places bound the walks of scope_lookup and st_can_coerce. Constant expressions follow
-- names into other declarations; their fuel stands for the stack, and running out of it is a crash.
--
-- The parsing functions call each other without a bound. Each call of one of the five that the others
-- use (expressions, blocks, statements, types, patterns) takes one from the fuel, and each loop may go
-- as many rounds as fuel is left; running out of it is a result of its own, apart from a fault. A type
-- is parsed with the number of its tokens as fuel, two operators between names with four; no fuel is
-- enough for a loop that does not end.
--
-- Taken as arguments: strtoll and strtod (Lexer.Scan.Libc), atoi (Types.FromAst), the addresses that
-- malloc returns and those that the hash of a type mixes in, and the content of memory that sema_new
-- leaves unset. Not modelled: the printing of diagnostics, types and trees, the code
-- generator, the runtime and the driver, which read and write files or wait for a later extension.
pub mod Arena
pub mod Ast
pub mod Base
pub mod Diag
pub mod Lexer
pub mod Parser
pub mod Sema
pub mod StringView
pub mod Symbol
pub mod Tests
pub mod Types
