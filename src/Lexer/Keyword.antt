-- ===== src/Lexer/Keyword.antt =====
-- `keywords` and `lookup_keyword` of src/lexer.c.
use rayac.Base.{ℕ, List, [], ◌∷◌, ◌&&◌, Bytes, bytes_eq, codes, length, ◌==◌, if◌then◌else◌}
use rayac.StringView.View.{memcmp_eq}
use rayac.Lexer.Token.{
  TokenKind, tok_break, tok_comptime, tok_const, tok_continue, tok_defer, tok_else, tok_errdefer,
  tok_extend, tok_false, tok_fn, tok_for, tok_if, tok_in, tok_import, tok_match, tok_module,
  tok_noreturn, tok_null, tok_pub, tok_return, tok_struct, tok_test, tok_traits, tok_true, tok_try,
  tok_type, tok_union, tok_unsafe, tok_var, tok_while, tok_enum, tok_as, tok_with, tok_undefined,
  tok_self, tok_cap_self, tok_identifier,
}

abbrev pub keywords : List (Bytes × TokenKind)
keywords =
    (codes "break", tok_break)
    ∷ (codes "comptime", tok_comptime)
    ∷ (codes "const", tok_const)
    ∷ (codes "continue", tok_continue)
    ∷ (codes "defer", tok_defer)
    ∷ (codes "else", tok_else)
    ∷ (codes "errdefer", tok_errdefer)
    ∷ (codes "extend", tok_extend)
    ∷ (codes "false", tok_false)
    ∷ (codes "fn", tok_fn)
    ∷ (codes "for", tok_for)
    ∷ (codes "if", tok_if)
    ∷ (codes "in", tok_in)
    ∷ (codes "import", tok_import)
    ∷ (codes "match", tok_match)
    ∷ (codes "module", tok_module)
    ∷ (codes "noreturn", tok_noreturn)
    ∷ (codes "null", tok_null)
    ∷ (codes "pub", tok_pub)
    ∷ (codes "return", tok_return)
    ∷ (codes "struct", tok_struct)
    ∷ (codes "test", tok_test)
    ∷ (codes "traits", tok_traits)
    ∷ (codes "true", tok_true)
    ∷ (codes "try", tok_try)
    ∷ (codes "type", tok_type)
    ∷ (codes "union", tok_union)
    ∷ (codes "unsafe", tok_unsafe)
    ∷ (codes "var", tok_var)
    ∷ (codes "while", tok_while)
    ∷ (codes "enum", tok_enum)
    ∷ (codes "as", tok_as)
    ∷ (codes "with", tok_with)
    ∷ (codes "undefined", tok_undefined)
    ∷ (codes "self", tok_self)
    ∷ (codes "Self", tok_cap_self)
    ∷ []

-- The loop over the table, at the entries that are left.
unfoldable pub lookup_in : List (Bytes × TokenKind) → Bytes → ℕ → TokenKind
unfolding bytes_eq
lookup_in [] s len = tok_identifier
lookup_in ((word, kind) ∷ rest) s len =
    if length word == len && memcmp_eq word s len then kind else lookup_in rest s len

unfoldable pub lookup_keyword : Bytes → ℕ → TokenKind
unfolding lookup_in
lookup_keyword s len = lookup_in keywords s len
