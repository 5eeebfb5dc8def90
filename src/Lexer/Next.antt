-- ===== src/Lexer/Next.antt =====
-- `lexer_next`, `lexer_peek` and `lexer_advance`, and the loop over all tokens that `test_lexer` of
-- src/main.c runs.
use rayac.Base.{
  ℕ, zero, suc, true, false, ◌&&◌, ◌||◌, List, [], ◌∷◌, leb, ◌==◌, if◌then◌else◌, Option, some,
  none,
}
use rayac.Lexer.Chars.{
  Lexer, lexer_advance_char, lexer_peek_char, is_ident_start, is_digit, make_token,
}
use rayac.Lexer.Operator.{scan_operator}
use rayac.Lexer.Scan.{Libc, scan_ident, scan_number, scan_string, scan_char}
use rayac.Lexer.Skip.{lexer_skip_whitespace}
use rayac.Lexer.Token.{Token, tok_eof, is_eof}

-- A token that begins at the position of `l`, where there is a character.
unfoldable pub scan_token : Libc → Lexer → Token × Lexer
scan_token libc l =
    let (c, l') = lexer_advance_char l in
    if is_ident_start c
    then scan_ident l l'
    else if is_digit c || (c == b'.' && is_digit (lexer_peek_char l' 0))
    then scan_number libc c l l'
    else if c == b'"'
    then scan_string l l'
    else if c == b'\''
    then scan_char l l'
    else scan_operator c l l'

-- Behind the white space: the end of the source, or a token.
unfoldable pub scan_or_eof : Libc → Lexer → Token × Lexer
scan_or_eof libc l =
    if leb l.source_len l.pos then (make_token l tok_eof l.source_len 0, l) else scan_token libc l

unfoldable pub lexer_next : Libc → Lexer → Token × Lexer
lexer_next libc l =
    if l.has_current
    then (l.current, record l { has_current = false })
    else scan_or_eof libc (lexer_skip_whitespace l)

unfoldable pub lexer_peek : Libc → Lexer → Token × Lexer
lexer_peek libc l =
    if l.has_current
    then (l.current, l)
    else (let (t, l') = lexer_next libc l in (t, record l' { current = t; has_current = true }))

unfoldable pub lexer_advance : Libc → Lexer → Lexer
lexer_advance libc l = record (lexer_peek libc l).1 { has_current = false }

-- `while ((tok = lexer_next(lexer)).kind != TOK_EOF)`: the tokens before the end of the source, or
-- `none` where the fuel runs out. The printing of their names is left out.
unfoldable pub all_tokens : Libc → ℕ → Lexer → Option (List Token)
all_tokens libc zero l = none
all_tokens libc (suc fuel) l =
    let (t, l') = lexer_next libc l in
    let rest = all_tokens libc fuel l' in
    if is_eof t.kind then some [] else elim rest [ none ↦ none | some ts ↦ some (t ∷ ts) ]
