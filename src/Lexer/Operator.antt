-- ===== src/Lexer/Operator.antt =====
-- The operators and the punctuation of `lexer_next`, and its result for any other character.
-- `start` is the lexer before the first character `c`, `l` the one behind it.
use rayac.Base.{ℕ, [], ◌∷◌, codes, ◌==◌, if◌then◌else◌}
use rayac.Diag.Engine.{loc_make, number}
use rayac.Lexer.Chars.{Lexer, advance, lexer_advance_char, lexer_peek_char, report, make_token}
use rayac.Lexer.Token.{
  TokenKind, Token, tok_error, tok_le, tok_shl, tok_shl_assign, tok_lt, tok_ge, tok_shr,
  tok_shr_assign, tok_gt, tok_lparen, tok_rparen, tok_lbracket, tok_rbracket, tok_lbrace,
  tok_rbrace, tok_comma, tok_semicolon, tok_question, tok_tilde, tok_hash, tok_plus_assign,
  tok_plus, tok_minus_assign, tok_arrow, tok_minus, tok_star_assign, tok_star, tok_slash_assign,
  tok_slash, tok_percent_assign, tok_percent, tok_xor_assign, tok_caret, tok_dot_dot, tok_dot,
  tok_colon_colon, tok_colon, tok_eq, tok_fat_arrow, tok_assign, tok_ne, tok_bang, tok_and_and,
  tok_and_assign, tok_ampersand, tok_or_or, tok_or_assign, tok_pipe,
}

-- `return make_token(l, kind, start, 1);`
unfoldable pub one_char : TokenKind → Lexer → Lexer → Token × Lexer
unfolding make_token
one_char kind start l = (make_token l kind start.pos 1, l)

-- `lexer_advance_char(l); return make_token(l, kind, start, 2);`
unfoldable pub two_chars : TokenKind → Lexer → Lexer → Token × Lexer
unfolding lexer_advance_char make_token
two_chars kind start l = let l' = advance l in (make_token l' kind start.pos 2, l')

-- As `two_chars`, behind the second character.
unfoldable pub three_chars : TokenKind → Lexer → Lexer → Token × Lexer
unfolding lexer_advance_char make_token
three_chars kind start l = let l' = advance l in (make_token l' kind start.pos 3, l')

-- `<<=`, `<<`
unfoldable pub scan_shl : Lexer → Lexer → Token × Lexer
unfolding three_chars lexer_advance_char lexer_peek_char make_token
scan_shl start l =
    let l' = advance l in
    if lexer_peek_char l' 0 == b'='
    then three_chars tok_shl_assign start l'
    else (make_token l' tok_shl start.pos 2, l')

-- `>>=`, `>>`
unfoldable pub scan_shr : Lexer → Lexer → Token × Lexer
unfolding three_chars lexer_advance_char lexer_peek_char make_token
scan_shr start l =
    let l' = advance l in
    if lexer_peek_char l' 0 == b'='
    then three_chars tok_shr_assign start l'
    else (make_token l' tok_shr start.pos 2, l')

-- Any other character: a report, and a token of kind `TOK_ERROR`.
unfoldable pub unexpected : ℕ → Lexer → Lexer → Token × Lexer
unfolding one_char report loc_make
unexpected c start l = one_char tok_error start (
    report l (loc_make l.filename l.line start.column start.pos) (record {
      format = codes "unexpected character '%c' (0x%02X)";
      args = number c ∷ number c ∷ [];
    }))

-- `switch (c)`
unfoldable pub scan_single : ℕ → Lexer → Lexer → Token × Lexer
unfolding one_char unexpected
scan_single c start l =
    if c == b'('
    then one_char tok_lparen start l
    else if c == b')'
    then one_char tok_rparen start l
    else if c == b'['
    then one_char tok_lbracket start l
    else if c == b']'
    then one_char tok_rbracket start l
    else if c == b'{'
    then one_char tok_lbrace start l
    else if c == b'}'
    then one_char tok_rbrace start l
    else if c == b','
    then one_char tok_comma start l
    else if c == b';'
    then one_char tok_semicolon start l
    else if c == b'?'
    then one_char tok_question start l
    else if c == b'~'
    then one_char tok_tilde start l
    else if c == b'#'
    then one_char tok_hash start l
    else unexpected c start l

-- The operators from `+` on.
unfoldable pub scan_arithmetic : ℕ → Lexer → Lexer → Token × Lexer
unfolding one_char two_chars lexer_peek_char scan_single
scan_arithmetic c start l =
    if c == b'+'
    then (if lexer_peek_char l 0 == b'='
        then two_chars tok_plus_assign start l
        else one_char tok_plus start l)
    else if c == b'-'
    then (if lexer_peek_char l 0 == b'='
        then two_chars tok_minus_assign start l
        else if lexer_peek_char l 0 == b'>'
        then two_chars tok_arrow start l
        else one_char tok_minus start l)
    else if c == b'*'
    then (if lexer_peek_char l 0 == b'='
        then two_chars tok_star_assign start l
        else one_char tok_star start l)
    else if c == b'/'
    then (if lexer_peek_char l 0 == b'='
        then two_chars tok_slash_assign start l
        else one_char tok_slash start l)
    else if c == b'%'
    then (if lexer_peek_char l 0 == b'='
        then two_chars tok_percent_assign start l
        else one_char tok_percent start l)
    else if c == b'^'
    then (if lexer_peek_char l 0 == b'='
        then two_chars tok_xor_assign start l
        else one_char tok_caret start l)
    else if c == b'.'
    then (if lexer_peek_char l 0 == b'.'
        then two_chars tok_dot_dot start l
        else one_char tok_dot start l)
    else if c == b':'
    then (if lexer_peek_char l 0 == b':'
        then two_chars tok_colon_colon start l
        else one_char tok_colon start l)
    else scan_single c start l

-- The operators, from `=` on.
unfoldable pub scan_operator : ℕ → Lexer → Lexer → Token × Lexer
unfolding one_char two_chars lexer_peek_char scan_shl scan_shr scan_arithmetic
scan_operator c start l =
    if c == b'='
    then (if lexer_peek_char l 0 == b'='
        then two_chars tok_eq start l
        else if lexer_peek_char l 0 == b'>'
        then two_chars tok_fat_arrow start l
        else one_char tok_assign start l)
    else if c == b'!'
    then (if lexer_peek_char l 0 == b'='
        then two_chars tok_ne start l
        else one_char tok_bang start l)
    else if c == b'<'
    then (if lexer_peek_char l 0 == b'='
        then two_chars tok_le start l
        else if lexer_peek_char l 0 == b'<'
        then scan_shl start l
        else one_char tok_lt start l)
    else if c == b'>'
    then (if lexer_peek_char l 0 == b'='
        then two_chars tok_ge start l
        else if lexer_peek_char l 0 == b'>'
        then scan_shr start l
        else one_char tok_gt start l)
    else if c == b'&'
    then (if lexer_peek_char l 0 == b'&'
        then two_chars tok_and_and start l
        else if lexer_peek_char l 0 == b'='
        then two_chars tok_and_assign start l
        else one_char tok_ampersand start l)
    else if c == b'|'
    then (if lexer_peek_char l 0 == b'|'
        then two_chars tok_or_or start l
        else if lexer_peek_char l 0 == b'='
        then two_chars tok_or_assign start l
        else one_char tok_pipe start l)
    else scan_arithmetic c start l
