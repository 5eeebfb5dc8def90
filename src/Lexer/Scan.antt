-- ===== src/Lexer/Scan.antt =====
-- The parts of `lexer_next` behind the first character: identifiers, numbers, strings and
-- characters. `start` is the lexer before the first character, `l` the one behind it. Each loop
-- takes as fuel the bytes that are left.
use rayac.Base.{
  ℕ, zero, suc, ◌+◌, ◌-◌, Bool, true, false, not, ◌&&◌, ◌||◌, [], Bytes, codes, drop, take, ltb,
  ◌==◌, if◌then◌else◌,
}
use rayac.Diag.Engine.{loc_make}
use rayac.Lexer.Chars.{
  Lexer, char_at, advance, lexer_advance_char, is_ident_char, is_digit, is_hex_digit, report,
  make_token,
}
use rayac.Lexer.Keyword.{lookup_keyword}
use rayac.Lexer.Skip.{left}
use rayac.Lexer.Token.{
  TokenKind, Token, int_value, float_value, tok_float_literal, tok_int_literal, tok_string_literal,
  tok_char_literal,
}

-- `strtoll` at a base and `strtod` of the C library, as bit patterns of 64 bits.
pub record Libc : Type 0 where
  pub strtoll : Bytes → ℕ → ℕ
  pub strtod : Bytes → ℕ

-- A token of `kind` from `start` up to the position of `l`, at the location of `start`.
unfoldable pub token_from : Lexer → TokenKind → Lexer → Token
unfolding make_token
token_from start kind l =
    let t = make_token l kind start.pos (l.pos - start.pos) in
    record t { loc = record (t.loc) { line = start.line; column = start.column } }

unfoldable pub ident_loop : ℕ → Lexer → Lexer
unfolding lexer_advance_char is_ident_char
ident_loop zero l = l
ident_loop (suc fuel) l =
    let rest = ident_loop fuel (advance l) in
    if ltb l.pos l.source_len && is_ident_char (char_at l l.pos) then rest else l

unfoldable pub scan_ident : Lexer → Lexer → Token × Lexer
unfolding ident_loop lookup_keyword token_from
scan_ident start l =
    let l' = ident_loop (left l) l in
    (token_from start (lookup_keyword (drop start.pos l'.source) (l'.pos - start.pos)) l', l')

-- The prefix of a number: its base, and the lexer behind the prefix.
unfoldable pub number_base : ℕ → Lexer → ℕ × Lexer
unfolding lexer_advance_char
number_base c l =
    if c == b'0' && ltb l.pos l.source_len
    then (let next = char_at l l.pos in
        if next == b'x' || next == b'X'
        then (16, advance l)
        else if next == b'o' || next == b'O'
        then (8, advance l)
        else if next == b'b' || next == b'B'
        then (2, advance l)
        else (10, l))
    else (10, l)

-- The sign behind an exponent's letter.
unfoldable pub exponent_sign : Lexer → Lexer
unfolding lexer_advance_char
exponent_sign l =
    if ltb l.pos l.source_len && (char_at l l.pos == b'+' || char_at l l.pos == b'-')
    then advance l
    else l

-- One round of the loop over a number's characters: `none` leaves the loop.
pub data NumberRound : Type 0 where
  done : NumberRound
  more : Bool → Lexer → NumberRound

unfoldable pub number_round : ℕ → Bool → Lexer → NumberRound
unfolding exponent_sign lexer_advance_char is_hex_digit is_digit
number_round base is_float l =
    let ch = char_at l l.pos in
    if base == 16 && is_hex_digit ch
    then more is_float (advance l)
    else if not (base == 16) && is_digit ch
    then more is_float (advance l)
    else if ch == b'.' && not is_float
    then (if not (base == 10)
        then done
        else if ltb (l.pos + 1) l.source_len && char_at l (l.pos + 1) == b'.'
        then done
        else more true (advance l))
    else if (ch == b'e' || ch == b'E') && base == 10
    then more true (exponent_sign (advance l))
    else done

unfoldable pub number_loop : ℕ → ℕ → Bool → Lexer → Bool × Lexer
unfolding number_round
number_loop zero base is_float l = (is_float, l)
number_loop (suc fuel) base is_float l =
    if ltb l.pos l.source_len
    then elim (number_round base is_float l) [
      | done ↦ (is_float, l)
      | more is_float' l' ↦ number_loop fuel base is_float' l'
    ]
    else (is_float, l)

-- `buf`: a copy of the token's bytes.
abbrev pub number_text : Lexer → Lexer → Bytes
number_text start l = take (l.pos - start.pos) (drop start.pos l.source)

unfoldable pub number_token : Libc → Lexer → ℕ → Bool → Lexer → Token
unfolding token_from
number_token libc start base true l = record (token_from start tok_float_literal l) {
  value = float_value (libc.strtod (number_text start l));
}
number_token libc start base false l = record (token_from start tok_int_literal l) {
  value = int_value (libc.strtoll (number_text start l) base);
}

unfoldable pub scan_number : Libc → ℕ → Lexer → Lexer → Token × Lexer
unfolding number_base number_loop number_token
scan_number libc c start l =
    let (base, l') = number_base c l in
    let (is_float, l'') = number_loop (left l') base false l' in
    (number_token libc start base is_float l'', l'')

-- A backslash, and the character behind it where there is one.
unfoldable pub skip_escape : Lexer → Lexer
unfolding lexer_advance_char
skip_escape l = let l' = advance l in if ltb l'.pos l'.source_len then advance l' else l'

unfoldable pub string_loop : ℕ → Lexer → Lexer
unfolding skip_escape lexer_advance_char report loc_make
string_loop zero l = l
string_loop (suc fuel) l =
    let escaped = string_loop fuel (skip_escape l) in
    let plain = string_loop fuel (advance l) in
    if ltb l.pos l.source_len && not (char_at l l.pos == b'"')
    then (if char_at l l.pos == b'\\'
        then escaped
        else if char_at l l.pos == b'\n'
        then report l (loc_make l.filename l.line l.column l.pos)
            (record { format = codes "unterminated string literal"; args = [] })
        else plain)
    else l

-- `if (l->pos < l->source_len && l->source[l->pos] == c) lexer_advance_char(l);`
unfoldable pub advance_if : ℕ → Lexer → Lexer
unfolding lexer_advance_char
advance_if c l = if ltb l.pos l.source_len && char_at l l.pos == c then advance l else l

unfoldable pub scan_string : Lexer → Lexer → Token × Lexer
unfolding string_loop advance_if token_from
scan_string start l =
    let l' = advance_if b'"' (string_loop (left l) l) in
    (token_from start tok_string_literal l', l')

-- The character between the quotes, if any.
unfoldable pub char_body : Lexer → Lexer
unfolding skip_escape lexer_advance_char
char_body l =
    if ltb l.pos l.source_len && char_at l l.pos == b'\\'
    then skip_escape l
    else if ltb l.pos l.source_len && not (char_at l l.pos == b'\'')
    then advance l
    else l

-- The closing quote, or the report that it is missing.
unfoldable pub char_close : Lexer → Lexer
unfolding lexer_advance_char report loc_make
char_close l =
    if ltb l.pos l.source_len && char_at l l.pos == b'\''
    then advance l
    else report l (loc_make l.filename l.line l.column l.pos)
        (record { format = codes "unterminated character literal"; args = [] })

unfoldable pub scan_char : Lexer → Lexer → Token × Lexer
unfolding char_body char_close token_from
scan_char start l = let l' = char_close (char_body l) in (token_from start tok_char_literal l', l')
