-- ===== src/Lexer/Skip.antt =====
-- `lexer_skip_whitespace`: white space, line comments, and block comments, which nest up to a
-- depth of 16. Each loop takes as fuel the bytes that are left, since each round reads one at least.
use rayac.Base.{ℕ, zero, suc, ◌+◌, ◌-◌, Bool, not, ◌&&◌, [], codes, ltb, ◌==◌, if◌then◌else◌}
use rayac.Diag.Engine.{loc_make}
use rayac.Lexer.Chars.{Lexer, char_at, is_space, advance, lexer_advance_char, report}

-- The bytes that are left.
abbrev pub left : Lexer → ℕ
left l = l.source_len - l.pos

-- `while (l->pos < l->source_len && l->source[l->pos] != '\n') l->pos++;`
unfoldable pub skip_line : ℕ → Lexer → Lexer
skip_line zero l = l
skip_line (suc fuel) l =
    let rest = skip_line fuel (record l { pos = l.pos + 1 }) in
    if ltb l.pos l.source_len && not (char_at l l.pos == b'\n') then rest else l

-- Whether the two characters `a` and `b` stand at the position.
abbrev pub pair_at : Lexer → ℕ → ℕ → Bool
pair_at l a b = char_at l l.pos == a && ltb (l.pos + 1) l.source_len && char_at l (l.pos + 1) == b

-- A character of a comment that is no delimiter.
unfoldable pub comment_char : Lexer → Lexer
comment_char l =
    if char_at l l.pos == b'\n'
    then record l { line = l.line + 1; column = 1; pos = l.pos + 1 }
    else record l { column = l.column + 1; pos = l.pos + 1 }

-- One round of the loop over a block comment: the new depth and state.
unfoldable pub comment_round : Lexer → ℕ → ℕ × Lexer
unfolding comment_char
comment_round l depth =
    if pair_at l b'/' b'*'
    then (depth + 1, record l { pos = l.pos + 2 })
    else if pair_at l b'*' b'/'
    then (depth - 1, record l { pos = l.pos + 2 })
    else (depth, comment_char l)

unfoldable pub nesting_error : Lexer → Lexer
unfolding report
nesting_error l =
    report l (loc_make l.filename l.line l.column l.pos)
      (record { format = codes "block comment nesting exceeds maximum depth of 16"; args = [] })

unfoldable pub skip_block : ℕ → ℕ → Lexer → Lexer
unfolding comment_round nesting_error
skip_block zero depth l = l
skip_block (suc fuel) depth l =
    let (depth', l') = comment_round l depth in
    let rest = skip_block fuel depth' l' in
    if ltb l.pos l.source_len && ltb 0 depth
    then if ltb 16 depth' then nesting_error l' else rest
    else l

-- What one round of the outer loop does.
pub data Round : Type 0 where
  stop : Round
  go_on : Lexer → Round

unfoldable pub round : Lexer → Round
unfolding is_space lexer_advance_char skip_line skip_block
round l =
    let c = char_at l l.pos in
    if is_space c
    then go_on (advance l)
    else if c == b'/' && ltb (l.pos + 1) l.source_len
    then (let next = char_at l (l.pos + 1) in
        if next == b'/'
        then go_on (skip_line (left l) l)
        else if next == b'*'
        then (let opened = record l { pos = l.pos + 2; column = l.column + 2 } in
            go_on (skip_block (left opened) 1 opened))
        else stop)
    else stop

unfoldable pub skip_loop : ℕ → Lexer → Lexer
unfolding round
skip_loop zero l = l
skip_loop (suc fuel) l =
    if ltb l.pos l.source_len then elim (round l) [ stop ↦ l | go_on l' ↦ skip_loop fuel l' ] else l

unfoldable pub lexer_skip_whitespace : Lexer → Lexer
unfolding skip_loop
lexer_skip_whitespace l = skip_loop (left l) l
