-- ===== src/Lexer/Laws.antt =====
-- The contract of `lexer_next`.
use rayac.Base.{
  ℕ, ◌+◌, ◌≤◌, ◌<◌, true, false, ◌&&◌, ◌||◌, ◌≡◌, refl, ap, subst, ◌∙◌, sym, drop, leb, ◌==◌,
  if◌then◌else◌, arith, ◌⊎◌, inl, inr,
}
use rayac.Lexer.Chars.{
  Lexer, advance, lexer_advance_char, step_past, is_space, make_token, is_digit, is_ident_start,
  lexer_peek_char,
}
use rayac.Lexer.Moves.{Moves, newlines, newlines_upto, advance-Moves, advance-pos}
use rayac.Lexer.Next.{scan_token, scan_or_eof, lexer_next}
use rayac.Lexer.OperatorSpans.{scan_operator-Spans, if_cases}
use rayac.Lexer.Scan.{Libc}
use rayac.Lexer.Skip.{lexer_skip_whitespace}
use rayac.Lexer.Skipped.{begins_token, skip_whitespace-Moves, skip_whitespace-begins_token}
use rayac.Lexer.Spans.{
  Spans, scan_ident-Spans, scan_string-Spans, scan_char-Spans, scan_number-Spans,
}
use rayac.Lexer.Token.{Token, is_eof, tok_eof}

-- The first character of a token is on the line of the token's end so far.
first_line : (l : Lexer) → l.pos < l.source_len → begins_token l ≡ true → (advance l).line ≡ l.line
unfolding lexer_advance_char step_past is_space
first_line l h b = ground arith

scan_token-Spans :
    (libc : Libc) (l : Lexer)
    → l.pos < l.source_len
    → begins_token l ≡ true
    → Spans l (scan_token libc l)
unfolding scan_token
scan_token-Spans libc l h b =
    let m = advance-Moves l in
    let p = advance-pos l h in
    let f : l.pos < (advance l).pos = omega arith in
    let c = (lexer_advance_char l).0 in
    let dot = c == b'.' && is_digit (lexer_peek_char (advance l) 0) in
    if_cases (Spans l) (is_ident_start c) (λ _. scan_ident-Spans m f)
      λ _.
        if_cases (Spans l) (is_digit c || dot) (λ _. scan_number-Spans m f libc c)
          λ _.
            if_cases (Spans l) (c == b'"') (λ _. scan_string-Spans m f)
              λ _.
                if_cases (Spans l) (c == b'\'') (λ _. scan_char-Spans m f)
                  λ _. scan_operator-Spans m p (first_line l h b) c

-- The invariant of the lexer: it stands in its source, and its line counts the newlines before.
pub record IsValid (l : Lexer) : Type 0 where
  pub within : l.pos ≤ l.source_len
  pub line : l.line ≡ 1 + newlines l

pub Moves-IsValid : {l l' : Lexer} → Moves l l' → IsValid l → IsValid l'
Moves-IsValid {l} {l'} m v = record {
  within = omega (arith, m.within v.within, m.source_len);
  line = omega (arith, m.lines, v.line);
}

-- What `lexer_next` promises: behind the tokens read before, the token `r.0` shows the bytes from
-- its offset up to the new position, on the line of its first byte. It is `TOK_EOF` only at the
-- end of the source, and any other token has a byte at least.
pub record Lexed (l : Lexer) (r : Token × Lexer) : Type 0 where
  pub valid : IsValid r.1
  pub source : r.1.source ≡ l.source
  pub source_len : r.1.source_len ≡ l.source_len
  pub has_current : r.1.has_current ≡ false
  pub behind : l.pos ≤ r.0.loc.offset
  pub extent : r.0.loc.offset + r.0.text.len ≡ r.1.pos
  pub start : r.0.text.data_ ≡ drop r.0.loc.offset l.source
  pub line : r.0.loc.line ≡ 1 + newlines_upto r.0.loc.offset l.source
  pub ends :
      ((is_eof r.0.kind ≡ true) × (r.1.pos ≡ l.source_len) × (r.0.text.len ≡ 0))
      ⊎ ((is_eof r.0.kind ≡ false) × (0 < r.0.text.len))

pub lexer_next_fresh :
    (libc : Libc) (l : Lexer)
    → l.has_current ≡ false
    → lexer_next libc l ≡ scan_or_eof libc (lexer_skip_whitespace l)
unfolding lexer_next
lexer_next_fresh libc l e =
    ap
      (λ b.
        if b
        then (l.current, record l { has_current = false })
        else scan_or_eof libc (lexer_skip_whitespace l))
      e

module _ (libc : Libc) (l : Lexer) (empty : l.has_current ≡ false) (v : IsValid l) where
  at_token :
      (k : Lexer)
      → Moves l k
      → k.pos < k.source_len
      → begins_token k ≡ true
      → Lexed l (scan_token libc k)
  at_token k m h b =
      let s = scan_token-Spans libc k h b in
      let vk = Moves-IsValid m v in
      record {
        valid = Moves-IsValid s.moves vk;
        source = s.moves.source ∙ m.source;
        source_len = s.moves.source_len ∙ m.source_len;
        has_current = s.moves.has_current ∙ m.has_current ∙ empty;
        behind = omega (arith, m.forward, s.offset);
        extent = omega (arith, s.extent, s.offset);
        start = cc (s.start, s.offset, m.source);
        line = cc (s.line, vk.line, s.offset, m.source);
        ends = inr (s.not_eof, omega (arith, s.extent, s.nonempty));
      }

  at_end :
      (k : Lexer)
      → Moves l k
      → leb k.source_len k.pos ≡ true
      → Lexed l (make_token k tok_eof k.source_len 0, k)
  unfolding make_token is_eof
  at_end k m h =
      let vk = Moves-IsValid m v in
      let e : k.source_len ≡ k.pos = ground (arith, vk.within) in
      record {
        valid = vk;
        source = m.source;
        source_len = m.source_len;
        has_current = m.has_current ∙ empty;
        behind = omega (arith, m.forward);
        extent = omega arith;
        start = rw (m.source) refl;
        line = omega (
          arith,
          vk.line,
          ap (λ (n : ℕ). newlines_upto n k.source) e,
          ap (λ s. newlines_upto k.source_len s) m.source,
        );
        ends = inl (refl, omega (arith, m.source_len), refl);
      }

  scan_or_eof-Lexed : Lexed l (scan_or_eof libc (lexer_skip_whitespace l))
  unfolding scan_or_eof
  scan_or_eof-Lexed =
      let k = lexer_skip_whitespace l in
      let m = skip_whitespace-Moves l in
      if_cases (Lexed l) (leb k.source_len k.pos) (λ e. at_end k m e)
        λ n. at_token k m (ground arith) (skip_whitespace-begins_token l (ground arith))

  -- From a valid lexer with no token kept back, `lexer_next` returns a token that shows the bytes
  -- from its offset up to the new position, on the line of its first byte, behind the old position;
  -- it is TOK_EOF only at the end of the source, and has a byte at least otherwise. The lexer stays
  -- valid, on the same source, with no token kept back.
  pub lexer_next-Lexed : Lexed l (lexer_next libc l)
  lexer_next-Lexed = subst (Lexed l) (sym (lexer_next_fresh libc l empty)) scan_or_eof-Lexed
