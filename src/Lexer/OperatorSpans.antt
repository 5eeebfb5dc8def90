-- ===== src/Lexer/OperatorSpans.antt =====
-- The operators span their characters.
use rayac.Base.{
  ℕ, ◌+◌, ◌<◌, Bool, true, false, ◌≡◌, refl, ap, drop, ◌==◌, if◌then◌else◌, arith, ◌≢◌,
}
use rayac.Lexer.Chars.{Lexer, advance, char_at, lexer_advance_char, lexer_peek_char}
use rayac.Lexer.Moves.{Moves, Moves-trans, advance-Moves, advance-pos, report-Moves}
use rayac.Lexer.Operator.{
  one_char, two_chars, three_chars, scan_shl, scan_shr, unexpected, scan_single, scan_arithmetic,
  scan_operator,
}
use rayac.Lexer.Spans.{Spans}
use rayac.Lexer.Token.{TokenKind, is_eof}

pub if_cases {ℓ κ} :
    {A : Type ℓ} (P : A → Type κ) (b : Bool) {x y : A}
    → (b ≡ true → P x)
    → (b ≡ false → P y)
    → P (if b then x else y)
if_cases P true p q = p refl
if_cases P false p q = q refl

-- A character that was peeked at is there, and to advance past it stays on the line.
module _ (l : Lexer) (k : ℕ) (peeked : (lexer_peek_char l 0 == k) ≡ true) (ne : k ≢ 0) where
  pub peek-within : l.pos < l.source_len
  unfolding lexer_peek_char
  peek-within = ground arith

  peek-char_at : char_at l l.pos ≡ k
  unfolding lexer_peek_char
  peek-char_at =
      let e : l.pos + 0 ≡ l.pos = omega arith in
      let h : (char_at l (l.pos + 0) == k) ≡ true = ground arith in
      ground (arith, ap (λ (n : ℕ). char_at l n) e)

  pub peek-line : k ≢ b'\n' → (advance l).line ≡ l.line
  unfolding lexer_advance_char
  peek-line nl = let e = peek-char_at in let w = peek-within in ground arith

-- `l` stands behind the first character of the operator.
module _ {s l : Lexer} (m : Moves s l) (p : l.pos ≡ s.pos + 1) (ln : l.line ≡ s.line) where
  one_char-Spans : (kind : TokenKind) → is_eof kind ≡ false → Spans s (one_char kind s l)
  unfolding one_char
  one_char-Spans kind k = record {
    moves = m;
    nonempty = omega arith;
    offset = refl;
    start = ap (drop s.pos) m.source;
    extent = omega arith;
    line = ln;
    not_eof = k;
  }

  two_chars-Spans :
      (kind : TokenKind) (k : ℕ)
      → is_eof kind ≡ false
      → (lexer_peek_char l 0 == k) ≡ true
      → k ≢ 0
      → k ≢ b'\n'
      → Spans s (two_chars kind s l)
  unfolding two_chars
  two_chars-Spans kind k e h z nl =
      let a = advance-Moves l in
      let w = advance-pos l (peek-within l k h z) in
      record {
        moves = Moves-trans m a;
        nonempty = omega arith;
        offset = refl;
        start = ap (drop s.pos) (Moves-trans m a).source;
        extent = omega arith;
        line = omega (arith, peek-line l k h z nl);
        not_eof = e;
      }

  unexpected-Spans : (c : ℕ) → Spans s (unexpected c s l)
  unfolding unexpected one_char is_eof
  unexpected-Spans c =
      let r = report-Moves l _ _ in
      record {
        moves = Moves-trans m r;
        nonempty = omega arith;
        offset = refl;
        start = ap (drop s.pos) m.source;
        extent = omega arith;
        line = ln;
        not_eof = refl;
      }

  three_chars-Spans :
      (kind : TokenKind) (j k : ℕ)
      → is_eof kind ≡ false
      → (lexer_peek_char l 0 == j) ≡ true
      → j ≢ 0
      → j ≢ b'\n'
      → (lexer_peek_char (advance l) 0 == k) ≡ true
      → k ≢ 0
      → k ≢ b'\n'
      → Spans s (three_chars kind s (advance l))
  unfolding three_chars
  three_chars-Spans kind j k e h z nl h' z' nl' =
      let a = advance-Moves l in
      let a' = advance-Moves (advance l) in
      let w = advance-pos l (peek-within l j h z) in
      let w' = advance-pos (advance l) (peek-within (advance l) k h' z') in
      let all = Moves-trans m (Moves-trans a a') in
      record {
        moves = all;
        nonempty = omega arith;
        offset = refl;
        start = ap (drop s.pos) all.source;
        extent = omega arith;
        line = omega (arith, peek-line l j h z nl, peek-line (advance l) k h' z' nl');
        not_eof = e;
      }

  scan_shl-Spans : (lexer_peek_char l 0 == b'<') ≡ true → Spans s (scan_shl s l)
  unfolding scan_shl is_eof
  scan_shl-Spans h =
      if_cases (Spans s) (lexer_peek_char (advance l) 0 == b'=')
        (λ h'.
          three_chars-Spans _ b'<' b'=' refl h (omega arith) (omega arith) h' (omega arith)
            (omega arith))
        (λ _. unfold two_chars in two_chars-Spans _ b'<' refl h (omega arith) (omega arith))

  scan_shr-Spans : (lexer_peek_char l 0 == b'>') ≡ true → Spans s (scan_shr s l)
  unfolding scan_shr is_eof
  scan_shr-Spans h =
      if_cases (Spans s) (lexer_peek_char (advance l) 0 == b'=')
        (λ h'.
          three_chars-Spans _ b'>' b'=' refl h (omega arith) (omega arith) h' (omega arith)
            (omega arith))
        (λ _. unfold two_chars in two_chars-Spans _ b'>' refl h (omega arith) (omega arith))

  scan_single-Spans : (c : ℕ) → Spans s (scan_single c s l)
  unfolding scan_single is_eof
  scan_single-Spans c =
      if_cases (Spans s) (c == b'(') (λ _. one_char-Spans _ refl)
        λ _.
          if_cases (Spans s) (c == b')') (λ _. one_char-Spans _ refl)
            λ _.
              if_cases (Spans s) (c == b'[') (λ _. one_char-Spans _ refl)
                λ _.
                  if_cases (Spans s) (c == b']') (λ _. one_char-Spans _ refl)
                    λ _.
                      if_cases (Spans s) (c == b'{') (λ _. one_char-Spans _ refl)
                        λ _.
                          if_cases (Spans s) (c == b'}') (λ _. one_char-Spans _ refl)
                            λ _.
                              if_cases (Spans s) (c == b',') (λ _. one_char-Spans _ refl)
                                λ _.
                                  if_cases (Spans s) (c == b';') (λ _. one_char-Spans _ refl)
                                    λ _.
                                      if_cases (Spans s) (c == b'?') (λ _. one_char-Spans _ refl)
                                        λ _.
                                          if_cases (Spans s) (c == b'~')
                                            (λ _. one_char-Spans _ refl)
                                            λ _.
                                              if_cases (Spans s) (c == b'#')
                                                (λ _. one_char-Spans _ refl) λ _. unexpected-Spans c

  scan_arithmetic-Spans : (c : ℕ) → Spans s (scan_arithmetic c s l)
  unfolding scan_arithmetic is_eof
  scan_arithmetic-Spans c =
      if_cases (Spans s) (c == b'+')
        (λ _.
          if_cases (Spans s) (lexer_peek_char l 0 == b'=')
            (λ h. two_chars-Spans _ b'=' refl h (omega arith) (omega arith))
            λ _. one_char-Spans _ refl)
        λ _.
          if_cases (Spans s) (c == b'-')
            (λ _.
              if_cases (Spans s) (lexer_peek_char l 0 == b'=')
                (λ h. two_chars-Spans _ b'=' refl h (omega arith) (omega arith))
                λ _.
                  if_cases (Spans s) (lexer_peek_char l 0 == b'>')
                    (λ h. two_chars-Spans _ b'>' refl h (omega arith) (omega arith))
                    λ _. one_char-Spans _ refl)
            λ _.
              if_cases (Spans s) (c == b'*')
                (λ _.
                  if_cases (Spans s) (lexer_peek_char l 0 == b'=')
                    (λ h. two_chars-Spans _ b'=' refl h (omega arith) (omega arith))
                    λ _. one_char-Spans _ refl)
                λ _.
                  if_cases (Spans s) (c == b'/')
                    (λ _.
                      if_cases (Spans s) (lexer_peek_char l 0 == b'=')
                        (λ h. two_chars-Spans _ b'=' refl h (omega arith) (omega arith))
                        λ _. one_char-Spans _ refl)
                    λ _.
                      if_cases (Spans s) (c == b'%')
                        (λ _.
                          if_cases (Spans s) (lexer_peek_char l 0 == b'=')
                            (λ h. two_chars-Spans _ b'=' refl h (omega arith) (omega arith))
                            λ _. one_char-Spans _ refl)
                        λ _.
                          if_cases (Spans s) (c == b'^')
                            (λ _.
                              if_cases (Spans s) (lexer_peek_char l 0 == b'=')
                                (λ h. two_chars-Spans _ b'=' refl h (omega arith) (omega arith))
                                λ _. one_char-Spans _ refl)
                            λ _.
                              if_cases (Spans s) (c == b'.')
                                (λ _.
                                  if_cases (Spans s) (lexer_peek_char l 0 == b'.')
                                    (λ h. two_chars-Spans _ b'.' refl h (omega arith) (omega arith))
                                    λ _. one_char-Spans _ refl)
                                λ _.
                                  if_cases (Spans s) (c == b':')
                                    (λ _.
                                      if_cases (Spans s) (lexer_peek_char l 0 == b':')
                                        (λ h.
                                          two_chars-Spans _ b':' refl h (omega arith) (omega arith))
                                        λ _. one_char-Spans _ refl)
                                    λ _. scan_single-Spans c

  pub scan_operator-Spans : (c : ℕ) → Spans s (scan_operator c s l)
  unfolding scan_operator is_eof
  scan_operator-Spans c =
      if_cases (Spans s) (c == b'=')
        (λ _.
          if_cases (Spans s) (lexer_peek_char l 0 == b'=')
            (λ h. two_chars-Spans _ b'=' refl h (omega arith) (omega arith))
            λ _.
              if_cases (Spans s) (lexer_peek_char l 0 == b'>')
                (λ h. two_chars-Spans _ b'>' refl h (omega arith) (omega arith))
                λ _. one_char-Spans _ refl)
        λ _.
          if_cases (Spans s) (c == b'!')
            (λ _.
              if_cases (Spans s) (lexer_peek_char l 0 == b'=')
                (λ h. two_chars-Spans _ b'=' refl h (omega arith) (omega arith))
                λ _. one_char-Spans _ refl)
            λ _.
              if_cases (Spans s) (c == b'<')
                (λ _.
                  if_cases (Spans s) (lexer_peek_char l 0 == b'=')
                    (λ h. two_chars-Spans _ b'=' refl h (omega arith) (omega arith))
                    λ _.
                      if_cases (Spans s) (lexer_peek_char l 0 == b'<') (λ h. scan_shl-Spans h)
                        λ _. one_char-Spans _ refl)
                λ _.
                  if_cases (Spans s) (c == b'>')
                    (λ _.
                      if_cases (Spans s) (lexer_peek_char l 0 == b'=')
                        (λ h. two_chars-Spans _ b'=' refl h (omega arith) (omega arith))
                        λ _.
                          if_cases (Spans s) (lexer_peek_char l 0 == b'>') (λ h. scan_shr-Spans h)
                            λ _. one_char-Spans _ refl)
                    λ _.
                      if_cases (Spans s) (c == b'&')
                        (λ _.
                          if_cases (Spans s) (lexer_peek_char l 0 == b'&')
                            (λ h. two_chars-Spans _ b'&' refl h (omega arith) (omega arith))
                            λ _.
                              if_cases (Spans s) (lexer_peek_char l 0 == b'=')
                                (λ h. two_chars-Spans _ b'=' refl h (omega arith) (omega arith))
                                λ _. one_char-Spans _ refl)
                        λ _.
                          if_cases (Spans s) (c == b'|')
                            (λ _.
                              if_cases (Spans s) (lexer_peek_char l 0 == b'|')
                                (λ h. two_chars-Spans _ b'|' refl h (omega arith) (omega arith))
                                λ _.
                                  if_cases (Spans s) (lexer_peek_char l 0 == b'=')
                                    (λ h. two_chars-Spans _ b'=' refl h (omega arith) (omega arith))
                                    λ _. one_char-Spans _ refl)
                            λ _. scan_arithmetic-Spans c
