-- ===== src/Lexer/Spans.antt =====
-- The token that `lexer_next` returns spans the characters that it moves over: identifiers,
-- numbers, strings and characters.
use rayac.Base.{
  ℕ, zero, suc, ◌+◌, ◌-◌, ◌<◌, Bool, true, false, not, ◌&&◌, ◌≡◌, refl, List, [], ◌∷◌, Bytes, drop,
  ltb, ◌==◌, arith, Bool-cases, inl, inr, ltb→lt, length, ap,
}
use rayac.StringView.View.{memcmp_eq}
use rayac.Lexer.Chars.{Lexer, char_at, advance, is_ident_char}
use rayac.Lexer.Keyword.{keywords, lookup_in, lookup_keyword}
use rayac.Lexer.Moves.{Moves, Moves-stay, Moves-trans, advance-Moves, advance-pos, report-Moves}
use rayac.Lexer.Scan.{
  Libc, token_from, ident_loop, scan_ident, number_base, exponent_sign, NumberRound, done, more,
  number_round, number_loop, number_token, scan_number, skip_escape, string_loop, advance_if,
  scan_string, char_body, char_close, scan_char,
}
use rayac.Lexer.Skip.{left}
use rayac.Lexer.Token.{TokenKind, Token, is_eof, tok_int_literal, tok_float_literal}

-- The token `r.0` begins where `s` stands and shows the bytes up to the position of `r.1`.
pub record Spans (s : Lexer) (r : Token × Lexer) : Type 0 where
  pub moves : Moves s r.1
  pub nonempty : s.pos < r.1.pos
  pub offset : r.0.loc.offset ≡ s.pos
  pub start : r.0.text.data_ ≡ drop s.pos s.source
  pub extent : r.0.text.len + s.pos ≡ r.1.pos
  pub line : r.0.loc.line ≡ s.line
  pub not_eof : is_eof r.0.kind ≡ false

pub token_from-Spans :
    (s : Lexer) (kind : TokenKind) (l : Lexer)
    → Moves s l
    → s.pos < l.pos
    → is_eof kind ≡ false
    → Spans s (token_from s kind l, l)
unfolding token_from
token_from-Spans s kind l m f k = record {
  moves = m;
  nonempty = f;
  offset = refl;
  start = ap (drop s.pos) m.source;
  extent = omega arith;
  line = refl;
  not_eof = k;
}

ident_loop-Moves : (fuel : ℕ) (l : Lexer) → Moves l (ident_loop fuel l)
unfolding ident_loop
ident_loop-Moves zero l = Moves-stay l
ident_loop-Moves (suc fuel) l =
    elim (Bool-cases (ltb l.pos l.source_len && is_ident_char (char_at l l.pos))) [
      | inl on ↦ rw on (Moves-trans (advance-Moves l) (ident_loop-Moves fuel (advance l)))
      | inr off ↦ rw off (Moves-stay l)
    ]

abbrev no_eof : List (Bytes × TokenKind) → Bool
no_eof [] = true
no_eof ((word, kind) ∷ rest) = not (is_eof kind) && no_eof rest

lookup_in-is_eof :
    (table : List (Bytes × TokenKind)) (s : Bytes) (n : ℕ)
    → no_eof table ≡ true
    → is_eof (lookup_in table s n) ≡ false
unfolding lookup_in is_eof
lookup_in-is_eof [] s n h = refl
lookup_in-is_eof ((word, kind) ∷ rest) s n h =
    elim (Bool-cases (length word == n && memcmp_eq word s n)) [
      | inl hit ↦ rw hit (ground arith)
      | inr miss ↦ rw miss (lookup_in-is_eof rest s n (ground arith))
    ]

pub lookup_keyword-is_eof : (s : Bytes) (n : ℕ) → is_eof (lookup_keyword s n) ≡ false
unfolding lookup_keyword
lookup_keyword-is_eof s n = lookup_in-is_eof keywords s n (unfold is_eof in refl)

exponent_sign-Moves : (l : Lexer) → Moves l (exponent_sign l)
unfolding exponent_sign
exponent_sign-Moves l = ground (arith, advance-Moves l, Moves-stay l)

number_base-Moves : (c : ℕ) (l : Lexer) → Moves l (number_base c l).1
unfolding number_base
number_base-Moves c l = ground (arith, advance-Moves l, Moves-stay l)

abbrev RoundMoves : Lexer → NumberRound → Type 0
RoundMoves l done = Unit
RoundMoves l (more f l') = Moves l l' × (l.pos < l'.pos)

number_round-Moves :
    (base : ℕ) (f : Bool) (l : Lexer) → l.pos < l.source_len → RoundMoves l (number_round base f l)
unfolding number_round
number_round-Moves base f l h =
    let a = advance-Moves l in
    let e = exponent_sign-Moves (advance l) in
    ground (arith, a, advance-pos l h, Moves-trans a e, e.forward)

-- The state after the loop's test, as the loop's body leaves it.
abbrev after_round : (Bool → Lexer → Bool × Lexer) → Bool → Lexer → NumberRound → Bool × Lexer
after_round rest f l done = (f, l)
after_round rest f l (more f' l') = rest f' l'

after_round-Moves :
    (rest : Bool → Lexer → Bool × Lexer) (f : Bool) (l : Lexer) (r : NumberRound)
    → RoundMoves l r
    → ((f' : Bool) (l' : Lexer) → Moves l' (rest f' l').1)
    → Moves l (after_round rest f l r).1
after_round-Moves rest f l done b ih = Moves-stay l
after_round-Moves rest f l (more f' l') b ih = Moves-trans b.0 (ih f' l')

number_loop_step :
    (fuel base : ℕ) (f : Bool) (l : Lexer)
    → ltb l.pos l.source_len ≡ true
    → number_loop (suc fuel) base f l
      ≡ after_round (number_loop fuel base) f l (number_round base f l)
unfolding number_loop
number_loop_step fuel base f l on = ground arith

number_loop-Moves : (fuel base : ℕ) (f : Bool) (l : Lexer) → Moves l (number_loop fuel base f l).1
number_loop-Moves zero base f l = unfold number_loop in Moves-stay l
number_loop-Moves (suc fuel) base f l = elim (Bool-cases (ltb l.pos l.source_len)) [
  | inr off ↦ unfold number_loop in (rw off (Moves-stay l))
  | inl on ↦ rw (number_loop_step fuel base f l on) (
      after_round-Moves (number_loop fuel base) f l (number_round base f l)
        (number_round-Moves base f l (ltb→lt _ _ on)) (λ f' l'. number_loop-Moves fuel base f' l'))
]

skip_escape-Moves : (l : Lexer) → Moves l (skip_escape l)
unfolding skip_escape
skip_escape-Moves l =
    let a = advance-Moves l in ground (arith, a, Moves-trans a (advance-Moves (advance l)))

string_loop-Moves : (fuel : ℕ) (l : Lexer) → Moves l (string_loop fuel l)
unfolding string_loop
string_loop-Moves zero l = Moves-stay l
string_loop-Moves (suc fuel) l =
    let escaped = Moves-trans (skip_escape-Moves l) (string_loop-Moves fuel (skip_escape l)) in
    let plain = Moves-trans (advance-Moves l) (string_loop-Moves fuel (advance l)) in
    elim (Bool-cases (ltb l.pos l.source_len && not (char_at l l.pos == b'"'))) [
      | inr off ↦ rw off (Moves-stay l)
      | inl on ↦ elim (Bool-cases (char_at l l.pos == b'\\')) [
        | inl back ↦ rw (on, back) escaped
        | inr nb ↦ elim (Bool-cases (char_at l l.pos == b'\n')) [
          | inl nl ↦ rw (on, nb, nl) (report-Moves l _ _)
          | inr other ↦ rw (on, nb, other) plain
        ]
      ]
    ]

advance_if-Moves : (c : ℕ) (l : Lexer) → Moves l (advance_if c l)
unfolding advance_if
advance_if-Moves c l = ground (arith, advance-Moves l, Moves-stay l)

char_body-Moves : (l : Lexer) → Moves l (char_body l)
unfolding char_body
char_body-Moves l = ground (arith, advance-Moves l, skip_escape-Moves l, Moves-stay l)

char_close-Moves : (l : Lexer) → Moves l (char_close l)
unfolding char_close
char_close-Moves l = elim (Bool-cases (ltb l.pos l.source_len && char_at l l.pos == b'\'')) [
  | inl closes ↦ rw closes (advance-Moves l)
  | inr open_ ↦ rw open_ (report-Moves l _ _)
]

-- `l` stands one character behind `s`.
module _ {s l : Lexer} (m : Moves s l) (f : s.pos < l.pos) where
  from :
      (kind : TokenKind) {l' : Lexer}
      → Moves l l'
      → is_eof kind ≡ false
      → Spans s (token_from s kind l', l')
  from kind {l'} m' k = token_from-Spans s kind l' (Moves-trans m m') (omega (arith, m'.forward)) k

  pub scan_ident-Spans : Spans s (scan_ident s l)
  unfolding scan_ident
  scan_ident-Spans = from _ (ident_loop-Moves (left l) l) (
      lookup_keyword-is_eof (drop s.pos (ident_loop (left l) l).source)
        ((ident_loop (left l) l).pos - s.pos))

  pub scan_string-Spans : Spans s (scan_string s l)
  unfolding scan_string is_eof
  scan_string-Spans =
      from _
        (Moves-trans (string_loop-Moves (left l) l)
          (advance_if-Moves b'"' (string_loop (left l) l)))
        refl

  pub scan_char-Spans : Spans s (scan_char s l)
  unfolding scan_char is_eof
  scan_char-Spans = from _ (Moves-trans (char_body-Moves l) (char_close-Moves (char_body l))) refl

  number_token-Spans :
      (libc : Libc) (base : ℕ) (is_float : Bool) (l' : Lexer)
      → Moves l l'
      → Spans s (number_token libc s base is_float l', l')
  unfolding number_token is_eof
  number_token-Spans libc base true l' m' = ground (arith, from tok_float_literal m' refl)
  number_token-Spans libc base false l' m' = ground (arith, from tok_int_literal m' refl)

  pub scan_number-Spans : (libc : Libc) (c : ℕ) → Spans s (scan_number libc c s l)
  unfolding scan_number
  scan_number-Spans libc c =
      let (base, l') = number_base c l in
      number_token-Spans libc base _ _
        (Moves-trans (number_base-Moves c l) (number_loop-Moves (left l') base false l'))
