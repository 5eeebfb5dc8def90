-- ===== src/Tests/Lexing.antt =====
-- The lexer on small sources.
use mathlib.Core.Option
use rayac.Base.{
  ◌≤◌, true, false, ◌≡◌, refl, List, [], ◌∷◌, map, some, codes, length, Bytes, Option, arith,
}
use rayac.Lexer.Chars.{
  Lexer, make_token, lexer_advance_char, lexer_peek_char, is_ident_start, is_ident_char, is_digit,
  char_at,
}
use rayac.Lexer.Next.{all_tokens, lexer_next, lexer_peek, lexer_advance, scan_or_eof, scan_token}
use rayac.Lexer.Idents.{at_ident, scan_ident_maximal}
use rayac.Lexer.Laws.{IsValid, Lexed, lexer_next-Lexed}
use rayac.Lexer.Skipped.{begins_token, skip_whitespace-begins_token}
use rayac.Lexer.Stream.{all_tokens_total, lexer_peek-next}
use rayac.Lexer.Skip.{lexer_skip_whitespace}
use rayac.Lexer.Operator.{scan_operator}
use rayac.Lexer.Scan.{Libc, scan_ident, scan_number, scan_string, scan_char}
use rayac.Lexer.Token.{
  Token, tok_error, int_value, is_eof, TokenKind, tok_fn, tok_identifier, tok_lparen, tok_rparen,
  tok_shl_assign, tok_int_literal, tok_dot_dot, tok_char_literal, tok_string_literal,
  tok_float_literal,
}

abbrev pub zeros : Libc
zeros = record { strtoll = λ s b. b; strtod = λ s. 0 }

abbrev pub blank_token : Token
blank_token = record {
  kind = tok_error;
  text = record { data_ = []; len = 0 };
  loc = record { filename = []; line = 0; column = 0; offset = 0 };
  value = int_value 0;
}

abbrev pub lexer_of : Bytes → Lexer
lexer_of s = record {
  source = s;
  source_len = length s;
  pos = 0;
  line = 1;
  column = 1;
  filename = codes "a.raya";
  diag = record {
    items = [];
    count = 0;
    capacity = 0;
    error_count = 0;
    warning_count = 0;
    has_errors = mathlib.Core.Bool.Bool.false;
  };
  current = blank_token;
  has_current = mathlib.Core.Bool.Bool.false;
}

abbrev kinds_of : Bytes → Option (List TokenKind)
kinds_of s = Option.map (map (λ (t : Token). t.kind)) (all_tokens zeros 100 (lexer_of s))

-- All that a run of the lexer computes with.
unfoldable pub lexing : Unit {0}
unfolding all_tokens lexer_next lexer_skip_whitespace scan_or_eof scan_token lexer_advance_char
    lexer_peek_char is_ident_start is_digit scan_ident scan_number scan_string scan_char
    scan_operator make_token is_eof
lexing = tt

sample :
    kinds_of (codes "fn f(x) /* a /* b */ */ <<= 0x1F // z\n 1..2 'c' \"s\\\"\" 3.5e-2 @")
    ≡ some (
        tok_fn ∷ tok_identifier ∷ tok_lparen ∷ tok_identifier ∷ tok_rparen ∷ tok_shl_assign
        ∷ tok_int_literal ∷ tok_int_literal ∷ tok_dot_dot ∷ tok_int_literal ∷ tok_char_literal
        ∷ tok_string_literal ∷ tok_float_literal ∷ tok_error ∷ [])
unfolding lexing
sample = refl

abbrev two_tokens : Lexer
two_tokens = lexer_of (codes "/* a\n */ if_x")

two_tokens-IsValid : IsValid two_tokens
two_tokens-IsValid = record { within = omega arith; line = refl }

lexer_next-Lexed_example : Lexed two_tokens (lexer_next zeros two_tokens)
lexer_next-Lexed_example = lexer_next-Lexed zeros two_tokens refl two_tokens-IsValid

all_tokens_total_example :
    (ts : List Token) × (all_tokens zeros 20 two_tokens ≡ some ts) × (length ts ≤ 13)
all_tokens_total_example =
    all_tokens_total zeros 20 two_tokens refl two_tokens-IsValid (omega arith)

lexer_peek-next_example :
    ((lexer_peek zeros two_tokens).0 ≡ (lexer_next zeros two_tokens).0)
    × ((lexer_next zeros (lexer_peek zeros two_tokens).1).0 ≡ (lexer_next zeros two_tokens).0)
    × ((lexer_next zeros (lexer_peek zeros two_tokens).1).1
        ≡ record (lexer_next zeros two_tokens).1 {
          current = (lexer_next zeros two_tokens).0;
          has_current = false;
        })
    × (lexer_peek zeros (lexer_peek zeros two_tokens).1 ≡ lexer_peek zeros two_tokens)
    × (lexer_advance zeros two_tokens ≡ (lexer_next zeros (lexer_peek zeros two_tokens).1).1)
lexer_peek-next_example = lexer_peek-next zeros two_tokens

skipped_to :
    ((lexer_skip_whitespace two_tokens).pos ≡ 9)
    × ((lexer_skip_whitespace two_tokens).source_len ≡ 13)
unfolding lexing
skipped_to = (refl, refl)

skip_whitespace-begins_token_example : begins_token (lexer_skip_whitespace two_tokens) ≡ true
skip_whitespace-begins_token_example =
    skip_whitespace-begins_token two_tokens (omega (arith, skipped_to.0, skipped_to.1))

abbrev word : Lexer
word = lexer_of (codes "if_x(")

word_end : (scan_ident word word).1.pos ≡ 4
unfolding lexing
word_end = refl

scan_ident_maximal_example :
    (is_ident_char (char_at word 3) ≡ true) × (at_ident (scan_ident word word).1 ≡ false)
scan_ident_maximal_example = scan_ident_maximal word word 3 (omega arith) (omega (arith, word_end))
