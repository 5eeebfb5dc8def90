-- ===== src/Lexer/Chars.antt =====
-- The `Lexer` struct, the tests on characters, and the reading of single characters.
use rayac.Base.{
  ℕ, ◌+◌, ◌-◌, ◌%◌, ◌^◌, Bool, false, ◌&&◌, ◌||◌, Bytes, drop, get_or, leb, ◌==◌, if◌then◌else◌,
}
use rayac.Diag.Engine.{DiagnosticEngine, SourceLocation, loc_make, Message, diag_error, diag_emit}
use rayac.StringView.View.{sv_from_ptr_len}
use rayac.Lexer.Token.{TokenKind, Token, int_value}

pub record Lexer : Type 0 where
  pub source : Bytes
  pub source_len : ℕ
  pub pos : ℕ
  pub line : ℕ
  pub column : ℕ
  pub filename : Bytes
  pub diag : DiagnosticEngine
  pub current : Token
  pub has_current : Bool

-- `lexer_init` on a struct whose `current` holds anything.
unfoldable pub lexer_init : Token → Bytes → ℕ → Bytes → DiagnosticEngine → Lexer
lexer_init uninitialised source len filename diag = record {
  source = source;
  source_len = len;
  pos = 0;
  line = 1;
  column = 1;
  filename = filename;
  diag = diag;
  current = uninitialised;
  has_current = false;
}

abbrev pub in_range : ℕ → ℕ → ℕ → Bool
in_range lo hi c = leb lo c && leb c hi

unfoldable pub is_ident_start : ℕ → Bool
is_ident_start c = in_range b'a' b'z' c || in_range b'A' b'Z' c || c == b'_'

unfoldable pub is_ident_char : ℕ → Bool
unfolding is_ident_start
is_ident_char c = is_ident_start c || in_range b'0' b'9' c

unfoldable pub is_digit : ℕ → Bool
is_digit c = in_range b'0' b'9' c

unfoldable pub is_hex_digit : ℕ → Bool
unfolding is_digit
is_hex_digit c = is_digit c || in_range b'a' b'f' c || in_range b'A' b'F' c

-- The white space of `lexer_skip_whitespace`; 12 and 11 are form feed and vertical tab.
unfoldable pub is_space : ℕ → Bool
is_space c = c == b' ' || c == b'\t' || c == b'\n' || c == b'\r' || c == 12 || c == 11

-- `l->source[i]`
abbrev pub char_at : Lexer → ℕ → ℕ
char_at l i = get_or l.source i 0

unfoldable pub lexer_peek_char : Lexer → ℕ → ℕ
lexer_peek_char l ahead = if leb l.source_len (l.pos + ahead) then 0 else char_at l (l.pos + ahead)

-- The move of `lexer_advance_char` past the character `c`.
unfoldable pub step_past : ℕ → Lexer → Lexer
step_past c l =
    if c == b'\n'
    then record l { pos = l.pos + 1; line = l.line + 1; column = 1 }
    else record l { pos = l.pos + 1; column = l.column + 1 }

unfoldable pub lexer_advance_char : Lexer → ℕ × Lexer
unfolding step_past
lexer_advance_char l =
    if leb l.source_len l.pos then (0, l) else (char_at l l.pos, step_past (char_at l l.pos) l)

-- A call of `lexer_advance_char` whose result is dropped.
abbrev pub advance : Lexer → Lexer
advance l = (lexer_advance_char l).1

unfoldable pub report : Lexer → SourceLocation → Message → Lexer
report l loc message = record l { diag = diag_emit l.diag diag_error loc message }

-- Subtraction in `size_t`.
abbrev pub size_sub : ℕ → ℕ → ℕ
size_sub a b = (a + 2 ^ 64 - b) % 2 ^ 64

unfoldable pub make_token : Lexer → TokenKind → ℕ → ℕ → Token
unfolding loc_make sv_from_ptr_len
make_token l kind start len = record {
  kind = kind;
  text = sv_from_ptr_len (drop start l.source) len;
  loc = loc_make l.filename l.line (size_sub l.column len) start;
  value = int_value 0;
}
