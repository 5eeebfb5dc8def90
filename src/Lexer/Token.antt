-- ===== src/Lexer/Token.antt =====
-- `TokenKind`, `token_kind_name` and `Token` of src/lexer.h.
use rayac.Base.{ℕ, String, Bool, true, false, List, [], ◌∷◌, ltb, get_or, length, if◌then◌else◌}
use rayac.Diag.Engine.{SourceLocation}
use rayac.StringView.View.{StringView}

pub data TokenKind : Type 0 where
  tok_module tok_import tok_fn tok_pub tok_const tok_var tok_comptime tok_defer : TokenKind
  tok_errdefer tok_test tok_return tok_if tok_else tok_while tok_for tok_try : TokenKind
  tok_break tok_continue tok_union tok_struct tok_unsafe tok_noreturn tok_in tok_type : TokenKind
  tok_traits tok_extend tok_match tok_enum tok_as tok_with tok_undefined tok_self : TokenKind
  tok_cap_self tok_int_literal tok_float_literal tok_string_literal tok_char_literal : TokenKind
  tok_true tok_false tok_null tok_identifier tok_plus tok_minus tok_star tok_slash : TokenKind
  tok_percent tok_eq tok_ne tok_lt tok_gt tok_le tok_ge tok_underscore tok_assign : TokenKind
  tok_plus_assign tok_minus_assign tok_star_assign tok_slash_assign : TokenKind
  tok_percent_assign tok_and_assign tok_or_assign tok_xor_assign tok_shl_assign : TokenKind
  tok_shr_assign tok_ampersand tok_pipe tok_caret tok_shl tok_shr tok_and_and : TokenKind
  tok_or_or tok_bang tok_tilde tok_dot tok_dot_dot tok_arrow tok_fat_arrow : TokenKind
  tok_colon_colon tok_hash tok_lparen tok_rparen tok_lbracket tok_rbracket tok_lbrace : TokenKind
  tok_rbrace tok_comma tok_semicolon tok_colon tok_question tok_eof tok_error : TokenKind

-- The value of the enumerator.
unfoldable pub kind_index : TokenKind → ℕ
kind_index tok_module = 0
kind_index tok_import = 1
kind_index tok_fn = 2
kind_index tok_pub = 3
kind_index tok_const = 4
kind_index tok_var = 5
kind_index tok_comptime = 6
kind_index tok_defer = 7
kind_index tok_errdefer = 8
kind_index tok_test = 9
kind_index tok_return = 10
kind_index tok_if = 11
kind_index tok_else = 12
kind_index tok_while = 13
kind_index tok_for = 14
kind_index tok_try = 15
kind_index tok_break = 16
kind_index tok_continue = 17
kind_index tok_union = 18
kind_index tok_struct = 19
kind_index tok_unsafe = 20
kind_index tok_noreturn = 21
kind_index tok_in = 22
kind_index tok_type = 23
kind_index tok_traits = 24
kind_index tok_extend = 25
kind_index tok_match = 26
kind_index tok_enum = 27
kind_index tok_as = 28
kind_index tok_with = 29
kind_index tok_undefined = 30
kind_index tok_self = 31
kind_index tok_cap_self = 32
kind_index tok_int_literal = 33
kind_index tok_float_literal = 34
kind_index tok_string_literal = 35
kind_index tok_char_literal = 36
kind_index tok_true = 37
kind_index tok_false = 38
kind_index tok_null = 39
kind_index tok_identifier = 40
kind_index tok_plus = 41
kind_index tok_minus = 42
kind_index tok_star = 43
kind_index tok_slash = 44
kind_index tok_percent = 45
kind_index tok_eq = 46
kind_index tok_ne = 47
kind_index tok_lt = 48
kind_index tok_gt = 49
kind_index tok_le = 50
kind_index tok_ge = 51
kind_index tok_underscore = 52
kind_index tok_assign = 53
kind_index tok_plus_assign = 54
kind_index tok_minus_assign = 55
kind_index tok_star_assign = 56
kind_index tok_slash_assign = 57
kind_index tok_percent_assign = 58
kind_index tok_and_assign = 59
kind_index tok_or_assign = 60
kind_index tok_xor_assign = 61
kind_index tok_shl_assign = 62
kind_index tok_shr_assign = 63
kind_index tok_ampersand = 64
kind_index tok_pipe = 65
kind_index tok_caret = 66
kind_index tok_shl = 67
kind_index tok_shr = 68
kind_index tok_and_and = 69
kind_index tok_or_or = 70
kind_index tok_bang = 71
kind_index tok_tilde = 72
kind_index tok_dot = 73
kind_index tok_dot_dot = 74
kind_index tok_arrow = 75
kind_index tok_fat_arrow = 76
kind_index tok_colon_colon = 77
kind_index tok_hash = 78
kind_index tok_lparen = 79
kind_index tok_rparen = 80
kind_index tok_lbracket = 81
kind_index tok_rbracket = 82
kind_index tok_lbrace = 83
kind_index tok_rbrace = 84
kind_index tok_comma = 85
kind_index tok_semicolon = 86
kind_index tok_colon = 87
kind_index tok_question = 88
kind_index tok_eof = 89
kind_index tok_error = 90

-- The array `names` of `token_kind_name`.
abbrev pub kind_names : List String
kind_names =
    "module" ∷ "import" ∷ "fn" ∷ "pub" ∷ "const" ∷ "var" ∷ "comptime" ∷ "defer" ∷ "errdefer"
    ∷ "test" ∷ "return" ∷ "if" ∷ "else" ∷ "while" ∷ "for" ∷ "try" ∷ "break" ∷ "continue" ∷ "union"
    ∷ "struct" ∷ "unsafe" ∷ "noreturn" ∷ "in" ∷ "type" ∷ "traits" ∷ "extend" ∷ "match" ∷ "enum"
    ∷ "as" ∷ "with" ∷ "undefined" ∷ "self" ∷ "Self" ∷ "ident" ∷ "int_literal" ∷ "float_literal"
    ∷ "string_literal" ∷ "char_literal" ∷ "bool_literal" ∷ "null_literal" ∷ "+" ∷ "-" ∷ "*" ∷ "/"
    ∷ "%" ∷ "==" ∷ "!=" ∷ "<" ∷ ">" ∷ "<=" ∷ ">=" ∷ "=" ∷ "+=" ∷ "-=" ∷ "*=" ∷ "/=" ∷ "%=" ∷ "&="
    ∷ "|=" ∷ "^=" ∷ "<<=" ∷ ">>=" ∷ "&" ∷ "|" ∷ "^" ∷ "<<" ∷ ">>" ∷ "&&" ∷ "||" ∷ "!" ∷ "~" ∷ "."
    ∷ ".." ∷ "->" ∷ "=>" ∷ ":" ∷ "::" ∷ "(" ∷ ")" ∷ "[" ∷ "]" ∷ "{" ∷ "}" ∷ "," ∷ ";" ∷ "?" ∷ "#"
    ∷ "error" ∷ []

unfoldable pub is_eof : TokenKind → Bool
is_eof tok_eof = true
is_eof _ = false

name_at : List String → ℕ → String
name_at names k = if ltb k (length names) then get_or names k "" else "???"

unfoldable pub token_kind_name : TokenKind → String
unfolding kind_index is_eof name_at
token_kind_name k = if is_eof k then "eof" else name_at kind_names (kind_index k)

-- The union of `int_value` and `float_value`, as bit patterns of 64 bits.
pub data TokenValue : Type 0 where
  int_value : ℕ → TokenValue
  float_value : ℕ → TokenValue

pub record Token : Type 0 where
  pub kind : TokenKind
  pub text : StringView
  pub loc : SourceLocation
  pub value : TokenValue
