-- ===== src/Parser/Exprs.antt =====
-- Expressions, lines 146 to 444 of src/parser.c.
use rayac.Base.{
  ℕ, Bool, true, false, ◌&&◌, Option, none, some, ◌⊎◌, inl, inr, codes, ltb, leb, get_elem?,
  if◌then◌else◌,
}
use rayac.Ast.Exprs.{
  ast_new_int_literal, ast_new_float_literal, ast_new_string_literal, ast_new_char_literal,
  ast_new_bool_literal, ast_new_null_literal, ast_new_undefined_literal, ast_new_identifier,
  ast_new_array_literal, ast_new_struct_literal, ast_array_add_elem, ast_struct_add_field_init,
}
use rayac.Ast.Stmts.{ast_new_assign}
use rayac.Ast.Syntax.{AstNode, node, NodeOpt, null, at, TypeExpr, TypeOpt, of_type, array_literal}
use rayac.Ast.TypeExprs.{type_new_named}
use rayac.Lexer.Token.{
  Token, TokenValue, int_value, float_value, TokenKind, tok_or_or, tok_and_and, tok_eq, tok_ne,
  tok_lt, tok_gt, tok_le, tok_ge, tok_pipe, tok_caret, tok_ampersand, tok_shl, tok_shr, tok_plus,
  tok_minus, tok_star, tok_slash, tok_percent, tok_dot_dot, tok_lbrace, tok_rbrace, tok_colon,
  tok_comma, tok_assign, tok_int_literal, tok_float_literal, tok_string_literal, tok_char_literal,
  tok_true, tok_false, tok_null, tok_undefined, tok_self, tok_identifier, tok_lparen, tok_rparen,
  tok_lbracket, tok_rbracket,
}
use rayac.Parser.Calls.{Calls, parser_parse_expr, name_token, make, add_some, again_if, while_open}
use rayac.Parser.State.{
  P, ◌>>=◌, ◌>>◌, pure, read, new, step, parser_check, parser_current, parser_error, parser_expect,
  parser_match,
}
use rayac.StringView.View.{StringView, sv_from_cstr}

-- The left and the right binding power of an operator.
unfoldable pub infix_binding_power : TokenKind → Option (ℕ × ℕ)
infix_binding_power tok_or_or = some (10, 11)
infix_binding_power tok_and_and = some (20, 21)
infix_binding_power tok_eq = some (30, 31)
infix_binding_power tok_ne = some (30, 31)
infix_binding_power tok_lt = some (40, 41)
infix_binding_power tok_gt = some (40, 41)
infix_binding_power tok_le = some (40, 41)
infix_binding_power tok_ge = some (40, 41)
infix_binding_power tok_pipe = some (50, 51)
infix_binding_power tok_caret = some (60, 61)
infix_binding_power tok_ampersand = some (70, 71)
infix_binding_power tok_shl = some (80, 81)
infix_binding_power tok_shr = some (80, 81)
infix_binding_power tok_plus = some (90, 91)
infix_binding_power tok_minus = some (90, 91)
infix_binding_power tok_star = some (100, 101)
infix_binding_power tok_slash = some (100, 101)
infix_binding_power tok_percent = some (100, 101)
infix_binding_power tok_dot_dot = some (45, 46)
infix_binding_power _ = none

-- The member of the union that the token's kind selects; both are bit patterns.
abbrev value_bits : TokenValue → ℕ
value_bits (int_value v) = v
value_bits (float_value v) = v

-- The first character is read if the text has one.
unfoldable pub starts_with_capital : StringView → P Bool
starts_with_capital sv =
    if ltb 0 sv.len
    then (do c ← read (get_elem? sv.data_ 0); pure (leb 65 c && leb c 90))
    else pure false

-- How the loop over the operators ends.
pub data InfixEnd : Type 0 where
  broke : AstNode → InfixEnd
  gave_up : AstNode → InfixEnd

-- The stores into a new array literal.
abbrev set_length : NodeOpt → AstNode → AstNode
set_length length (node id loc (array_literal type old elems sentinel)) =
    node id loc (array_literal type length elems sentinel)
set_length length n = n

abbrev set_explicit_type : TypeOpt → AstNode → AstNode
set_explicit_type type (node id loc (array_literal old length elems sentinel)) =
    node id loc (array_literal type length elems sentinel)
set_explicit_type type n = n

abbrev set_sentinel : AstNode → AstNode
set_sentinel (node id loc (array_literal type length elems old)) =
    node id loc (array_literal type length elems true)
set_sentinel n = n

module _ (fuel : ℕ) (self : Calls) where
  unfoldable pub field_init_round : AstNode → P (AstNode ⊎ AstNode)
  field_init_round lit = do
    field ← name_token "expected field name"
    parser_expect tok_colon "expected ':' after field name"
    value ← parser_parse_expr self
    name ← new (ast_new_identifier field.text field.loc)
    init ← new (ast_new_assign tok_assign name value field.loc)
    comma ← parser_match tok_comma
    pure (again_if comma (ast_struct_add_field_init lit init))

  unfoldable pub parser_parse_struct_literal : TypeExpr → P NodeOpt
  parser_parse_struct_literal type = do
    t ← parser_current
    parser_expect tok_lbrace "expected '{' in struct literal"
    lit ← new (ast_new_struct_literal (of_type type) t.loc)
    filled ← while_open fuel tok_rbrace field_init_round lit
    parser_expect tok_rbrace "expected '}' in struct literal"
    pure (at filled)

  -- A name, which starts a struct literal if it is capitalised and a brace follows.
  unfoldable pub name_or_literal : Token → P NodeOpt
  name_or_literal t = do
    name ← new (ast_new_identifier t.text t.loc)
    brace ← parser_check tok_lbrace
    literal ← (if brace then starts_with_capital t.text else pure false)
    if literal then parser_parse_struct_literal (type_new_named t.text t.loc) else pure (at name)

  unfoldable pub parenthesised : P NodeOpt
  parenthesised = do
    e ← parser_parse_expr self
    parser_expect tok_rparen "expected ')' after expression"
    pure e

  unfoldable pub array_type : AstNode → P AstNode
  array_type lit = do
    empty ← parser_match tok_rbracket
    if empty then (do type ← self.parse_type; pure (set_explicit_type type lit)) else (do
      length ← parser_parse_expr self
      parser_expect tok_rbracket "expected ']' in array literal"
      type ← self.parse_type
      pure (set_explicit_type type (set_length length lit)))

  unfoldable pub element_round : AstNode → P (AstNode ⊎ AstNode)
  element_round lit = do
    elem ← parser_parse_expr self
    comma ← parser_match tok_comma
    if comma
        then (do
          closed ← parser_check tok_rbrace
          pure (
              if closed
              then inr (set_sentinel (add_some ast_array_add_elem lit elem))
              else inl (add_some ast_array_add_elem lit elem)))
        else pure (inr (add_some ast_array_add_elem lit elem))

  unfoldable pub parse_array_literal : Token → P NodeOpt
  parse_array_literal t = do
    lit ← new (ast_new_array_literal t.loc)
    typed ← array_type lit
    parser_expect tok_lbrace "expected '{' in array literal"
    filled ← while_open fuel tok_rbrace element_round typed
    parser_expect tok_rbrace "expected '}' in array literal"
    pure (at filled)

  unfoldable pub primary_of : Token → TokenKind → P NodeOpt
  primary_of t tok_int_literal = do step; make (ast_new_int_literal (value_bits t.value) t.loc)
  primary_of t tok_float_literal = do step; make (ast_new_float_literal (value_bits t.value) t.loc)
  primary_of t tok_string_literal = do step; make (ast_new_string_literal t.text t.loc)
  primary_of t tok_char_literal = do step; make (ast_new_char_literal t.text t.loc)
  primary_of t tok_true = do step; make (ast_new_bool_literal true t.loc)
  primary_of t tok_false = do step; make (ast_new_bool_literal false t.loc)
  primary_of t tok_null = do step; make (ast_new_null_literal t.loc)
  primary_of t tok_undefined = do step; make (ast_new_undefined_literal t.loc)
  primary_of t tok_self = do step; make (ast_new_identifier (sv_from_cstr (codes "self")) t.loc)
  primary_of t tok_identifier = do step; name_or_literal t
  primary_of t tok_lparen = do step; parenthesised
  primary_of t tok_lbracket = do step; parse_array_literal t
  primary_of t _ = do parser_error t "expected expression"; pure null

  unfoldable pub parser_parse_primary : P NodeOpt
  parser_parse_primary = do t ← parser_current; primary_of t t.kind
