-- ===== src/Parser/TypeExprs.antt =====
-- Patterns and type expressions, lines 639 to 764 of src/parser.c.
use rayac.Base.{ℕ, Bool, true, false, ◌&&◌, ◌⊎◌, codes, if◌then◌else◌}
use rayac.Ast.Syntax.{TypeExpr, TypeOpt, no_type, of_type, Pattern, no_pattern, of_pattern}
use rayac.Ast.TypeExprs.{
  type_new_named, type_new_reference, type_new_pointer, type_new_slice, type_new_array,
  type_new_optional, type_new_error_union, type_new_function, type_add_generic_arg,
  type_func_add_param, type_func_set_ret, pattern_new_wildcard, pattern_new_literal,
  pattern_new_identifier, pattern_new_enum_variant, pattern_new_struct_field,
  pattern_struct_add_field,
}
use rayac.Diag.Engine.{SourceLocation}
use rayac.Lexer.Token.{
  Token, TokenKind, tok_underscore, tok_int_literal, tok_float_literal, tok_string_literal,
  tok_char_literal, tok_true, tok_false, tok_null, tok_dot, tok_lbrace, tok_rbrace, tok_colon,
  tok_comma, tok_lparen, tok_rparen, tok_identifier, tok_ampersand, tok_const, tok_star,
  tok_lbracket, tok_rbracket, tok_fn, tok_arrow, tok_type, tok_self, tok_question, tok_bang,
}
use rayac.Parser.Calls.{Calls, parser_parse_expr, name_token, again_if, items_before, while_open}
use rayac.Parser.Exprs.{parser_parse_primary}
use rayac.Parser.State.{
  P, ◌>>=◌, ◌>>◌, pure, step, is_kind, parser_check, parser_current, parser_error, parser_expect,
  parser_match, parser_peek,
}
use rayac.StringView.View.{sv_from_cstr, sv_eq_cstr}

abbrev pub is_literal : TokenKind → Bool
is_literal tok_int_literal = true
is_literal tok_float_literal = true
is_literal tok_string_literal = true
is_literal tok_char_literal = true
is_literal tok_true = true
is_literal tok_false = true
is_literal tok_null = true
is_literal _ = false

module _ (fuel : ℕ) (self : Calls) where
  unfoldable pub field_pattern_round : Pattern → P (Pattern ⊎ Pattern)
  field_pattern_round pat = do
    field ← name_token "expected field name"
    parser_expect tok_colon "expected ':'"
    field_pat ← self.parse_pattern
    comma ← parser_match tok_comma
    pure (again_if comma (pattern_struct_add_field pat field.text field_pat))

  unfoldable pub struct_pattern : SourceLocation → P Pattern
  struct_pattern loc = do
    step
    parser_expect tok_lbrace "expected '{'"
    pat ← while_open fuel tok_rbrace field_pattern_round (pattern_new_struct_field loc)
    parser_expect tok_rbrace "expected '}'"
    pure pat

  unfoldable pub variant_pattern : SourceLocation → P Pattern
  variant_pattern loc = do
    step
    name ← name_token "expected variant name after '.'"
    paren ← parser_match tok_lparen
    if paren
        then (do
          inner ← self.parse_pattern
          parser_expect tok_rparen "expected ')' after variant pattern"
          pure (pattern_new_enum_variant name.text (of_pattern inner) loc))
        else pure (pattern_new_enum_variant name.text no_pattern loc)

  unfoldable pub dot_pattern : SourceLocation → P Pattern
  dot_pattern loc = do
    next ← parser_peek 1
    if is_kind tok_lbrace next then struct_pattern loc else variant_pattern loc

  unfoldable pub name_pattern : Token → P Pattern
  name_pattern t = do
    is_name ← parser_check tok_identifier
    if is_name
        then (do step; pure (pattern_new_identifier t.text t.loc))
        else (do parser_error t "expected pattern"; pure (pattern_new_wildcard t.loc))

  unfoldable pub pattern_of : Token → P Pattern
  pattern_of t =
      if is_literal t.kind
      then (do lit ← parser_parse_primary fuel self; pure (pattern_new_literal lit t.loc))
      else (do dot ← parser_check tok_dot; if dot then dot_pattern t.loc else name_pattern t)

  unfoldable pub parser_parse_pattern : P Pattern
  parser_parse_pattern = do
    t ← parser_current
    wildcard ← parser_match tok_underscore
    if wildcard then pure (pattern_new_wildcard t.loc) else pattern_of t

  -- The child of a reference, a pointer or a slice.
  unfoldable pub unary_type :
      (TypeOpt → Bool → SourceLocation → TypeExpr) → SourceLocation → P TypeOpt
  unary_type build loc = do
    is_const ← parser_match tok_const
    child ← self.parse_type
    pure (of_type (build child is_const loc))

  unfoldable pub bracket_type : SourceLocation → P TypeOpt
  bracket_type loc = do
    empty ← parser_match tok_rbracket
    if empty then unary_type type_new_slice loc else (do
      length ← parser_parse_expr self
      parser_expect tok_rbracket "expected ']' in array type"
      child ← self.parse_type
      pure (of_type (type_new_array length child loc)))

  unfoldable pub func_param : TypeExpr → P TypeExpr
  func_param func = do param ← self.parse_type; pure (type_func_add_param func param)

  unfoldable pub func_type : SourceLocation → P TypeOpt
  func_type loc = do
    parser_expect tok_lparen "expected '(' in function type"
    func ← items_before fuel tok_rparen func_param (type_new_function loc)
    parser_expect tok_rparen "expected ')'"
    arrow ← parser_match tok_arrow
    if arrow
        then (do ret ← self.parse_type; pure (of_type (type_func_set_ret func ret)))
        else pure (of_type func)

  unfoldable pub generic_arg_round : TypeExpr → P (TypeExpr ⊎ TypeExpr)
  generic_arg_round type = do
    arg ← self.parse_type
    comma ← parser_match tok_comma
    pure (again_if comma (type_add_generic_arg type arg))

  unfoldable pub generic_type : Token → P TypeOpt
  generic_type t = do
    step
    paren ← parser_match tok_lparen
    if paren
        then (do
          type ← while_open fuel tok_rparen generic_arg_round (type_new_named t.text t.loc)
          parser_expect tok_rparen "expected ')' after generic arguments"
          pure (of_type type))
        else pure (of_type (type_new_named t.text t.loc))

  abbrev self_named : SourceLocation → TypeOpt
  self_named loc = of_type (type_new_named (sv_from_cstr (codes "Self")) loc)

  unfoldable pub named_type : Token → P TypeOpt
  named_type t = do
    is_name ← parser_check tok_identifier
    if is_name && sv_eq_cstr t.text (codes "Self")
        then (do step; pure (self_named t.loc))
        else if is_name
        then generic_type t
        else (do parser_error t "expected type"; pure no_type)

  unfoldable pub keyword_type : Token → P TypeOpt
  keyword_type t = do
    is_type ← parser_match tok_type
    if is_type then pure (of_type (type_new_named (sv_from_cstr (codes "type")) t.loc)) else (do
      is_self ← parser_match tok_self
      if is_self then pure (self_named t.loc) else named_type t)

  unfoldable pub compound_type : Token → P TypeOpt
  compound_type t = do
    bracket ← parser_match tok_lbracket
    if bracket
        then bracket_type t.loc
        else (do is_fn ← parser_match tok_fn; if is_fn then func_type t.loc else keyword_type t)

  unfoldable pub primary_type : Token → P TypeOpt
  primary_type t = do
    reference ← parser_match tok_ampersand
    if reference then unary_type type_new_reference t.loc else (do
      pointer ← parser_match tok_star
      if pointer then unary_type type_new_pointer t.loc else compound_type t)

  -- `T?` and `E!T`; an optional type has the place of the token behind it.
  unfoldable pub type_suffix : SourceLocation → TypeOpt → P TypeOpt
  type_suffix loc no_type = pure no_type
  type_suffix loc (of_type primary) = do
    question ← parser_match tok_question
    if question
        then (do t ← parser_current; pure (of_type (type_new_optional primary t.loc)))
        else (do
          bang ← parser_match tok_bang
          if bang
              then (do
                success ← self.parse_type
                pure (of_type (type_new_error_union primary success loc)))
              else pure (of_type primary))

  unfoldable pub parser_parse_type : P TypeOpt
  parser_parse_type = do t ← parser_current; primary ← primary_type t; type_suffix t.loc primary
