-- ===== src/Parser/Members.antt =====
-- Attributes, parameters and generic parameters, lines 100 to 135 and 770 to 851 of src/parser.c, and the
-- stores into new nodes.
use rayac.Base.{ℕ, Bool, true, false, not, ◌||◌, ◌⊎◌, inl, inr, codes, if◌then◌else◌}
use rayac.Ast.Decls.{ast_new_param_decl, ast_new_generic_param_decl}
use rayac.Ast.Lists.{ast_node_list_push, attribute_list_push, string_view_list_push}
use rayac.Ast.Syntax.{
  AstNode, node, NodeList, nil, NodeOpt, null, at, TypeOpt, of_type, AttributeList, no_attrs,
  param_decl, generic_param_decl,
}
use rayac.Ast.TypeExprs.{type_new_named, type_new_reference}
use rayac.Diag.Engine.{SourceLocation}
use rayac.Lexer.Token.{
  tok_hash, tok_lbracket, tok_rbracket, tok_lparen, tok_rparen, tok_identifier, tok_ampersand,
  tok_const, tok_self, tok_colon, tok_assign, tok_type, tok_with,
}
use rayac.Parser.Calls.{Calls, parser_parse_expr, name_token, comma_separated}
use rayac.Parser.State.{
  P, ◌>>=◌, ◌>>◌, pure, loop, new, is_kind, parser_check, parser_current, parser_expect,
  parser_match, parser_peek,
}
use rayac.StringView.View.{StringView, sv_from_cstr}

-- `param->param_decl.type = type; param->param_decl.is_self = is_self;`
abbrev set_param : TypeOpt → Bool → AstNode → AstNode
set_param type is_self (node id loc (param_decl name old default ct old_self)) =
    node id loc (param_decl name type default ct is_self)
set_param type is_self n = n

abbrev set_default : NodeOpt → AstNode → AstNode
set_default default (node id loc (param_decl name type old ct is_self)) =
    node id loc (param_decl name type default ct is_self)
set_default default n = n

abbrev add_constraint : StringView → AstNode → AstNode
add_constraint t (node id loc (generic_param_decl name traits)) =
    node id loc (generic_param_decl name (string_view_list_push traits t))
add_constraint t n = n

abbrev push_some : NodeList → NodeOpt → NodeList
push_some ns null = ns
push_some ns (at n) = ast_node_list_push ns n

module _ (fuel : ℕ) (self : Calls) where
  unfoldable pub attribute_arg : NodeList → P NodeList
  attribute_arg args = do arg ← parser_parse_expr self; pure (push_some args arg)

  unfoldable pub attribute_args : P NodeList
  attribute_args = do
    paren ← parser_match tok_lparen
    if paren
        then (do
          args ← comma_separated fuel attribute_arg nil
          parser_expect tok_rparen "expected ')' after attribute args"
          pure args)
        else pure nil

  -- The attribute is put at the end of the list, as `parser_parse_attrs` does with what it gets.
  unfoldable pub parser_parse_attribute : AttributeList → P AttributeList
  parser_parse_attribute attrs = do
    t ← parser_current
    parser_expect tok_hash "expected '#'"
    parser_expect tok_lbracket "expected '[' after '#'"
    name ← name_token "expected attribute name"
    args ← attribute_args
    parser_expect tok_rbracket "expected ']' after attribute"
    pure (attribute_list_push attrs name.text args t.loc)

  unfoldable pub attribute_round : AttributeList → P (AttributeList ⊎ AttributeList)
  attribute_round attrs = do
    hash ← parser_check tok_hash
    if hash then (do more ← parser_parse_attribute attrs; pure (inl more)) else pure (inr attrs)

  unfoldable pub parser_parse_attrs : P AttributeList
  parser_parse_attrs = loop fuel attribute_round no_attrs

  -- `if (parser_match(p, TOK_ASSIGN)) … = parser_parse_expr(p);`
  unfoldable pub default_value : P NodeOpt
  default_value = do
    assign ← parser_match tok_assign
    if assign then parser_parse_expr self else pure null

  -- The type that is left out: `Self`, or a reference to it.
  abbrev self_type : Bool → Bool → SourceLocation → TypeOpt
  self_type true is_const loc =
      of_type (
        type_new_reference (of_type (type_new_named (sv_from_cstr (codes "Self")) loc)) is_const
          loc)
  self_type false is_const loc = of_type (type_new_named (sv_from_cstr (codes "Self")) loc)

  -- `if (parser_match(p, TOK_CONST)) is_const = true;`, behind an `&`.
  unfoldable pub const_behind : Bool → P Bool
  const_behind false = pure false
  const_behind true = parser_match tok_const

  unfoldable pub self_param : P AstNode
  self_param = do
    is_ref ← parser_match tok_ampersand
    is_const ← const_behind is_ref
    self_tok ← parser_current
    parser_expect tok_self "expected 'self'"
    colon ← parser_match tok_colon
    type ← if colon then self.parse_type else pure (self_type is_ref is_const self_tok.loc)
    param ← new (ast_new_param_decl (sv_from_cstr (codes "self")) self_tok.loc)
    value ← default_value
    pure (set_default value (set_param type true param))

  unfoldable pub named_param : P AstNode
  named_param = do
    name ← name_token "expected parameter name"
    parser_expect tok_colon "expected ':' after parameter name"
    type ← self.parse_type
    param ← new (ast_new_param_decl name.text name.loc)
    value ← default_value
    pure (set_default value (set_param type false param))

  unfoldable pub parser_parse_param : P AstNode
  parser_parse_param = do
    t ← parser_current
    if is_kind tok_ampersand t || is_kind tok_self t then self_param else named_param

  unfoldable pub trait_name : AstNode → P AstNode
  trait_name gp = do t ← name_token "expected trait name"; pure (add_constraint t.text gp)

  unfoldable pub generic_param : NodeList → P NodeList
  generic_param out = do
    name ← name_token "expected generic parameter name"
    parser_expect tok_colon "expected ':'"
    parser_expect tok_type "expected 'type'"
    gp ← new (ast_new_generic_param_decl name.text name.loc)
    bounded ← parser_match tok_with
    bound ← if bounded then comma_separated fuel trait_name gp else pure gp
    pure (ast_node_list_push out bound)

  unfoldable pub generic_list : P NodeList
  generic_list = do
    parser_expect tok_lparen "expected '('"
    gs ← comma_separated fuel generic_param nil
    parser_expect tok_rparen "expected ')'"
    pure gs

  -- The list is read only where the next tokens are `(`, a name, `:` and `type`.
  unfoldable pub parser_parse_generic_params : P NodeList
  parser_parse_generic_params = do
    paren ← parser_check tok_lparen
    if not paren then pure nil else (do
      t ← parser_peek 1
      if not (is_kind tok_identifier t) then pure nil else (do
        t ← parser_peek 2
        if not (is_kind tok_colon t) then pure nil else (do
          t ← parser_peek 3
          if not (is_kind tok_type t) then pure nil else generic_list)))
