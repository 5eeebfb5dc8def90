-- ===== src/Parser/Decls.antt =====
-- Declarations, lines 857 to 1165 of src/parser.c.
use rayac.Base.{ℕ, Bool, not, ◌⊎◌, inl, if◌then◌else◌}
use rayac.Ast.Decls.{
  ast_new_fn_decl, ast_new_struct_decl, ast_new_union_decl, ast_new_enum_decl, ast_new_traits_decl,
  ast_new_extend_decl, ast_new_type_alias, ast_new_test_decl, ast_new_field_decl,
  ast_new_variant_decl, ast_new_trait_method_decl, ast_fn_add_param, ast_struct_add_field,
  ast_enum_add_variant, ast_traits_add_method, ast_extend_add_method, ast_extend_add_trait,
}
use rayac.Ast.Lists.{ast_node_list_push}
use rayac.Ast.Syntax.{
  AstNode, node, NodeList, NodeOpt, null, at, TypeOpt, no_type, AttributeList, fn_decl, struct_decl,
  union_decl, enum_decl, traits_decl, extend_decl, type_alias, test_decl, field_decl, variant_decl,
  trait_method_decl,
}
use rayac.Lexer.Token.{
  tok_comptime, tok_unsafe, tok_fn, tok_lparen, tok_rparen, tok_arrow, tok_semicolon, tok_struct,
  tok_union, tok_lbrace, tok_rbrace, tok_pub, tok_colon, tok_assign, tok_comma, tok_enum,
  tok_traits, tok_extend, tok_with, tok_type, tok_test, tok_string_literal,
}
use rayac.Parser.Calls.{
  Calls, name_token, again_if, comma_separated, items_before, while_open, unless_closed,
}
use rayac.Parser.Members.{
  parser_parse_attrs, parser_parse_generic_params, parser_parse_param, default_value,
}
use rayac.Parser.State.{
  P, ◌>>=◌, ◌>>◌, pure, new, step, when, parser_at_end, parser_current, parser_expect, parser_match,
}

-- The stores into a new node, all of one kind in one function.
abbrev set_fn : Bool → Bool → Bool → AttributeList → NodeList → AstNode → AstNode
set_fn pub_ ct un attrs gs (node id loc (fn_decl name p c u ex old ps ret body old_attrs)) =
    node id loc (fn_decl name pub_ ct un ex gs ps ret body attrs)
set_fn pub_ ct un attrs gs n = n

abbrev set_fn_end : TypeOpt → NodeOpt → AstNode → AstNode
set_fn_end ret body (node id loc (fn_decl name p c u ex gs ps old_ret old_body attrs)) =
    node id loc (fn_decl name p c u ex gs ps ret body attrs)
set_fn_end ret body n = n

abbrev set_struct : Bool → AttributeList → NodeList → AstNode → AstNode
set_struct pub_ attrs gs (node id loc (struct_decl name p old fields old_attrs)) =
    node id loc (struct_decl name pub_ gs fields attrs)
set_struct pub_ attrs gs (node id loc (union_decl name p old fields old_attrs)) =
    node id loc (union_decl name pub_ gs fields attrs)
set_struct pub_ attrs gs n = n

abbrev set_field : Bool → TypeOpt → AttributeList → NodeOpt → AstNode → AstNode
set_field pub_ type attrs default (node id loc (field_decl name p t d old)) =
    node id loc (field_decl name pub_ type default attrs)
set_field pub_ type attrs default n = n

abbrev set_variant : TypeOpt → NodeOpt → AstNode → AstNode
set_variant payload value (node id loc (variant_decl name p v)) =
    node id loc (variant_decl name payload value)
set_variant payload value n = n

abbrev set_flags : Bool → AttributeList → AstNode → AstNode
set_flags pub_ attrs (node id loc (enum_decl name p variants old)) =
    node id loc (enum_decl name pub_ variants attrs)
set_flags pub_ attrs (node id loc (traits_decl name p methods old)) =
    node id loc (traits_decl name pub_ methods attrs)
set_flags pub_ attrs n = n

abbrev set_method_pub : Bool → AstNode → AstNode
set_method_pub pub_ (node id loc (trait_method_decl name p ps ret)) =
    node id loc (trait_method_decl name pub_ ps ret)
set_method_pub pub_ n = n

abbrev add_method_param : AstNode → AstNode → AstNode
add_method_param (node id loc (trait_method_decl name p ps ret)) param =
    node id loc (trait_method_decl name p (ast_node_list_push ps param) ret)
add_method_param n param = n

abbrev set_method_ret : TypeOpt → AstNode → AstNode
set_method_ret ret (node id loc (trait_method_decl name p ps old)) =
    node id loc (trait_method_decl name p ps ret)
set_method_ret ret n = n

abbrev set_extend : AttributeList → NodeList → AstNode → AstNode
set_extend attrs gs (node id loc (extend_decl target old traits methods old_attrs)) =
    node id loc (extend_decl target gs traits methods attrs)
set_extend attrs gs n = n

abbrev set_alias : Bool → TypeOpt → AttributeList → AstNode → AstNode
set_alias pub_ type attrs (node id loc (type_alias name p t old)) =
    node id loc (type_alias name pub_ type attrs)
set_alias pub_ type attrs n = n

abbrev set_test : NodeOpt → AttributeList → AstNode → AstNode
set_test body attrs (node id loc (test_decl name b old)) = node id loc (test_decl name body attrs)
set_test body attrs n = n

module _ (fuel : ℕ) (self : Calls) where
  -- The parameters between their parentheses.
  unfoldable pub params : (AstNode → AstNode → AstNode) → AstNode → P AstNode
  params add n = do
    parser_expect tok_lparen "expected '('"
    filled ←
        items_before fuel tok_rparen
          (λ m. do param ← parser_parse_param fuel self; pure (add m param)) n
    parser_expect tok_rparen "expected ')'"
    pure filled

  unfoldable pub return_type : P TypeOpt
  return_type = do arrow ← parser_match tok_arrow; if arrow then self.parse_type else pure no_type

  unfoldable pub fn_body : P NodeOpt
  fn_body = do
    semicolon ← parser_match tok_semicolon
    if semicolon then pure null else self.parse_block

  -- A function from its name on, at the top level and in an `extend`.
  unfoldable pub fn_rest : Bool → Bool → Bool → AttributeList → P AstNode
  fn_rest is_pub is_comptime is_unsafe attrs = do
    name ← name_token "expected function name"
    fn ← new (ast_new_fn_decl name.text name.loc)
    gs ← parser_parse_generic_params fuel self
    filled ← params ast_fn_add_param (set_fn is_pub is_comptime is_unsafe attrs gs fn)
    ret ← return_type
    body ← fn_body
    pure (set_fn_end ret body filled)

  unfoldable pub parser_parse_fn_decl : Bool → AttributeList → P NodeOpt
  parser_parse_fn_decl is_pub attrs = do
    is_comptime ← parser_match tok_comptime
    is_unsafe ← parser_match tok_unsafe
    parser_expect tok_fn "expected 'fn'"
    fn ← fn_rest is_pub is_comptime is_unsafe attrs
    pure (at fn)

  unfoldable pub field_round : AstNode → P (AstNode ⊎ AstNode)
  field_round s = do
    attrs ← parser_parse_attrs fuel self
    is_pub ← parser_match tok_pub
    name ← name_token "expected field name"
    parser_expect tok_colon "expected ':' after field name"
    type ← self.parse_type
    field ← new (ast_new_field_decl name.text name.loc)
    default ← default_value fuel self
    comma ← parser_match tok_comma
    pure (again_if comma (ast_struct_add_field s (set_field is_pub type attrs default field)))

  -- The parts of a struct or a union from its generic parameters on.
  unfoldable pub fields_of : Bool → AttributeList → AstNode → P NodeOpt
  fields_of is_pub attrs s = do
    gs ← parser_parse_generic_params fuel self
    parser_expect tok_lbrace "expected '{'"
    filled ←
        while_open fuel tok_rbrace (unless_closed tok_rbrace field_round)
          (set_struct is_pub attrs gs s)
    parser_expect tok_rbrace "expected '}'"
    pure (at filled)

  unfoldable pub parser_parse_struct_decl : Bool → AttributeList → P NodeOpt
  parser_parse_struct_decl is_pub attrs = do
    parser_expect tok_struct "expected 'struct'"
    name ← name_token "expected struct name"
    s ← new (ast_new_struct_decl name.text name.loc)
    fields_of is_pub attrs s

  unfoldable pub parser_parse_union_decl : Bool → AttributeList → P NodeOpt
  parser_parse_union_decl is_pub attrs = do
    parser_expect tok_union "expected 'union'"
    name ← name_token "expected union name"
    u ← new (ast_new_union_decl name.text name.loc)
    fields_of is_pub attrs u

  unfoldable pub payload : P TypeOpt
  payload = do
    paren ← parser_match tok_lparen
    if paren
        then (do
          type ← self.parse_type
          parser_expect tok_rparen "expected ')' after variant payload"
          pure type)
        else pure no_type

  unfoldable pub variant_round : AstNode → P (AstNode ⊎ AstNode)
  variant_round e = do
    name ← name_token "expected variant name"
    variant ← new (ast_new_variant_decl name.text name.loc)
    type ← payload
    discriminant ← default_value fuel self
    comma ← parser_match tok_comma
    pure (again_if comma (ast_enum_add_variant e (set_variant type discriminant variant)))

  unfoldable pub parser_parse_enum_decl : Bool → AttributeList → P NodeOpt
  parser_parse_enum_decl is_pub attrs = do
    parser_expect tok_enum "expected 'enum'"
    name ← name_token "expected enum name"
    e ← new (ast_new_enum_decl name.text name.loc)
    parser_expect tok_lbrace "expected '{'"
    filled ←
        while_open fuel tok_rbrace (unless_closed tok_rbrace variant_round)
          (set_flags is_pub attrs e)
    parser_expect tok_rbrace "expected '}'"
    pure (at filled)

  -- `if (!parser_at_end(p)) p->pos++; continue;`
  unfoldable pub skip_token : AstNode → P (AstNode ⊎ AstNode)
  skip_token n = do ended ← parser_at_end; when (not ended) step; pure (inl n)

  unfoldable pub trait_method : Bool → AstNode → P (AstNode ⊎ AstNode)
  trait_method is_pub traits = do
    name ← name_token "expected method name"
    method ← new (ast_new_trait_method_decl name.text name.loc)
    filled ← params add_method_param (set_method_pub is_pub method)
    ret ← return_type
    parser_expect tok_semicolon "expected ';' after trait method"
    pure (inl (ast_traits_add_method traits (set_method_ret ret filled)))

  unfoldable pub trait_round : AstNode → P (AstNode ⊎ AstNode)
  trait_round traits = do
    is_pub ← parser_match tok_pub
    is_fn ← parser_expect tok_fn "expected 'fn' in trait method"
    if is_fn then trait_method is_pub traits else skip_token traits

  unfoldable pub parser_parse_traits_decl : Bool → AttributeList → P NodeOpt
  parser_parse_traits_decl is_pub attrs = do
    parser_expect tok_traits "expected 'traits'"
    name ← name_token "expected trait name"
    traits ← new (ast_new_traits_decl name.text name.loc)
    parser_expect tok_lbrace "expected '{'"
    filled ←
        while_open fuel tok_rbrace (unless_closed tok_rbrace trait_round)
          (set_flags is_pub attrs traits)
    parser_expect tok_rbrace "expected '}'"
    pure (at filled)

  unfoldable pub extend_round : AstNode → P (AstNode ⊎ AstNode)
  extend_round extend_ = do
    attrs ← parser_parse_attrs fuel self
    is_pub ← parser_match tok_pub
    is_comptime ← parser_match tok_comptime
    is_unsafe ← parser_match tok_unsafe
    is_fn ← parser_expect tok_fn "expected 'fn'"
    if is_fn
        then (do
          fn ← fn_rest is_pub is_comptime is_unsafe attrs
          pure (inl (ast_extend_add_method extend_ fn)))
        else skip_token extend_

  unfoldable pub extend_trait : AstNode → P AstNode
  extend_trait extend_ = do
    t ← name_token "expected trait name"
    pure (ast_extend_add_trait extend_ t.text)

  unfoldable pub parser_parse_extend_decl : Bool → AttributeList → P NodeOpt
  parser_parse_extend_decl is_pub attrs = do
    parser_expect tok_extend "expected 'extend'"
    target ← name_token "expected type name after 'extend'"
    extend_ ← new (ast_new_extend_decl target.text target.loc)
    gs ← parser_parse_generic_params fuel self
    bounded ← parser_match tok_with
    bound ←
        if bounded
        then comma_separated fuel extend_trait (set_extend attrs gs extend_)
        else pure (set_extend attrs gs extend_)
    parser_expect tok_lbrace "expected '{'"
    filled ← while_open fuel tok_rbrace (unless_closed tok_rbrace extend_round) bound
    parser_expect tok_rbrace "expected '}'"
    pure (at filled)

  unfoldable pub parser_parse_type_alias : Bool → AttributeList → P NodeOpt
  parser_parse_type_alias is_pub attrs = do
    parser_expect tok_type "expected 'type'"
    name ← name_token "expected type alias name"
    parser_expect tok_assign "expected '='"
    type ← self.parse_type
    parser_expect tok_semicolon "expected ';' after type alias"
    alias ← new (ast_new_type_alias name.text name.loc)
    pure (at (set_alias is_pub type attrs alias))

  unfoldable pub parser_parse_test_decl : AttributeList → P NodeOpt
  parser_parse_test_decl attrs = do
    parser_expect tok_test "expected 'test'"
    name ← parser_current
    parser_expect tok_string_literal "expected test name string"
    body ← self.parse_block
    test ← new (ast_new_test_decl name.text name.loc)
    pure (at (set_test body attrs test))
