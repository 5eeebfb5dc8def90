-- ===== src/Parser/Unit.antt =====
-- The top level, lines 1171 to 1273 of src/parser.c, and the circle of the parsing functions: each call
-- of one of the five that the others use takes one from the fuel.
use rayac.Base.{ℕ, zero, suc, Bool, true, false, not, ◌&&◌, ◌⊎◌, inl, inr, if◌then◌else◌}
use rayac.Ast.Decls.{
  ast_new_compilation_unit, ast_new_import_decl, ast_set_module, ast_import_add_part,
  ast_import_set_alias, ast_add_import, ast_add_decl,
}
use rayac.Ast.Syntax.{
  AstNode, node, NodeOpt, null, at, TypeOpt, AttributeList, const_decl, var_decl,
}
use rayac.Lexer.Token.{
  TokenKind, tok_pub, tok_unsafe, tok_fn, tok_struct, tok_union, tok_enum, tok_traits, tok_extend,
  tok_type, tok_test, tok_const, tok_var, tok_assign, tok_semicolon, tok_module, tok_import,
  tok_dot, tok_as,
}
use rayac.Parser.Calls.{Calls, parser_parse_expr, name_token}
use rayac.Parser.Decls.{
  parser_parse_fn_decl, parser_parse_struct_decl, parser_parse_union_decl, parser_parse_enum_decl,
  parser_parse_traits_decl, parser_parse_extend_decl, parser_parse_type_alias,
  parser_parse_test_decl,
}
use rayac.Parser.Members.{parser_parse_attrs}
use rayac.Parser.Pratt.{parser_parse_expr_bp}
use rayac.Parser.State.{
  P, ◌>>=◌, ◌>>◌, pure, no_fuel, loop, new, step, when, is_kind, parser_at_end, parser_current,
  parser_error, parser_expect, parser_match, parser_peek,
}
use rayac.Parser.Stmts.{parser_parse_block, parser_parse_stmt, optional_type, new_var}
use rayac.Parser.TypeExprs.{parser_parse_pattern, parser_parse_type}

abbrev set_top_var : Bool → TypeOpt → NodeOpt → AttributeList → AstNode → AstNode
set_top_var pub_ type init attrs (node id loc (const_decl name p ct t i old)) =
    node id loc (const_decl name pub_ ct type init attrs)
set_top_var pub_ type init attrs (node id loc (var_decl name p ct t i old)) =
    node id loc (var_decl name pub_ ct type init attrs)
set_top_var pub_ type init attrs n = n

abbrev pub no_calls : Calls
no_calls = record {
  parse_expr_bp = λ min_bp. no_fuel;
  parse_block = no_fuel;
  parse_stmt = no_fuel;
  parse_type = no_fuel;
  parse_pattern = no_fuel;
}

unfoldable pub calls : ℕ → Calls
calls zero = no_calls
calls (suc n) = record {
  parse_expr_bp = parser_parse_expr_bp n (calls n);
  parse_block = parser_parse_block n (calls n);
  parse_stmt = parser_parse_stmt n (calls n);
  parse_type = parser_parse_type n (calls n);
  parse_pattern = parser_parse_pattern n (calls n);
}

module _ (fuel : ℕ) (self : Calls) where
  unfoldable pub top_var : Bool → Bool → AttributeList → P NodeOpt
  top_var is_const is_pub attrs = do
    step
    name ← name_token "expected identifier"
    type ← optional_type fuel self
    parser_expect tok_assign "expected '='"
    init ← parser_parse_expr self
    parser_expect tok_semicolon "expected ';'"
    decl ← new (new_var is_const name.text name.loc)
    pure (at (set_top_var is_pub type init attrs decl))

  unfoldable pub top_level_of : Bool → AttributeList → TokenKind → P NodeOpt
  top_level_of is_pub attrs tok_fn = parser_parse_fn_decl fuel self is_pub attrs
  top_level_of is_pub attrs tok_struct = parser_parse_struct_decl fuel self is_pub attrs
  top_level_of is_pub attrs tok_union = parser_parse_union_decl fuel self is_pub attrs
  top_level_of is_pub attrs tok_enum = parser_parse_enum_decl fuel self is_pub attrs
  top_level_of is_pub attrs tok_traits = parser_parse_traits_decl fuel self is_pub attrs
  top_level_of is_pub attrs tok_extend = parser_parse_extend_decl fuel self is_pub attrs
  top_level_of is_pub attrs tok_type = parser_parse_type_alias fuel self is_pub attrs
  top_level_of is_pub attrs tok_test = parser_parse_test_decl fuel self attrs
  top_level_of is_pub attrs tok_const = top_var true is_pub attrs
  top_level_of is_pub attrs tok_var = top_var false is_pub attrs
  top_level_of is_pub attrs _ = do
    t ← parser_current
    parser_error t "expected top-level declaration"
    pure null

  unfoldable pub parser_parse_top_level_decl : P NodeOpt
  parser_parse_top_level_decl = do
    attrs ← parser_parse_attrs fuel self
    is_pub ← parser_match tok_pub
    t ← parser_current
    next ← parser_peek 1
    if is_kind tok_unsafe t && is_kind tok_fn next
        then parser_parse_fn_decl fuel self is_pub attrs
        else top_level_of is_pub attrs t.kind

  unfoldable pub module_part : AstNode → P AstNode
  module_part root = do
    found ← parser_match tok_module
    if found
        then (do
          name ← name_token "expected module name"
          parser_expect tok_semicolon "expected ';' after module declaration"
          pure (ast_set_module root name.text))
        else pure root

  unfoldable pub part_round : AstNode → P (AstNode ⊎ AstNode)
  part_round import_ = do
    dot ← parser_match tok_dot
    if dot
        then (do
          part ← name_token "expected identifier after '.'"
          pure (inl (ast_import_add_part import_ part.text)))
        else pure (inr import_)

  unfoldable pub import_alias : AstNode → P AstNode
  import_alias import_ = do
    found ← parser_match tok_as
    if found
        then (do
          alias ← name_token "expected identifier after 'as'"
          pure (ast_import_set_alias import_ alias.text))
        else pure import_

  unfoldable pub import_round : AstNode → P (AstNode ⊎ AstNode)
  import_round root = do
    found ← parser_match tok_import
    if found
        then (do
          first ← name_token "expected module name after import"
          import_ ← new (ast_new_import_decl first.text first.loc)
          with_parts ← loop fuel part_round import_
          aliased ← import_alias with_parts
          parser_expect tok_semicolon "expected ';' after import"
          pure (inl (ast_add_import root aliased)))
        else pure (inr root)

  unfoldable pub add_or_skip : AstNode → NodeOpt → P (AstNode ⊎ AstNode)
  add_or_skip root (at decl) = pure (inl (ast_add_decl root decl))
  add_or_skip root null = do ended ← parser_at_end; when (not ended) step; pure (inl root)

  unfoldable pub decl_round : AstNode → P (AstNode ⊎ AstNode)
  decl_round root = do
    ended ← parser_at_end
    if ended
        then pure (inr root)
        else (do decl ← parser_parse_top_level_decl; add_or_skip root decl)

  unfoldable pub parse_unit : P AstNode
  parse_unit = do
    t ← parser_current
    root ← new (ast_new_compilation_unit t.loc)
    named ← module_part root
    imported ← loop fuel import_round named
    loop fuel decl_round imported

unfoldable pub parser_parse : ℕ → P AstNode
parser_parse fuel = parse_unit fuel (calls fuel)
