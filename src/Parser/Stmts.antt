-- ===== src/Parser/Stmts.antt =====
-- Blocks and statements, lines 450 to 633 of src/parser.c.
use rayac.Base.{ℕ, Bool, true, false, ◌⊎◌, inl, inr, if◌then◌else◌}
use rayac.Ast.Decls.{ast_new_const_decl, ast_new_var_decl}
use rayac.Ast.Stmts.{
  ast_new_block, ast_new_expr_stmt, ast_new_return, ast_new_if, ast_new_while, ast_new_for,
  ast_new_defer, ast_new_errdefer, ast_new_break, ast_new_continue, ast_new_match,
  ast_new_match_arm, ast_new_assign, ast_block_add_stmt, ast_block_set_trailing, ast_match_add_arm,
}
use rayac.Ast.Syntax.{
  AstNode, node, NodeOpt, null, at, TypeOpt, no_type, Pattern, pattern_at, loc_of, const_decl,
  var_decl,
}
use rayac.Ast.TypeExprs.{token_is_assignment_op}
use rayac.Diag.Engine.{SourceLocation}
use rayac.Lexer.Token.{
  TokenKind, tok_if, tok_while, tok_for, tok_match, tok_errdefer, tok_lbrace, tok_rbrace,
  tok_return, tok_break, tok_continue, tok_defer, tok_const, tok_var, tok_semicolon, tok_colon,
  tok_assign, tok_else, tok_in, tok_fat_arrow, tok_comma,
}
use rayac.Parser.Calls.{Calls, parser_parse_expr, name_token, make, while_open, unless_closed}
use rayac.Parser.State.{
  P, ◌>>=◌, ◌>>◌, pure, new, step, parser_check, parser_current, parser_error, parser_expect,
  parser_match,
}
use rayac.StringView.View.{StringView}

-- The two lists of kinds that `parser_parse_block` hands to `parser_parse_stmt`.
abbrev pub starts_stmt : TokenKind → Bool
starts_stmt tok_if = true
starts_stmt tok_while = true
starts_stmt tok_for = true
starts_stmt tok_match = true
starts_stmt tok_errdefer = true
starts_stmt tok_lbrace = true
starts_stmt tok_return = true
starts_stmt tok_break = true
starts_stmt tok_continue = true
starts_stmt tok_defer = true
starts_stmt tok_const = true
starts_stmt tok_var = true
starts_stmt _ = false

abbrev pub pattern_loc : Pattern → SourceLocation
pattern_loc (pattern_at loc k) = loc

-- `decl->var_decl.type = type; decl->var_decl.init = init;`
abbrev pub set_var : TypeOpt → NodeOpt → AstNode → AstNode
set_var type init (node id loc (const_decl name is_pub ct old_type old_init attrs)) =
    node id loc (const_decl name is_pub ct type init attrs)
set_var type init (node id loc (var_decl name is_pub ct old_type old_init attrs)) =
    node id loc (var_decl name is_pub ct type init attrs)
set_var type init n = n

abbrev pub new_var : Bool → StringView → SourceLocation → ℕ → AstNode
new_var true name loc id = ast_new_const_decl name loc id
new_var false name loc id = ast_new_var_decl name loc id

abbrev add_stmt : AstNode → NodeOpt → AstNode ⊎ AstNode
add_stmt block null = inr block
add_stmt block (at stmt) = inl (ast_block_add_stmt block stmt)

module _ (fuel : ℕ) (self : Calls) where
  unfoldable pub block_end : AstNode → AstNode → P (AstNode ⊎ AstNode)
  block_end block expr = do
    closed ← parser_check tok_rbrace
    if closed then pure (inr (ast_block_set_trailing block expr)) else (do
      t ← parser_current
      parser_error t "expected ';' or '}' after expression"
      pure (inr block))

  unfoldable pub block_tail : AstNode → AstNode → TokenKind → P (AstNode ⊎ AstNode)
  block_tail block expr op =
      if token_is_assignment_op op
      then (do
        step
        rhs ← parser_parse_expr self
        parser_expect tok_semicolon "expected ';' after assignment"
        stmt ← new (ast_new_assign op expr rhs (loc_of expr))
        pure (inl (ast_block_add_stmt block stmt)))
      else (do
        semicolon ← parser_match tok_semicolon
        if semicolon
            then (do
              stmt ← new (ast_new_expr_stmt (at expr) (loc_of expr))
              pure (inl (ast_block_add_stmt block stmt)))
            else block_end block expr)

  unfoldable pub block_after : AstNode → NodeOpt → P (AstNode ⊎ AstNode)
  block_after block null = pure (inr block)
  block_after block (at expr) = do t ← parser_current; block_tail block expr t.kind

  unfoldable pub block_item : AstNode → P (AstNode ⊎ AstNode)
  block_item block = do
    t ← parser_current
    if starts_stmt t.kind
        then (do stmt ← self.parse_stmt; pure (add_stmt block stmt))
        else (do expr ← parser_parse_expr self; block_after block expr)

  unfoldable pub block_from : SourceLocation → Bool → P NodeOpt
  block_from loc false = pure null
  block_from loc true = do
    block ← new (ast_new_block loc)
    filled ← while_open fuel tok_rbrace (unless_closed tok_rbrace block_item) block
    parser_expect tok_rbrace "expected '}'"
    pure (at filled)

  unfoldable pub parser_parse_block : P NodeOpt
  parser_parse_block = do
    t ← parser_current
    opened ← parser_expect tok_lbrace "expected '{'"
    block_from t.loc opened

  -- `if (parser_match(p, TOK_COLON)) type = parser_parse_type(p);`
  unfoldable pub optional_type : P TypeOpt
  optional_type = do colon ← parser_match tok_colon; if colon then self.parse_type else pure no_type

  unfoldable pub var_stmt : Bool → P NodeOpt
  var_stmt is_const = do
    step
    name ← name_token "expected identifier"
    type ← optional_type
    parser_expect tok_assign "expected '=' in declaration"
    init ← parser_parse_expr self
    parser_expect tok_semicolon "expected ';' after declaration"
    decl ← new (new_var is_const name.text name.loc)
    pure (at (set_var type init decl))

  unfoldable pub return_rest : SourceLocation → P NodeOpt
  return_rest loc = do
    step
    semicolon ← parser_match tok_semicolon
    if semicolon then make (ast_new_return null loc) else (do
      value ← parser_parse_expr self
      parser_expect tok_semicolon "expected ';' after return"
      make (ast_new_return value loc))

  unfoldable pub else_part : P NodeOpt
  else_part = do
    found ← parser_match tok_else
    if found
        then (do
          chained ← parser_check tok_if
          if chained then self.parse_stmt else self.parse_block)
        else pure null

  unfoldable pub if_rest : SourceLocation → P NodeOpt
  if_rest loc = do
    step
    condition ← parser_parse_expr self
    then_block ← self.parse_block
    else_block ← else_part
    make (ast_new_if condition then_block else_block loc)

  unfoldable pub while_rest : SourceLocation → P NodeOpt
  while_rest loc = do
    step
    condition ← parser_parse_expr self
    body ← self.parse_block
    make (ast_new_while condition body loc)

  unfoldable pub for_rest : SourceLocation → P NodeOpt
  for_rest loc = do
    step
    var ← name_token "expected identifier after 'for'"
    parser_expect tok_colon "expected ':' after for variable"
    var_type ← self.parse_type
    parser_expect tok_in "expected 'in' after for variable type"
    iterable ← parser_parse_expr self
    body ← self.parse_block
    make (ast_new_for var.text var_type iterable body loc)

  -- Each round adds an arm, whether or not the functions that it calls have moved on.
  unfoldable pub arm_round : AstNode → P (AstNode ⊎ AstNode)
  arm_round m = do
    pat ← self.parse_pattern
    parser_expect tok_fat_arrow "expected '=>' in match arm"
    expr ← parser_parse_expr self
    arm ← new (ast_new_match_arm pat expr (pattern_loc pat))
    parser_match tok_comma
    pure (inl (ast_match_add_arm m arm))

  unfoldable pub match_rest : SourceLocation → P NodeOpt
  match_rest loc = do
    step
    expr ← parser_parse_expr self
    m ← new (ast_new_match expr loc)
    parser_expect tok_lbrace "expected '{' after match expression"
    filled ← while_open fuel tok_rbrace (unless_closed tok_rbrace arm_round) m
    parser_expect tok_rbrace "expected '}' after match arms"
    pure (at filled)

  unfoldable pub expr_rest : AstNode → TokenKind → P NodeOpt
  expr_rest lhs op =
      if token_is_assignment_op op
      then (do
        step
        rhs ← parser_parse_expr self
        parser_expect tok_semicolon "expected ';' after assignment"
        make (ast_new_assign op lhs rhs (loc_of lhs)))
      else (do
        parser_expect tok_semicolon "expected ';' after expression"
        make (ast_new_expr_stmt (at lhs) (loc_of lhs)))

  unfoldable pub expr_stmt_from : NodeOpt → P NodeOpt
  expr_stmt_from null = pure null
  expr_stmt_from (at lhs) = do t ← parser_current; expr_rest lhs t.kind

  unfoldable pub stmt_of : SourceLocation → TokenKind → P NodeOpt
  stmt_of loc tok_const = var_stmt true
  stmt_of loc tok_var = var_stmt false
  stmt_of loc tok_return = return_rest loc
  stmt_of loc tok_if = if_rest loc
  stmt_of loc tok_while = while_rest loc
  stmt_of loc tok_for = for_rest loc
  stmt_of loc tok_break = do
    step
    parser_expect tok_semicolon "expected ';' after break"
    make (ast_new_break loc)
  stmt_of loc tok_continue = do
    step
    parser_expect tok_semicolon "expected ';' after continue"
    make (ast_new_continue loc)
  stmt_of loc tok_defer = do
    step
    expr ← parser_parse_expr self
    parser_expect tok_semicolon "expected ';' after defer"
    make (ast_new_defer expr loc)
  stmt_of loc tok_errdefer = do step; body ← self.parse_block; make (ast_new_errdefer body loc)
  stmt_of loc tok_match = match_rest loc
  stmt_of loc tok_lbrace = self.parse_block
  stmt_of loc _ = do lhs ← parser_parse_expr self; expr_stmt_from lhs

  unfoldable pub parser_parse_stmt : P NodeOpt
  parser_parse_stmt = do t ← parser_current; stmt_of t.loc t.kind
