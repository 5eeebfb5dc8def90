-- ===== src/Ast/Stmts.antt =====
-- The constructors of statements of src/ast.c.
use rayac.Base.{ℕ}
use rayac.Ast.Lists.{ast_node_list_push}
use rayac.Ast.Syntax.{
  AstNode, node, nil, NodeOpt, null, at, TypeOpt, Pattern, block, expr_stmt, return_stmt, if_stmt,
  while_stmt, for_stmt, defer_stmt, errdefer_stmt, break_stmt, continue_stmt, match_stmt, match_arm,
  assign_stmt,
}
use rayac.Diag.Engine.{SourceLocation}
use rayac.Lexer.Token.{TokenKind}
use rayac.StringView.View.{StringView}

abbrev pub ast_new_block : SourceLocation → ℕ → AstNode
ast_new_block loc id = node id loc (block nil null)

abbrev pub ast_new_expr_stmt : NodeOpt → SourceLocation → ℕ → AstNode
ast_new_expr_stmt expr loc id = node id loc (expr_stmt expr)

abbrev pub ast_new_return : NodeOpt → SourceLocation → ℕ → AstNode
ast_new_return value loc id = node id loc (return_stmt value)

abbrev pub ast_new_if : NodeOpt → NodeOpt → NodeOpt → SourceLocation → ℕ → AstNode
ast_new_if cond then_block else_block loc id = node id loc (if_stmt cond then_block else_block)

abbrev pub ast_new_while : NodeOpt → NodeOpt → SourceLocation → ℕ → AstNode
ast_new_while cond body loc id = node id loc (while_stmt cond body)

abbrev pub ast_new_for : StringView → TypeOpt → NodeOpt → NodeOpt → SourceLocation → ℕ → AstNode
ast_new_for var type iterable body loc id = node id loc (for_stmt var type iterable body)

abbrev pub ast_new_defer : NodeOpt → SourceLocation → ℕ → AstNode
ast_new_defer expr loc id = node id loc (defer_stmt expr)

abbrev pub ast_new_errdefer : NodeOpt → SourceLocation → ℕ → AstNode
ast_new_errdefer body loc id = node id loc (errdefer_stmt body)

abbrev pub ast_new_break : SourceLocation → ℕ → AstNode
ast_new_break loc id = node id loc break_stmt

abbrev pub ast_new_continue : SourceLocation → ℕ → AstNode
ast_new_continue loc id = node id loc continue_stmt

abbrev pub ast_new_match : NodeOpt → SourceLocation → ℕ → AstNode
ast_new_match expr loc id = node id loc (match_stmt expr nil)

abbrev pub ast_new_match_arm : Pattern → NodeOpt → SourceLocation → ℕ → AstNode
ast_new_match_arm pat expr loc id = node id loc (match_arm pat expr)

abbrev pub ast_new_assign : TokenKind → AstNode → NodeOpt → SourceLocation → ℕ → AstNode
ast_new_assign op lhs rhs loc id = node id loc (assign_stmt op lhs rhs)

abbrev pub ast_block_add_stmt : AstNode → AstNode → AstNode
ast_block_add_stmt (node id loc (block stmts trailing)) stmt =
    node id loc (block (ast_node_list_push stmts stmt) trailing)
ast_block_add_stmt n stmt = n

abbrev pub ast_block_set_trailing : AstNode → AstNode → AstNode
ast_block_set_trailing (node id loc (block stmts trailing)) expr =
    node id loc (block stmts (at expr))
ast_block_set_trailing n expr = n

abbrev pub ast_match_add_arm : AstNode → AstNode → AstNode
ast_match_add_arm (node id loc (match_stmt expr arms)) arm =
    node id loc (match_stmt expr (ast_node_list_push arms arm))
ast_match_add_arm n arm = n
