-- ===== src/Sema/Diverge.antt =====
-- The divergence analysis: whether control never reaches the end of a block. The type of a call is
-- the one that the analysis wrote into its node.
use rayac.Base.{ℕ, Bool, true, false, ◌&&◌, ◌||◌, none, some}
use rayac.Ast.Syntax.{
  AstNode, node, NodeList, nil, cons, NodeOpt, null, at, AstKind, block, expr_stmt, return_stmt,
  if_stmt, break_stmt, continue_stmt, match_stmt, match_arm, call_expr, unsafe_block_expr,
}
use rayac.Types.Shape.{SType, noreturn}
use rayac.Types.Table.{shape_at}
use rayac.Sema.State.{Sema, latest}

abbrev pub is_noreturn : SType → Bool
is_noreturn noreturn = true
is_noreturn _ = false

-- `ct && ct->kind == ST_NORETURN`
unfoldable pub call_diverges : Sema → ℕ → Bool
call_diverges s id = elim (latest id s.node_types) [
  | none ↦ false
  | some r ↦ is_noreturn (shape_at s.types r)
]

unfoldable mutual
  pub block_diverges : Sema → AstNode → Bool
  block_diverges s (node id loc k) = block_kind_diverges s k

  pub stmt_diverges : Sema → AstNode → Bool
  stmt_diverges s (node id loc k) = stmt_kind_diverges s id k

  pub expr_diverges : Sema → AstNode → Bool
  expr_diverges s (node id loc k) = expr_kind_diverges s id k

  pub block_kind_diverges : Sema → AstKind → Bool
  block_kind_diverges s (block stmts trailing) =
      some_diverges s stmts || expr_opt_diverges s trailing
  block_kind_diverges s _ = false

  pub stmt_kind_diverges : Sema → ℕ → AstKind → Bool
  stmt_kind_diverges s id (return_stmt _) = true
  stmt_kind_diverges s id break_stmt = true
  stmt_kind_diverges s id continue_stmt = true
  stmt_kind_diverges s id (if_stmt c then_block else_block) =
      block_opt_diverges s then_block && block_opt_diverges s else_block
  stmt_kind_diverges s id (match_stmt e nil) = false
  stmt_kind_diverges s id (match_stmt e (cons arm arms)) =
      arm_diverges s arm && all_arms_diverge s arms
  stmt_kind_diverges s id (block stmts trailing) =
      some_diverges s stmts || expr_opt_diverges s trailing
  stmt_kind_diverges s id (expr_stmt e) = expr_opt_diverges s e
  stmt_kind_diverges s id _ = false

  pub expr_kind_diverges : Sema → ℕ → AstKind → Bool
  expr_kind_diverges s id (block stmts trailing) =
      some_diverges s stmts || expr_opt_diverges s trailing
  expr_kind_diverges s id (unsafe_block_expr body) = block_opt_diverges s body
  expr_kind_diverges s id (call_expr _ _) = call_diverges s id
  expr_kind_diverges s id _ = false

  pub some_diverges : Sema → NodeList → Bool
  some_diverges s nil = false
  some_diverges s (cons x xs) = stmt_diverges s x || some_diverges s xs

  pub expr_opt_diverges : Sema → NodeOpt → Bool
  expr_opt_diverges s null = false
  expr_opt_diverges s (at e) = expr_diverges s e

  pub block_opt_diverges : Sema → NodeOpt → Bool
  block_opt_diverges s null = false
  block_opt_diverges s (at b) = block_diverges s b

  pub all_arms_diverge : Sema → NodeList → Bool
  all_arms_diverge s nil = true
  all_arms_diverge s (cons arm arms) = arm_diverges s arm && all_arms_diverge s arms

  -- `items[i]->match_arm.expr`
  pub arm_diverges : Sema → AstNode → Bool
  arm_diverges s (node id loc k) = arm_kind_diverges s k

  pub arm_kind_diverges : Sema → AstKind → Bool
  arm_kind_diverges s (match_arm pattern e) = expr_opt_diverges s e
  arm_kind_diverges s _ = false
