-- ===== src/Parser/Sound/Stmts.antt =====
-- Blocks and statements are sound.
use rayac.Base.{ℕ, Bool, true, false}
use rayac.Ast.Syntax.{AstNode, NodeOpt, null, at}
use rayac.Diag.Engine.{SourceLocation}
use rayac.Lexer.Token.{
  TokenKind, tok_const, tok_var, tok_return, tok_if, tok_while, tok_for, tok_break, tok_continue,
  tok_defer, tok_errdefer, tok_match, tok_lbrace,
}
use rayac.Parser.Calls.{Calls}
use rayac.Parser.Sound.{Sound}
use rayac.Parser.Sound.Calls.{SoundCalls, call_rules}
use rayac.Parser.Stmts.{
  block_end, block_tail, block_after, block_item, block_from, parser_parse_block, optional_type,
  var_stmt, return_rest, else_part, if_rest, while_rest, for_rest, arm_round, match_rest, expr_rest,
  expr_stmt_from, stmt_of, parser_parse_stmt,
}

module _ (fuel : ℕ) (self : Calls) (h : SoundCalls self) where
  pub Sound-block_end : (x0 : AstNode) (x1 : AstNode) → Sound (block_end fuel self x0 x1)
  unfolding block_end
  Sound-block_end x0 x1 = search call_rules

  pub Sound-block_tail :
      (x0 : AstNode) (x1 : AstNode) (x2 : TokenKind) → Sound (block_tail fuel self x0 x1 x2)
  unfolding block_tail
  Sound-block_tail x0 x1 x2 = search (call_rules, Sound-block_end) depth 16 fits 4000

  pub Sound-block_after : (x0 : AstNode) (x1 : NodeOpt) → Sound (block_after fuel self x0 x1)
  unfolding block_after
  Sound-block_after block null = search call_rules
  Sound-block_after block (at expr) = search (call_rules, Sound-block_tail)

  pub Sound-block_item : (x : AstNode) → Sound (block_item fuel self x)
  unfolding block_item
  Sound-block_item x = search (call_rules, Sound-block_after)

  pub Sound-block_from : (x0 : SourceLocation) (x1 : Bool) → Sound (block_from fuel self x0 x1)
  unfolding block_from
  Sound-block_from loc false = search call_rules
  Sound-block_from loc true = search (call_rules, Sound-block_item)

  pub Sound-parse_block : Sound (parser_parse_block fuel self)
  unfolding parser_parse_block
  Sound-parse_block = search (call_rules, Sound-block_from)

  pub Sound-optional_type : Sound (optional_type fuel self)
  unfolding optional_type
  Sound-optional_type = search call_rules

  pub Sound-var_stmt : (x : Bool) → Sound (var_stmt fuel self x)
  unfolding var_stmt
  Sound-var_stmt x = search (call_rules, Sound-optional_type) depth 16 fits 4000

  pub Sound-return_rest : (x : SourceLocation) → Sound (return_rest fuel self x)
  unfolding return_rest
  Sound-return_rest x = search call_rules depth 16 fits 4000

  pub Sound-else_part : Sound (else_part fuel self)
  unfolding else_part
  Sound-else_part = search call_rules

  pub Sound-if_rest : (x : SourceLocation) → Sound (if_rest fuel self x)
  unfolding if_rest
  Sound-if_rest x = search (call_rules, Sound-else_part)

  pub Sound-while_rest : (x : SourceLocation) → Sound (while_rest fuel self x)
  unfolding while_rest
  Sound-while_rest x = search call_rules

  pub Sound-for_rest : (x : SourceLocation) → Sound (for_rest fuel self x)
  unfolding for_rest
  Sound-for_rest x = search call_rules depth 16 fits 4000

  pub Sound-arm_round : (x : AstNode) → Sound (arm_round fuel self x)
  unfolding arm_round
  Sound-arm_round x = search call_rules depth 16 fits 4000

  pub Sound-match_rest : (x : SourceLocation) → Sound (match_rest fuel self x)
  unfolding match_rest
  Sound-match_rest x = search (call_rules, Sound-arm_round) depth 16 fits 4000

  pub Sound-expr_rest : (x0 : AstNode) (x1 : TokenKind) → Sound (expr_rest fuel self x0 x1)
  unfolding expr_rest
  Sound-expr_rest x0 x1 = search call_rules

  pub Sound-expr_stmt_from : (x : NodeOpt) → Sound (expr_stmt_from fuel self x)
  unfolding expr_stmt_from
  Sound-expr_stmt_from null = search call_rules
  Sound-expr_stmt_from (at lhs) = search (call_rules, Sound-expr_rest)

  pub Sound-stmt_of : (x0 : SourceLocation) (x1 : TokenKind) → Sound (stmt_of fuel self x0 x1)
  unfolding stmt_of
  Sound-stmt_of loc tok_const = search (call_rules, Sound-var_stmt)
  Sound-stmt_of loc tok_var = search (call_rules, Sound-var_stmt)
  Sound-stmt_of loc tok_return = search (call_rules, Sound-return_rest)
  Sound-stmt_of loc tok_if = search (call_rules, Sound-if_rest)
  Sound-stmt_of loc tok_while = search (call_rules, Sound-while_rest)
  Sound-stmt_of loc tok_for = search (call_rules, Sound-for_rest)
  Sound-stmt_of loc tok_break = search call_rules
  Sound-stmt_of loc tok_continue = search call_rules
  Sound-stmt_of loc tok_defer = search call_rules
  Sound-stmt_of loc tok_errdefer = search call_rules
  Sound-stmt_of loc tok_match = search (call_rules, Sound-match_rest)
  Sound-stmt_of loc tok_lbrace = search call_rules
  Sound-stmt_of loc _ = search (call_rules, Sound-expr_stmt_from)

  pub Sound-parse_stmt : Sound (parser_parse_stmt fuel self)
  unfolding parser_parse_stmt
  Sound-parse_stmt = search (call_rules, Sound-stmt_of)
