-- ===== src/Parser/Pratt.antt =====
-- Prefix, postfix and infix operators, lines 288 to 439 of src/parser.c.
use rayac.Base.{ℕ, Bool, true, false, Option, none, some, ◌⊎◌, inl, inr, ltb, if◌then◌else◌}
use rayac.Ast.Exprs.{
  ast_new_binary, ast_new_unary, ast_new_call, ast_new_method_call, ast_new_field_access,
  ast_new_index, ast_new_slice, ast_new_cast, ast_new_try, ast_new_error_capture,
  ast_new_unsafe_block, ast_call_add_arg,
}
use rayac.Ast.Syntax.{AstNode, NodeOpt, null, at, loc_of}
use rayac.Lexer.Token.{
  Token, TokenKind, tok_pipe, tok_ampersand, tok_minus, tok_star, tok_dot_dot, tok_identifier,
  tok_lparen, tok_rparen, tok_lbracket, tok_rbracket, tok_const, tok_bang, tok_tilde, tok_try,
  tok_else, tok_unsafe, tok_dot, tok_as,
}
use rayac.Parser.Calls.{Calls, parser_parse_expr, name_token, make, add_some, items_before}
use rayac.Parser.Exprs.{infix_binding_power, InfixEnd, broke, gave_up, parser_parse_primary}
use rayac.Parser.State.{
  P, ◌>>=◌, ◌>>◌, pure, loop, new, step, parser_current, parser_expect, parser_match,
}

module _ (fuel : ℕ) (self : Calls) where
  unfoldable pub prefix_operator : Token → TokenKind → P NodeOpt
  prefix_operator t op = do operand ← self.parse_expr_bp 110; make (ast_new_unary op operand t.loc)

  unfoldable pub capture_of : Token → AstNode → Bool → P NodeOpt
  capture_of t tried false = pure (at tried)
  capture_of t tried true = do
    parser_expect tok_pipe "expected '|' after 'else' in try capture"
    err_name ← name_token "expected error variable name"
    parser_expect tok_pipe "expected '|' after error variable name"
    fallback ← self.parse_block
    make (ast_new_error_capture tried err_name.text fallback t.loc)

  unfoldable pub try_operator : Token → P NodeOpt
  try_operator t = do
    operand ← self.parse_expr_bp 1
    tried ← new (ast_new_try operand t.loc)
    captured ← parser_match tok_else
    capture_of t tried captured

  unfoldable pub prefix_of : Token → TokenKind → P NodeOpt
  prefix_of t tok_ampersand = do step; parser_match tok_const; prefix_operator t tok_ampersand
  prefix_of t tok_star = do step; prefix_operator t tok_star
  prefix_of t tok_minus = do step; prefix_operator t tok_minus
  prefix_of t tok_bang = do step; prefix_operator t tok_bang
  prefix_of t tok_tilde = do step; prefix_operator t tok_tilde
  prefix_of t tok_try = do step; try_operator t
  prefix_of t tok_unsafe = do step; body ← self.parse_block; make (ast_new_unsafe_block body t.loc)
  prefix_of t _ = parser_parse_primary fuel self

  unfoldable pub parser_parse_prefix : P NodeOpt
  parser_parse_prefix = do t ← parser_current; prefix_of t t.kind

  unfoldable pub argument : AstNode → P AstNode
  argument call = do arg ← parser_parse_expr self; pure (add_some ast_call_add_arg call arg)

  -- The arguments behind the opening parenthesis.
  unfoldable pub arguments : AstNode → P (AstNode ⊎ AstNode)
  arguments call = do
    filled ← items_before fuel tok_rparen argument call
    parser_expect tok_rparen "expected ')' after arguments"
    pure (inl filled)

  unfoldable pub member : AstNode → P (AstNode ⊎ AstNode)
  member left = do
    name ← parser_current
    named ← parser_expect tok_identifier "expected identifier after '.'"
    if named
        then (do
          is_call ← parser_match tok_lparen
          if is_call
              then (do
                call ← new (ast_new_method_call (at left) name.text name.loc)
                arguments call)
              else (do
                access ← new (ast_new_field_access (at left) name.text name.loc)
                pure (inl access)))
        else pure (inr left)

  unfoldable pub subscript : AstNode → P (AstNode ⊎ AstNode)
  subscript left = do
    first ← parser_parse_expr self
    is_slice ← parser_match tok_dot_dot
    if is_slice
        then (do
          stop ← parser_parse_expr self
          parser_expect tok_rbracket "expected ']' after slice"
          n ← new (ast_new_slice (at left) first stop (loc_of left))
          pure (inl n))
        else (do
          parser_expect tok_rbracket "expected ']' after index"
          n ← new (ast_new_index (at left) first (loc_of left))
          pure (inl n))

  unfoldable pub bracket_round : AstNode → P (AstNode ⊎ AstNode)
  bracket_round left = do
    bracket ← parser_match tok_lbracket
    if bracket then subscript left else pure (inr left)

  unfoldable pub call_round : AstNode → P (AstNode ⊎ AstNode)
  call_round left = do
    paren ← parser_match tok_lparen
    if paren
        then (do call ← new (ast_new_call (at left) (loc_of left)); arguments call)
        else bracket_round left

  unfoldable pub postfix_round : AstNode → P (AstNode ⊎ AstNode)
  postfix_round left = do dot ← parser_match tok_dot; if dot then member left else call_round left

  unfoldable pub parser_parse_postfix : AstNode → P AstNode
  parser_parse_postfix left = loop fuel postfix_round left

  unfoldable pub infix_right : TokenKind → AstNode → NodeOpt → P (AstNode ⊎ InfixEnd)
  infix_right op left null = pure (inr (gave_up left))
  infix_right op left (at right) = do
    n ← new (ast_new_binary op (at left) (at right) (loc_of left))
    pure (inl n)

  unfoldable pub infix_with : ℕ → TokenKind → AstNode → Option (ℕ × ℕ) → P (AstNode ⊎ InfixEnd)
  infix_with min_bp op left none = pure (inr (broke left))
  infix_with min_bp op left (some (l, r)) =
      if ltb l min_bp
      then pure (inr (broke left))
      else (do step; right ← self.parse_expr_bp r; infix_right op left right)

  unfoldable pub infix_round : ℕ → AstNode → P (AstNode ⊎ InfixEnd)
  infix_round min_bp left = do
    t ← parser_current
    infix_with min_bp t.kind left (infix_binding_power t.kind)

  unfoldable pub cast_after : InfixEnd → P NodeOpt
  cast_after (gave_up left) = pure (at left)
  cast_after (broke left) = do
    is_cast ← parser_match tok_as
    if is_cast
        then (do type ← self.parse_type; make (ast_new_cast (at left) type (loc_of left)))
        else pure (at left)

  unfoldable pub operators_after : ℕ → NodeOpt → P NodeOpt
  operators_after min_bp null = pure null
  operators_after min_bp (at left) = do
    operand ← parser_parse_postfix left
    stopped ← loop fuel (infix_round min_bp) operand
    cast_after stopped

  unfoldable pub parser_parse_expr_bp : ℕ → P NodeOpt
  parser_parse_expr_bp min_bp = do left ← parser_parse_prefix; operators_after min_bp left
