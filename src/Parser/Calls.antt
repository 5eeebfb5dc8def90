-- ===== src/Parser/Calls.antt =====
-- The parsing functions call each other in a circle: here they are the fields of a record, which the
-- others take as an argument, and loops that several of them share.
use rayac.Base.{ℕ, Bool, false, not, ◌⊎◌, inl, inr, String, if◌then◌else◌}
use rayac.Ast.Syntax.{AstNode, NodeOpt, null, at, TypeOpt, Pattern}
use rayac.Lexer.Token.{Token, TokenKind, tok_comma, tok_identifier}
use rayac.Parser.State.{
  P, ◌>>=◌, ◌>>◌, pure, loop, new, parser_check, parser_at_end, parser_current, parser_expect,
  parser_match,
}

pub record Calls : Type 0 where
  pub parse_expr_bp : ℕ → P NodeOpt
  pub parse_block : P NodeOpt
  pub parse_stmt : P NodeOpt
  pub parse_type : P TypeOpt
  pub parse_pattern : P Pattern

unfoldable pub parser_parse_expr : Calls → P NodeOpt
parser_parse_expr self = self.parse_expr_bp 0

-- The current token, which must be a name.
unfoldable pub name_token : String → P Token
name_token message = do t ← parser_current; parser_expect tok_identifier message; pure t

unfoldable pub make : (ℕ → AstNode) → P NodeOpt
make f = do n ← new f; pure (at n)

-- `if (a) add(n, a);`
abbrev pub add_some : (AstNode → AstNode → AstNode) → AstNode → NodeOpt → AstNode
add_some add n null = n
add_some add n (at a) = add n a

-- `while (!parser_check(p, close) && !parser_at_end(p))`
unfoldable pub is_open : TokenKind → P Bool
is_open close = do
  closed ← parser_check close
  if closed then pure false else (do ended ← parser_at_end; pure (not ended))

module _ {S : Type 0} where
  -- The end of a round: it goes on if the flag is set.
  abbrev pub again_if : Bool → S → S ⊎ S
  again_if b s = if b then inl s else inr s

  -- `do … while (parser_match(p, TOK_COMMA));`
  unfoldable pub comma_round : (S → P S) → S → P (S ⊎ S)
  comma_round body s = do s' ← body s; comma ← parser_match tok_comma; pure (again_if comma s')

  unfoldable pub comma_separated : ℕ → (S → P S) → S → P S
  comma_separated fuel body s = loop fuel (comma_round body) s

  -- `if (!parser_check(p, close)) do … while (parser_match(p, TOK_COMMA));`
  unfoldable pub items_before : ℕ → TokenKind → (S → P S) → S → P S
  items_before fuel close body s = do
    none_left ← parser_check close
    if none_left then pure s else comma_separated fuel body s

  unfoldable pub open_round : TokenKind → (S → P (S ⊎ S)) → S → P (S ⊎ S)
  open_round close body s = do more ← is_open close; if more then body s else pure (inr s)

  unfoldable pub while_open : ℕ → TokenKind → (S → P (S ⊎ S)) → S → P S
  while_open fuel close body s = loop fuel (open_round close body) s

  -- The loops whose first statement is `if (parser_check(p, close)) break;`.
  unfoldable pub unless_closed : TokenKind → (S → P (S ⊎ S)) → S → P (S ⊎ S)
  unless_closed close body s = do
    closed ← parser_check close
    if closed then pure (inr s) else body s
