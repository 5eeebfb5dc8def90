-- ===== src/Parser/Sound/Pratt.antt =====
-- Operators are sound.
use rayac.Base.{ℕ, Bool, true, false, Option, none, some}
use rayac.Ast.Syntax.{AstNode, NodeOpt, null, at}
use rayac.Lexer.Token.{
  Token, TokenKind, tok_ampersand, tok_star, tok_minus, tok_bang, tok_tilde, tok_try, tok_unsafe,
}
use rayac.Parser.Exprs.{InfixEnd, broke, gave_up}
use rayac.Parser.Calls.{Calls}
use rayac.Parser.Sound.{Sound}
use rayac.Parser.Sound.Calls.{SoundCalls, call_rules}
use rayac.Parser.Pratt.{
  prefix_operator, capture_of, try_operator, prefix_of, parser_parse_prefix, argument, arguments,
  member, subscript, bracket_round, call_round, postfix_round, parser_parse_postfix, infix_right,
  infix_with, infix_round, cast_after, operators_after, parser_parse_expr_bp,
}
use rayac.Parser.Sound.Exprs.{Sound-primary}

module _ (fuel : ℕ) (self : Calls) (h : SoundCalls self) where
  pub Sound-prefix_operator :
      (x0 : Token) (x1 : TokenKind) → Sound (prefix_operator fuel self x0 x1)
  unfolding prefix_operator
  Sound-prefix_operator x0 x1 = search call_rules

  pub Sound-capture_of :
      (x0 : Token) (x1 : AstNode) (x2 : Bool) → Sound (capture_of fuel self x0 x1 x2)
  unfolding capture_of
  Sound-capture_of t tried false = search call_rules
  Sound-capture_of t tried true = search call_rules

  pub Sound-try_operator : (x : Token) → Sound (try_operator fuel self x)
  unfolding try_operator
  Sound-try_operator x = search (call_rules, Sound-capture_of)

  pub Sound-prefix_of : (x0 : Token) (x1 : TokenKind) → Sound (prefix_of fuel self x0 x1)
  unfolding prefix_of
  Sound-prefix_of t tok_ampersand = search (call_rules, Sound-prefix_operator)
  Sound-prefix_of t tok_star = search (call_rules, Sound-prefix_operator)
  Sound-prefix_of t tok_minus = search (call_rules, Sound-prefix_operator)
  Sound-prefix_of t tok_bang = search (call_rules, Sound-prefix_operator)
  Sound-prefix_of t tok_tilde = search (call_rules, Sound-prefix_operator)
  Sound-prefix_of t tok_try = search (call_rules, Sound-try_operator)
  Sound-prefix_of t tok_unsafe = search call_rules
  Sound-prefix_of t _ = search (call_rules, Sound-primary)

  pub Sound-prefix : Sound (parser_parse_prefix fuel self)
  unfolding parser_parse_prefix
  Sound-prefix = search (call_rules, Sound-prefix_of)

  pub Sound-argument : (x : AstNode) → Sound (argument fuel self x)
  unfolding argument
  Sound-argument x = search call_rules

  pub Sound-arguments : (x : AstNode) → Sound (arguments fuel self x)
  unfolding arguments
  Sound-arguments x = search (call_rules, Sound-argument)

  pub Sound-member : (x : AstNode) → Sound (member fuel self x)
  unfolding member
  Sound-member x = search (call_rules, Sound-arguments) depth 16 fits 4000

  pub Sound-subscript : (x : AstNode) → Sound (subscript fuel self x)
  unfolding subscript
  Sound-subscript x = search call_rules depth 16 fits 4000

  pub Sound-bracket_round : (x : AstNode) → Sound (bracket_round fuel self x)
  unfolding bracket_round
  Sound-bracket_round x = search (call_rules, Sound-subscript)

  pub Sound-call_round : (x : AstNode) → Sound (call_round fuel self x)
  unfolding call_round
  Sound-call_round x = search (call_rules, Sound-arguments, Sound-bracket_round)

  pub Sound-postfix_round : (x : AstNode) → Sound (postfix_round fuel self x)
  unfolding postfix_round
  Sound-postfix_round x = search (call_rules, Sound-member, Sound-call_round)

  pub Sound-postfix : (x : AstNode) → Sound (parser_parse_postfix fuel self x)
  unfolding parser_parse_postfix
  Sound-postfix x = search (call_rules, Sound-postfix_round)

  pub Sound-infix_right :
      (x0 : TokenKind) (x1 : AstNode) (x2 : NodeOpt) → Sound (infix_right fuel self x0 x1 x2)
  unfolding infix_right
  Sound-infix_right op left null = search call_rules
  Sound-infix_right op left (at right) = search call_rules

  pub Sound-infix_with :
      (x0 : ℕ) (x1 : TokenKind) (x2 : AstNode) (x3 : Option (ℕ × ℕ))
      → Sound (infix_with fuel self x0 x1 x2 x3)
  unfolding infix_with
  Sound-infix_with min_bp op left none = search call_rules
  Sound-infix_with min_bp op left (some (l, r)) = search (call_rules, Sound-infix_right)

  pub Sound-infix_round : (x0 : ℕ) (x1 : AstNode) → Sound (infix_round fuel self x0 x1)
  unfolding infix_round
  Sound-infix_round x0 x1 = search (call_rules, Sound-infix_with)

  pub Sound-cast_after : (x : InfixEnd) → Sound (cast_after fuel self x)
  unfolding cast_after
  Sound-cast_after (gave_up left) = search call_rules
  Sound-cast_after (broke left) = search call_rules

  pub Sound-operators_after : (x0 : ℕ) (x1 : NodeOpt) → Sound (operators_after fuel self x0 x1)
  unfolding operators_after
  Sound-operators_after min_bp null = search call_rules
  Sound-operators_after min_bp (at left) =
      search (call_rules, Sound-postfix, Sound-infix_round, Sound-cast_after)

  pub Sound-pratt : (x : ℕ) → Sound (parser_parse_expr_bp fuel self x)
  unfolding parser_parse_expr_bp
  Sound-pratt x = search (call_rules, Sound-prefix, Sound-operators_after)
