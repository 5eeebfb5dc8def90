-- ===== src/Parser/Sound/Calls.antt =====
-- The shared loops are sound where what they repeat is, and expressions of calls that are.
use rayac.Base.{ℕ, String, ◌⊎◌}
use rayac.Ast.Syntax.{AstNode}
use rayac.Lexer.Token.{TokenKind}
use rayac.Parser.Calls.{
  Calls, parser_parse_expr, name_token, make, comma_round, comma_separated, items_before, is_open,
  open_round, while_open, unless_closed,
}
use rayac.Parser.Sound.{Sound, sound_rules}
use rayac.Parser.State.{P}

pub record SoundCalls (self : Calls) : Type 0 where
  pub expr_bp : (min_bp : ℕ) → Sound (self.parse_expr_bp min_bp)
  pub block : Sound self.parse_block
  pub stmt : Sound self.parse_stmt
  pub type : Sound self.parse_type
  pub pattern : Sound self.parse_pattern

pub Sound-expr : (self : Calls) → SoundCalls self → Sound (parser_parse_expr self)
unfolding parser_parse_expr
Sound-expr self h = h.expr_bp 0

pub Sound-expr_bp : (self : Calls) → SoundCalls self → (n : ℕ) → Sound (self.parse_expr_bp n)
Sound-expr_bp self h = h.expr_bp

pub Sound-block : (self : Calls) → SoundCalls self → Sound self.parse_block
Sound-block self h = h.block

pub Sound-stmt : (self : Calls) → SoundCalls self → Sound self.parse_stmt
Sound-stmt self h = h.stmt

pub Sound-type : (self : Calls) → SoundCalls self → Sound self.parse_type
Sound-type self h = h.type

pub Sound-pattern : (self : Calls) → SoundCalls self → Sound self.parse_pattern
Sound-pattern self h = h.pattern

pub Sound-name : (message : String) → Sound (name_token message)
unfolding name_token
Sound-name message = search sound_rules

pub Sound-make : (f : ℕ → AstNode) → Sound (make f)
unfolding make
Sound-make f = search sound_rules

Sound-open : (close : TokenKind) → Sound (is_open close)
unfolding is_open
Sound-open close = search sound_rules

module _ {S : Type 0} where
  Sound-comma_round :
      (body : S → P S) (s : S) → ((s' : S) → Sound (body s')) → Sound (comma_round body s)
  unfolding comma_round
  Sound-comma_round body s sb = search (sound_rules, sb)

  pub Sound-separated :
      (fuel : ℕ) (body : S → P S) (s : S)
      → ((s' : S) → Sound (body s'))
      → Sound (comma_separated fuel body s)
  unfolding comma_separated
  Sound-separated fuel body s sb = search (sound_rules, Sound-comma_round, sb)

  pub Sound-items :
      (fuel : ℕ) (close : TokenKind) (body : S → P S) (s : S)
      → ((s' : S) → Sound (body s'))
      → Sound (items_before fuel close body s)
  unfolding items_before
  Sound-items fuel close body s sb = search (sound_rules, Sound-separated, sb)

  Sound-open_round :
      (close : TokenKind) (body : S → P (S ⊎ S)) (s : S)
      → ((s' : S) → Sound (body s'))
      → Sound (open_round close body s)
  unfolding open_round
  Sound-open_round close body s sb = search (sound_rules, Sound-open, sb)

  pub Sound-while :
      (fuel : ℕ) (close : TokenKind) (body : S → P (S ⊎ S)) (s : S)
      → ((s' : S) → Sound (body s'))
      → Sound (while_open fuel close body s)
  unfolding while_open
  Sound-while fuel close body s sb = search (sound_rules, Sound-open_round, sb)

  pub Sound-unless :
      (close : TokenKind) (body : S → P (S ⊎ S)) (s : S)
      → ((s' : S) → Sound (body s'))
      → Sound (unless_closed close body s)
  unfolding unless_closed
  Sound-unless close body s sb = search (sound_rules, sb)

pub ruleset call_rules = (
  sound_rules, Sound-expr, Sound-expr_bp, Sound-block, Sound-stmt, Sound-type, Sound-pattern,
  Sound-name, Sound-make, Sound-separated, Sound-items, Sound-while, Sound-unless,
)
