-- ===== src/Parser/Sound/Exprs.antt =====
-- Literals, names and parentheses are sound.
use rayac.Base.{ℕ, ◌<◌, Bytes, length, get_elem?, ltb, ltb→lt, false, Bool-cases, inl, inr, arith}
use rayac.Ast.Syntax.{AstNode, TypeExpr}
use rayac.Lexer.Token.{
  Token, TokenKind, tok_int_literal, tok_float_literal, tok_string_literal, tok_char_literal,
  tok_true, tok_false, tok_null, tok_undefined, tok_self, tok_identifier, tok_lparen, tok_lbracket,
}
use rayac.Parser.Calls.{Calls}
use rayac.Parser.Sound.{Sound, Sound-pure, Sound-bind, Sound-with_current, get_elem?-some}
use rayac.Parser.Sound.Calls.{SoundCalls, call_rules}
use rayac.Parser.Exprs.{
  field_init_round, parser_parse_struct_literal, name_or_literal, parenthesised, array_type,
  element_round, parse_array_literal, primary_of, parser_parse_primary, starts_with_capital,
}
use rayac.Parser.State.{read}
use rayac.StringView.View.{StringView, IsReadable}

module _ (fuel : ℕ) (self : Calls) (h : SoundCalls self) where
  pub Sound-field_init_round : (x : AstNode) → Sound (field_init_round fuel self x)
  unfolding field_init_round
  Sound-field_init_round x = search call_rules depth 16 fits 4000

  pub Sound-struct_literal : (x : TypeExpr) → Sound (parser_parse_struct_literal fuel self x)
  unfolding parser_parse_struct_literal
  Sound-struct_literal x = search (call_rules, Sound-field_init_round) depth 16 fits 4000

  first_byte : (xs : Bytes) → 0 < length xs → Sound (read (get_elem? xs 0))
  unfolding read rayac.Parser.State.pure
  first_byte xs r = let (c, e) = get_elem?-some xs 0 r in rw e (Sound-pure c)

  Sound-starts_with_capital : (sv : StringView) → IsReadable sv → Sound (starts_with_capital sv)
  unfolding starts_with_capital
  Sound-starts_with_capital sv r = elim (Bool-cases (ltb 0 sv.len)) [
    | inr h ↦ rw h (Sound-pure false)
    | inl h ↦ rw h (
        Sound-bind _ _ (first_byte sv.data_ (omega (arith, r, ltb→lt 0 sv.len h)))
          (λ c. Sound-pure _))
  ]

  pub Sound-name_or_literal : (x : Token) → IsReadable x.text → Sound (name_or_literal fuel self x)
  unfolding name_or_literal
  Sound-name_or_literal x r =
      search (call_rules, Sound-struct_literal, Sound-starts_with_capital, r)

  pub Sound-parenthesised : Sound (parenthesised fuel self)
  unfolding parenthesised
  Sound-parenthesised = search call_rules

  pub Sound-array_type : (x : AstNode) → Sound (array_type fuel self x)
  unfolding array_type
  Sound-array_type x = search call_rules depth 16 fits 4000

  pub Sound-element_round : (x : AstNode) → Sound (element_round fuel self x)
  unfolding element_round
  Sound-element_round x = search call_rules

  pub Sound-array_literal : (x : Token) → Sound (parse_array_literal fuel self x)
  unfolding parse_array_literal
  Sound-array_literal x =
      search (call_rules, Sound-array_type, Sound-element_round) depth 16 fits 4000

  pub Sound-primary_of :
      (x0 : Token) (x1 : TokenKind) → IsReadable x0.text → Sound (primary_of fuel self x0 x1)
  unfolding primary_of
  Sound-primary_of t tok_int_literal r = search call_rules
  Sound-primary_of t tok_float_literal r = search call_rules
  Sound-primary_of t tok_string_literal r = search call_rules
  Sound-primary_of t tok_char_literal r = search call_rules
  Sound-primary_of t tok_true r = search call_rules
  Sound-primary_of t tok_false r = search call_rules
  Sound-primary_of t tok_null r = search call_rules
  Sound-primary_of t tok_undefined r = search call_rules
  Sound-primary_of t tok_self r = search call_rules
  Sound-primary_of t tok_identifier r = search (call_rules, Sound-name_or_literal, r)
  Sound-primary_of t tok_lparen r = search (call_rules, Sound-parenthesised)
  Sound-primary_of t tok_lbracket r = search (call_rules, Sound-array_literal)
  Sound-primary_of t _ r = search call_rules

  pub Sound-primary : Sound (parser_parse_primary fuel self)
  unfolding parser_parse_primary
  Sound-primary = Sound-with_current _ (λ t r. Sound-primary_of t t.kind r)
