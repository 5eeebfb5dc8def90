-- ===== src/Parser/Sound/TypeExprs.antt =====
-- Patterns and type expressions are sound.
use rayac.Base.{ℕ, Bool}
use rayac.Ast.Syntax.{TypeExpr, TypeOpt, no_type, of_type, Pattern}
use rayac.Diag.Engine.{SourceLocation}
use rayac.Lexer.Token.{Token}
use rayac.Parser.Calls.{Calls}
use rayac.Parser.Sound.{Sound}
use rayac.Parser.Sound.Calls.{SoundCalls, call_rules}
use rayac.Parser.TypeExprs.{
  field_pattern_round, struct_pattern, variant_pattern, dot_pattern, name_pattern, pattern_of,
  parser_parse_pattern, unary_type, bracket_type, func_param, func_type, generic_arg_round,
  generic_type, named_type, keyword_type, compound_type, primary_type, type_suffix,
  parser_parse_type,
}
use rayac.Parser.Sound.Exprs.{Sound-primary}

module _ (fuel : ℕ) (self : Calls) (h : SoundCalls self) where
  pub Sound-field_pattern_round : (x : Pattern) → Sound (field_pattern_round fuel self x)
  unfolding field_pattern_round
  Sound-field_pattern_round x = search call_rules

  pub Sound-struct_pattern : (x : SourceLocation) → Sound (struct_pattern fuel self x)
  unfolding struct_pattern
  Sound-struct_pattern x = search (call_rules, Sound-field_pattern_round)

  pub Sound-variant_pattern : (x : SourceLocation) → Sound (variant_pattern fuel self x)
  unfolding variant_pattern
  Sound-variant_pattern x = search call_rules depth 16 fits 4000

  pub Sound-dot_pattern : (x : SourceLocation) → Sound (dot_pattern fuel self x)
  unfolding dot_pattern
  Sound-dot_pattern x = search (call_rules, Sound-struct_pattern, Sound-variant_pattern)

  pub Sound-name_pattern : (x : Token) → Sound (name_pattern fuel self x)
  unfolding name_pattern
  Sound-name_pattern x = search call_rules

  pub Sound-pattern_of : (x : Token) → Sound (pattern_of fuel self x)
  unfolding pattern_of
  Sound-pattern_of x = search (call_rules, Sound-primary, Sound-dot_pattern, Sound-name_pattern)

  pub Sound-parse_pattern : Sound (parser_parse_pattern fuel self)
  unfolding parser_parse_pattern
  Sound-parse_pattern = search (call_rules, Sound-pattern_of)

  pub Sound-unary_type :
      (x0 : (TypeOpt → Bool → SourceLocation → TypeExpr)) (x1 : SourceLocation)
      → Sound (unary_type fuel self x0 x1)
  unfolding unary_type
  Sound-unary_type x0 x1 = search call_rules

  pub Sound-bracket_type : (x : SourceLocation) → Sound (bracket_type fuel self x)
  unfolding bracket_type
  Sound-bracket_type x = search (call_rules, Sound-unary_type) depth 16 fits 4000

  pub Sound-func_param : (x : TypeExpr) → Sound (func_param fuel self x)
  unfolding func_param
  Sound-func_param x = search call_rules

  pub Sound-func_type : (x : SourceLocation) → Sound (func_type fuel self x)
  unfolding func_type
  Sound-func_type x = search (call_rules, Sound-func_param) depth 16 fits 4000

  pub Sound-generic_arg_round : (x : TypeExpr) → Sound (generic_arg_round fuel self x)
  unfolding generic_arg_round
  Sound-generic_arg_round x = search call_rules

  pub Sound-generic_type : (x : Token) → Sound (generic_type fuel self x)
  unfolding generic_type
  Sound-generic_type x = search (call_rules, Sound-generic_arg_round) depth 16 fits 4000

  pub Sound-named_type : (x : Token) → Sound (named_type fuel self x)
  unfolding named_type
  Sound-named_type x = search (call_rules, Sound-generic_type)

  pub Sound-keyword_type : (x : Token) → Sound (keyword_type fuel self x)
  unfolding keyword_type
  Sound-keyword_type x = search (call_rules, Sound-named_type)

  pub Sound-compound_type : (x : Token) → Sound (compound_type fuel self x)
  unfolding compound_type
  Sound-compound_type x =
      search (call_rules, Sound-bracket_type, Sound-func_type, Sound-keyword_type)

  pub Sound-primary_type : (x : Token) → Sound (primary_type fuel self x)
  unfolding primary_type
  Sound-primary_type x = search (call_rules, Sound-unary_type, Sound-compound_type)

  pub Sound-type_suffix : (x0 : SourceLocation) (x1 : TypeOpt) → Sound (type_suffix fuel self x0 x1)
  unfolding type_suffix
  Sound-type_suffix loc no_type = search call_rules depth 16 fits 4000
  Sound-type_suffix loc (of_type primary) = search call_rules depth 16 fits 4000

  pub Sound-parse_type : Sound (parser_parse_type fuel self)
  unfolding parser_parse_type
  Sound-parse_type = search (call_rules, Sound-primary_type, Sound-type_suffix)
