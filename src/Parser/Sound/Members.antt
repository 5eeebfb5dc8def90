-- ===== src/Parser/Sound/Members.antt =====
-- Attributes and parameters are sound.
use rayac.Base.{ℕ, Bool, true, false}
use rayac.Ast.Syntax.{AstNode, NodeList, AttributeList}
use rayac.Parser.Calls.{Calls}
use rayac.Parser.Sound.{Sound}
use rayac.Parser.Sound.Calls.{SoundCalls, call_rules}
use rayac.Parser.Members.{
  attribute_arg, attribute_args, parser_parse_attribute, attribute_round, parser_parse_attrs,
  default_value, const_behind, self_param, named_param, parser_parse_param, trait_name,
  generic_param, generic_list, parser_parse_generic_params,
}

module _ (fuel : ℕ) (self : Calls) (h : SoundCalls self) where
  pub Sound-attribute_arg : (x : NodeList) → Sound (attribute_arg fuel self x)
  unfolding attribute_arg
  Sound-attribute_arg x = search call_rules

  pub Sound-attribute_args : Sound (attribute_args fuel self)
  unfolding attribute_args
  Sound-attribute_args = search (call_rules, Sound-attribute_arg)

  pub Sound-attribute : (x : AttributeList) → Sound (parser_parse_attribute fuel self x)
  unfolding parser_parse_attribute
  Sound-attribute x = search (call_rules, Sound-attribute_args) depth 16 fits 4000

  pub Sound-attribute_round : (x : AttributeList) → Sound (attribute_round fuel self x)
  unfolding attribute_round
  Sound-attribute_round x = search (call_rules, Sound-attribute)

  pub Sound-attrs : Sound (parser_parse_attrs fuel self)
  unfolding parser_parse_attrs
  Sound-attrs = search (call_rules, Sound-attribute_round)

  pub Sound-default_value : Sound (default_value fuel self)
  unfolding default_value
  Sound-default_value = search call_rules

  pub Sound-const_behind : (x : Bool) → Sound (const_behind fuel self x)
  unfolding const_behind
  Sound-const_behind false = search call_rules
  Sound-const_behind true = search call_rules

  pub Sound-self_param : Sound (self_param fuel self)
  unfolding self_param
  Sound-self_param = search (call_rules, Sound-default_value, Sound-const_behind) depth 16 fits 4000

  pub Sound-named_param : Sound (named_param fuel self)
  unfolding named_param
  Sound-named_param = search (call_rules, Sound-default_value) depth 16 fits 4000

  pub Sound-param : Sound (parser_parse_param fuel self)
  unfolding parser_parse_param
  Sound-param = search (call_rules, Sound-self_param, Sound-named_param)

  pub Sound-trait_name : (x : AstNode) → Sound (trait_name fuel self x)
  unfolding trait_name
  Sound-trait_name x = search call_rules

  pub Sound-generic_param : (x : NodeList) → Sound (generic_param fuel self x)
  unfolding generic_param
  Sound-generic_param x = search (call_rules, Sound-trait_name) depth 16 fits 4000

  pub Sound-generic_list : Sound (generic_list fuel self)
  unfolding generic_list
  Sound-generic_list = search (call_rules, Sound-generic_param)

  pub Sound-generic_params : Sound (parser_parse_generic_params fuel self)
  unfolding parser_parse_generic_params
  Sound-generic_params = search (call_rules, Sound-generic_list) depth 16 fits 4000
