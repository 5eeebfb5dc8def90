-- ===== src/Parser/Sound/Decls.antt =====
-- Declarations are sound.
use rayac.Base.{ℕ, Bool}
use rayac.Ast.Syntax.{AstNode, AttributeList}
use rayac.Parser.Calls.{Calls}
use rayac.Parser.Sound.{Sound}
use rayac.Parser.Sound.Calls.{SoundCalls, call_rules}
use rayac.Parser.Decls.{
  params, return_type, fn_body, fn_rest, parser_parse_fn_decl, field_round, fields_of,
  parser_parse_struct_decl, parser_parse_union_decl, payload, variant_round, parser_parse_enum_decl,
  skip_token, trait_method, trait_round, parser_parse_traits_decl, extend_round, extend_trait,
  parser_parse_extend_decl, parser_parse_type_alias, parser_parse_test_decl,
}
use rayac.Parser.Sound.Members.{Sound-attrs, Sound-generic_params, Sound-param, Sound-default_value}

module _ (fuel : ℕ) (self : Calls) (h : SoundCalls self) where
  pub Sound-params :
      (x0 : (AstNode → AstNode → AstNode)) (x1 : AstNode) → Sound (params fuel self x0 x1)
  unfolding params
  Sound-params x0 x1 = search (call_rules, Sound-param)

  pub Sound-return_type : Sound (return_type fuel self)
  unfolding return_type
  Sound-return_type = search call_rules

  pub Sound-fn_body : Sound (fn_body fuel self)
  unfolding fn_body
  Sound-fn_body = search call_rules

  pub Sound-fn_rest :
      (x0 : Bool) (x1 : Bool) (x2 : Bool) (x3 : AttributeList)
      → Sound (fn_rest fuel self x0 x1 x2 x3)
  unfolding fn_rest
  Sound-fn_rest x0 x1 x2 x3 =
      search (call_rules, Sound-generic_params, Sound-params, Sound-return_type, Sound-fn_body)
        depth 16 fits 4000

  pub Sound-fn_decl :
      (x0 : Bool) (x1 : AttributeList) → Sound (parser_parse_fn_decl fuel self x0 x1)
  unfolding parser_parse_fn_decl
  Sound-fn_decl x0 x1 = search (call_rules, Sound-fn_rest)

  pub Sound-field_round : (x : AstNode) → Sound (field_round fuel self x)
  unfolding field_round
  Sound-field_round x = search (call_rules, Sound-attrs, Sound-default_value) depth 16 fits 4000

  pub Sound-fields_of :
      (x0 : Bool) (x1 : AttributeList) (x2 : AstNode) → Sound (fields_of fuel self x0 x1 x2)
  unfolding fields_of
  Sound-fields_of x0 x1 x2 =
      search (call_rules, Sound-generic_params, Sound-field_round) depth 16 fits 4000

  pub Sound-struct_decl :
      (x0 : Bool) (x1 : AttributeList) → Sound (parser_parse_struct_decl fuel self x0 x1)
  unfolding parser_parse_struct_decl
  Sound-struct_decl x0 x1 = search (call_rules, Sound-fields_of) depth 16 fits 4000

  pub Sound-union_decl :
      (x0 : Bool) (x1 : AttributeList) → Sound (parser_parse_union_decl fuel self x0 x1)
  unfolding parser_parse_union_decl
  Sound-union_decl x0 x1 = search (call_rules, Sound-fields_of)

  pub Sound-payload : Sound (payload fuel self)
  unfolding payload
  Sound-payload = search call_rules

  pub Sound-variant_round : (x : AstNode) → Sound (variant_round fuel self x)
  unfolding variant_round
  Sound-variant_round x = search (call_rules, Sound-default_value, Sound-payload) depth 16 fits 4000

  pub Sound-enum_decl :
      (x0 : Bool) (x1 : AttributeList) → Sound (parser_parse_enum_decl fuel self x0 x1)
  unfolding parser_parse_enum_decl
  Sound-enum_decl x0 x1 = search (call_rules, Sound-variant_round) depth 16 fits 4000

  pub Sound-skip_token : (x : AstNode) → Sound (skip_token fuel self x)
  unfolding skip_token
  Sound-skip_token x = search call_rules

  pub Sound-trait_method : (x0 : Bool) (x1 : AstNode) → Sound (trait_method fuel self x0 x1)
  unfolding trait_method
  Sound-trait_method x0 x1 = search (call_rules, Sound-params, Sound-return_type) depth 16 fits 4000

  pub Sound-trait_round : (x : AstNode) → Sound (trait_round fuel self x)
  unfolding trait_round
  Sound-trait_round x = search (call_rules, Sound-skip_token, Sound-trait_method)

  pub Sound-traits_decl :
      (x0 : Bool) (x1 : AttributeList) → Sound (parser_parse_traits_decl fuel self x0 x1)
  unfolding parser_parse_traits_decl
  Sound-traits_decl x0 x1 = search (call_rules, Sound-trait_round) depth 16 fits 4000

  pub Sound-extend_round : (x : AstNode) → Sound (extend_round fuel self x)
  unfolding extend_round
  Sound-extend_round x =
      search (call_rules, Sound-attrs, Sound-fn_rest, Sound-skip_token) depth 16 fits 4000

  pub Sound-extend_trait : (x : AstNode) → Sound (extend_trait fuel self x)
  unfolding extend_trait
  Sound-extend_trait x = search call_rules

  pub Sound-extend_decl :
      (x0 : Bool) (x1 : AttributeList) → Sound (parser_parse_extend_decl fuel self x0 x1)
  unfolding parser_parse_extend_decl
  Sound-extend_decl x0 x1 =
      search (call_rules, Sound-generic_params, Sound-extend_round, Sound-extend_trait) depth 16
        fits 4000

  pub Sound-type_alias :
      (x0 : Bool) (x1 : AttributeList) → Sound (parser_parse_type_alias fuel self x0 x1)
  unfolding parser_parse_type_alias
  Sound-type_alias x0 x1 = search call_rules depth 16 fits 4000

  pub Sound-test_decl : (x : AttributeList) → Sound (parser_parse_test_decl fuel self x)
  unfolding parser_parse_test_decl
  Sound-test_decl x = search call_rules depth 16 fits 4000
