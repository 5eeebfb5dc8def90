-- ===== src/Parser/Sound/Unit.antt =====
-- The whole parser is sound.
use rayac.Base.{ℕ, zero, suc, Bool}
use rayac.Ast.Syntax.{AstNode, AttributeList, NodeOpt, null, at}
use rayac.Lexer.Token.{
  TokenKind, tok_fn, tok_struct, tok_union, tok_enum, tok_traits, tok_extend, tok_type, tok_test,
  tok_const, tok_var,
}
use rayac.Parser.Calls.{Calls}
use rayac.Parser.Sound.{Sound}
use rayac.Parser.Sound.Calls.{SoundCalls, call_rules}
use rayac.Parser.State.{Parser}
use rayac.Parser.Sound.{IsValid, Ends, Sound-no_fuel}
use rayac.Parser.Sound.Pratt.{Sound-pratt}
use rayac.Parser.Sound.TypeExprs.{Sound-parse_type, Sound-parse_pattern}
use rayac.Parser.Sound.Stmts.{Sound-parse_block, Sound-parse_stmt}
use rayac.Parser.Unit.{
  calls, parser_parse, no_calls, top_var, top_level_of, parser_parse_top_level_decl, module_part,
  part_round, import_alias, import_round, add_or_skip, decl_round, parse_unit,
}
use rayac.Parser.Sound.Members.{Sound-attrs}
use rayac.Parser.Sound.Stmts.{Sound-optional_type}
use rayac.Parser.Sound.Decls.{
  Sound-fn_decl, Sound-struct_decl, Sound-union_decl, Sound-enum_decl, Sound-traits_decl,
  Sound-extend_decl, Sound-type_alias, Sound-test_decl,
}

module _ (fuel : ℕ) (self : Calls) (h : SoundCalls self) where
  pub Sound-top_var :
      (x0 : Bool) (x1 : Bool) (x2 : AttributeList) → Sound (top_var fuel self x0 x1 x2)
  unfolding top_var
  Sound-top_var x0 x1 x2 = search (call_rules, Sound-optional_type) depth 16 fits 4000

  pub Sound-top_level_of :
      (x0 : Bool) (x1 : AttributeList) (x2 : TokenKind) → Sound (top_level_of fuel self x0 x1 x2)
  unfolding top_level_of
  Sound-top_level_of is_pub attrs tok_fn = search (call_rules, Sound-fn_decl)
  Sound-top_level_of is_pub attrs tok_struct = search (call_rules, Sound-struct_decl)
  Sound-top_level_of is_pub attrs tok_union = search (call_rules, Sound-union_decl)
  Sound-top_level_of is_pub attrs tok_enum = search (call_rules, Sound-enum_decl)
  Sound-top_level_of is_pub attrs tok_traits = search (call_rules, Sound-traits_decl)
  Sound-top_level_of is_pub attrs tok_extend = search (call_rules, Sound-extend_decl)
  Sound-top_level_of is_pub attrs tok_type = search (call_rules, Sound-type_alias)
  Sound-top_level_of is_pub attrs tok_test = search (call_rules, Sound-test_decl)
  Sound-top_level_of is_pub attrs tok_const = search (call_rules, Sound-top_var)
  Sound-top_level_of is_pub attrs tok_var = search (call_rules, Sound-top_var)
  Sound-top_level_of is_pub attrs _ = search call_rules

  pub Sound-top_level_decl : Sound (parser_parse_top_level_decl fuel self)
  unfolding parser_parse_top_level_decl
  Sound-top_level_decl =
      search (call_rules, Sound-attrs, Sound-fn_decl, Sound-top_level_of) depth 16 fits 4000

  pub Sound-module_part : (x : AstNode) → Sound (module_part fuel self x)
  unfolding module_part
  Sound-module_part x = search call_rules

  pub Sound-part_round : (x : AstNode) → Sound (part_round fuel self x)
  unfolding part_round
  Sound-part_round x = search call_rules

  pub Sound-import_alias : (x : AstNode) → Sound (import_alias fuel self x)
  unfolding import_alias
  Sound-import_alias x = search call_rules

  pub Sound-import_round : (x : AstNode) → Sound (import_round fuel self x)
  unfolding import_round
  Sound-import_round x =
      search (call_rules, Sound-part_round, Sound-import_alias) depth 16 fits 4000

  pub Sound-add_or_skip : (x0 : AstNode) (x1 : NodeOpt) → Sound (add_or_skip fuel self x0 x1)
  unfolding add_or_skip
  Sound-add_or_skip root (at decl) = search call_rules
  Sound-add_or_skip root null = search call_rules

  pub Sound-decl_round : (x : AstNode) → Sound (decl_round fuel self x)
  unfolding decl_round
  Sound-decl_round x = search (call_rules, Sound-top_level_decl, Sound-add_or_skip)

  pub Sound-unit : Sound (parse_unit fuel self)
  unfolding parse_unit
  Sound-unit =
      search (call_rules, Sound-module_part, Sound-import_round, Sound-decl_round) depth 16 fits
        4000

SoundCalls-none : SoundCalls no_calls
SoundCalls-none = record {
  expr_bp = λ n. Sound-no_fuel;
  block = Sound-no_fuel;
  stmt = Sound-no_fuel;
  type = Sound-no_fuel;
  pattern = Sound-no_fuel;
}

-- However much fuel they have, the five functions do not fault.
calls-SoundCalls : (fuel : ℕ) → SoundCalls (calls fuel)
unfolding calls
calls-SoundCalls zero = SoundCalls-none
calls-SoundCalls (suc n) =
    let h = calls-SoundCalls n in
    record {
      expr_bp = Sound-pratt n (calls n) h;
      block = Sound-parse_block n (calls n) h;
      stmt = Sound-parse_stmt n (calls n) h;
      type = Sound-parse_type n (calls n) h;
      pattern = Sound-parse_pattern n (calls n) h;
    }

-- The list of tokens is not empty, the text of each of them lies in readable memory, and `had_error` is
-- set exactly if something was reported. Then, with any fuel, the parser reads no token outside the
-- list, no null pointer and, where it tests the first character of a name, none outside the name's
-- memory. Where it returns, it stands on the same tokens and not further back, has numbered its nodes
-- upwards, has not cleared `had_error`, and has set it exactly if it has reported something.
pub parser_parse_safe : (fuel : ℕ) (p : Parser) → IsValid p → Ends p (parser_parse fuel p)
unfolding parser_parse
parser_parse_safe fuel p v = (Sound-unit fuel (calls fuel) (calls-SoundCalls fuel)).at p v
