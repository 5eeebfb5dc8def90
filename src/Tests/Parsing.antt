-- ===== src/Tests/Parsing.antt =====
-- The parser on small sources.
use rayac.Base.{
  ◌≡◌, refl, ℕ, Bool, false, Option, some, none, List, [], ◌∷◌, ◌++◌, codes, length, Bytes,
}
use rayac.Ast.Syntax.{AstNode}
use rayac.Lexer.Next.{all_tokens}
use rayac.Lexer.Token.{Token, tok_eof}
use rayac.Parser.State.{Parser, parser_init, Outcome, returns, faults, out_of_fuel}
use rayac.Parser.Unit.{parser_parse}
use rayac.Ast.Growth.{list_init, list_push, list_init-Represents, Represents, list_push-Represents}
use rayac.Ast.Lists.{ast_node_list_push}
use rayac.Ast.Stmts.{ast_new_match}
use rayac.Ast.Syntax.{null, nil, of_type}
use rayac.Base.{true, arith, String}
use rayac.Diag.Engine.{SourceLocation}
use rayac.Lexer.Token.{TokenKind, tok_test, tok_fn, tok_rparen, tok_rbrace, tok_semicolon}
use rayac.Parser.Ahead.{Reads, moved}
use rayac.Ast.Syntax.{at}
use rayac.Base.{ltb, if◌then◌else◌}
use rayac.Lexer.Token.{tok_identifier, tok_plus, tok_star}
use rayac.Parser.Climb.{EndsExpr}
use rayac.Parser.Climb.Groups.{grouped_left, grouped_right, parse_expr_bp_groups}
use rayac.Parser.Exprs.{infix_binding_power}
use rayac.Parser.Calls.{while_open, unless_closed}
use rayac.Parser.Sound.{IsValid, Ends}
use rayac.Parser.Sound.Unit.{parser_parse_safe}
use rayac.Parser.State.{token_at}
use rayac.Parser.Stmts.{arm_round}
use rayac.Parser.Stuck.{match_arms_diverge}
use rayac.Base.{◌-◌, get_elem?, zero, suc, subst}
use rayac.Lexer.Token.{int_value}
use rayac.Parser.Types.{Word, spell, Ty, name, reference, slice, fallible, print_type, tree, Stops}
use rayac.Parser.Types.Print.{parse_type-print_type}
use rayac.Parser.Unit.{calls}
use rayac.StringView.View.{IsReadable, sv_from_cstr}
use rayac.Tests.Lexing.{lexer_of, zeros, blank_token, lexing}

abbrev tokens_of : Bytes → Option (List Token)
tokens_of s = elim (all_tokens zeros 100 (lexer_of s)) [
  | none ↦ none
  | some ts ↦ some (ts ++ record blank_token { kind = tok_eof } ∷ [])
]

abbrev parsed : ℕ → Bytes → Outcome AstNode
parsed fuel s = elim (tokens_of s) [
  | none ↦ out_of_fuel
  | some ts ↦ parser_parse fuel (parser_init ts (length ts) 0)
]

abbrev ended : {A : Type 0} → Outcome A → Option (ℕ × Bool)
ended (returns a p) = some (p.next_id, p.had_error)
ended faults = none
ended out_of_fuel = none

-- All that a run of the parser computes with.
parsing : Unit {0}
unfolding rayac.Parser.State.parser_init rayac.Parser.State.pure rayac.Parser.State.fault
    rayac.Parser.State.no_fuel rayac.Parser.State.◌>>=◌ rayac.Parser.State.when
    rayac.Parser.State.read rayac.Parser.State.last_token rayac.Parser.State.token_at
    rayac.Parser.State.parser_current rayac.Parser.State.parser_peek rayac.Parser.State.parser_check
    rayac.Parser.State.parser_at_end rayac.Parser.State.step rayac.Parser.State.stepped
    rayac.Parser.State.parser_match rayac.Parser.State.parser_error rayac.Parser.State.expected
    rayac.Parser.State.parser_expect rayac.Parser.State.new rayac.Parser.State.loop
    rayac.Parser.Calls.parser_parse_expr rayac.Parser.Calls.name_token rayac.Parser.Calls.make
    rayac.Parser.Calls.is_open rayac.Parser.Calls.comma_round rayac.Parser.Calls.comma_separated
    rayac.Parser.Calls.items_before rayac.Parser.Calls.open_round rayac.Parser.Calls.while_open
    rayac.Parser.Calls.unless_closed rayac.Parser.Exprs.infix_binding_power
    rayac.Parser.Exprs.field_init_round rayac.Parser.Exprs.parser_parse_struct_literal
    rayac.Parser.Exprs.starts_with_capital rayac.Parser.Exprs.name_or_literal
    rayac.Parser.Exprs.parenthesised rayac.Parser.Exprs.array_type rayac.Parser.Exprs.element_round
    rayac.Parser.Exprs.parse_array_literal rayac.Parser.Exprs.primary_of
    rayac.Parser.Exprs.parser_parse_primary rayac.Parser.Pratt.prefix_operator
    rayac.Parser.Pratt.capture_of rayac.Parser.Pratt.try_operator rayac.Parser.Pratt.prefix_of
    rayac.Parser.Pratt.parser_parse_prefix rayac.Parser.Pratt.argument rayac.Parser.Pratt.arguments
    rayac.Parser.Pratt.member rayac.Parser.Pratt.subscript rayac.Parser.Pratt.bracket_round
    rayac.Parser.Pratt.call_round rayac.Parser.Pratt.postfix_round
    rayac.Parser.Pratt.parser_parse_postfix rayac.Parser.Pratt.infix_right
    rayac.Parser.Pratt.infix_with rayac.Parser.Pratt.infix_round rayac.Parser.Pratt.cast_after
    rayac.Parser.Pratt.operators_after rayac.Parser.Pratt.parser_parse_expr_bp
    rayac.Parser.TypeExprs.field_pattern_round rayac.Parser.TypeExprs.struct_pattern
    rayac.Parser.TypeExprs.variant_pattern rayac.Parser.TypeExprs.dot_pattern
    rayac.Parser.TypeExprs.name_pattern rayac.Parser.TypeExprs.pattern_of
    rayac.Parser.TypeExprs.parser_parse_pattern rayac.Parser.TypeExprs.unary_type
    rayac.Parser.TypeExprs.bracket_type rayac.Parser.TypeExprs.func_param
    rayac.Parser.TypeExprs.func_type rayac.Parser.TypeExprs.generic_arg_round
    rayac.Parser.TypeExprs.generic_type rayac.Parser.TypeExprs.named_type
    rayac.Parser.TypeExprs.keyword_type rayac.Parser.TypeExprs.compound_type
    rayac.Parser.TypeExprs.primary_type rayac.Parser.TypeExprs.type_suffix
    rayac.Parser.TypeExprs.parser_parse_type rayac.Parser.Stmts.block_end
    rayac.Parser.Stmts.block_tail rayac.Parser.Stmts.block_after rayac.Parser.Stmts.block_item
    rayac.Parser.Stmts.block_from rayac.Parser.Stmts.parser_parse_block
    rayac.Parser.Stmts.optional_type rayac.Parser.Stmts.var_stmt rayac.Parser.Stmts.return_rest
    rayac.Parser.Stmts.else_part rayac.Parser.Stmts.if_rest rayac.Parser.Stmts.while_rest
    rayac.Parser.Stmts.for_rest rayac.Parser.Stmts.arm_round rayac.Parser.Stmts.match_rest
    rayac.Parser.Stmts.expr_rest rayac.Parser.Stmts.expr_stmt_from rayac.Parser.Stmts.stmt_of
    rayac.Parser.Stmts.parser_parse_stmt rayac.Parser.Members.attribute_arg
    rayac.Parser.Members.attribute_args rayac.Parser.Members.parser_parse_attribute
    rayac.Parser.Members.attribute_round rayac.Parser.Members.parser_parse_attrs
    rayac.Parser.Members.default_value rayac.Parser.Members.const_behind
    rayac.Parser.Members.self_param rayac.Parser.Members.named_param
    rayac.Parser.Members.parser_parse_param rayac.Parser.Members.trait_name
    rayac.Parser.Members.generic_param rayac.Parser.Members.generic_list
    rayac.Parser.Members.parser_parse_generic_params rayac.Parser.Decls.params
    rayac.Parser.Decls.return_type rayac.Parser.Decls.fn_body rayac.Parser.Decls.fn_rest
    rayac.Parser.Decls.parser_parse_fn_decl rayac.Parser.Decls.field_round
    rayac.Parser.Decls.fields_of rayac.Parser.Decls.parser_parse_struct_decl
    rayac.Parser.Decls.parser_parse_union_decl rayac.Parser.Decls.payload
    rayac.Parser.Decls.variant_round rayac.Parser.Decls.parser_parse_enum_decl
    rayac.Parser.Decls.skip_token rayac.Parser.Decls.trait_method rayac.Parser.Decls.trait_round
    rayac.Parser.Decls.parser_parse_traits_decl rayac.Parser.Decls.extend_round
    rayac.Parser.Decls.extend_trait rayac.Parser.Decls.parser_parse_extend_decl
    rayac.Parser.Decls.parser_parse_type_alias rayac.Parser.Decls.parser_parse_test_decl
    rayac.Parser.Unit.calls rayac.Parser.Unit.top_var rayac.Parser.Unit.top_level_of
    rayac.Parser.Unit.parser_parse_top_level_decl rayac.Parser.Unit.module_part
    rayac.Parser.Unit.part_round rayac.Parser.Unit.import_alias rayac.Parser.Unit.import_round
    rayac.Parser.Unit.add_or_skip rayac.Parser.Unit.decl_round rayac.Parser.Unit.parse_unit
    rayac.Parser.Unit.parser_parse rayac.StringView.View.sv_from_cstr
    rayac.StringView.View.sv_from_ptr_len rayac.StringView.View.sv_eq
    rayac.StringView.View.sv_eq_cstr rayac.StringView.View.between rayac.StringView.View.sv_slice
    rayac.StringView.View.to_int_loop rayac.StringView.View.sv_to_int rayac.Base.bytes_eq
    rayac.Lexer.Token.kind_index
parsing = tt

one_function : ended (parsed 30 (codes "fn f(x: i32) -> i32 { x + 1 * 2 }")) ≡ some (9, false)
unfolding lexing parsing
one_function = refl

-- The loop over the arms of this `match` does not end.
stuck_match : ended (parsed 25 (codes "fn f() { match x { ) } }")) ≡ none
unfolding lexing parsing
stuck_match = refl

abbrev place : SourceLocation
place = record { filename = codes "a.raya"; line = 1; column = 1; offset = 0 }

abbrev word : TokenKind → String → Token
word kind text = record {
  kind = kind;
  text = record { data_ = codes text; len = length (codes text) };
  loc = place;
  value = int_value 0;
}

-- `test fn`
abbrev two_words : Parser
two_words = parser_init (word tok_test "test" ∷ word tok_fn "fn" ∷ word tok_eof "" ∷ []) 3 0

same_text : (a t : Token) → IsReadable a.text → some a ≡ some t → IsReadable t.text
same_text a t r e =
    subst (λ (o : Option Token). elim o [ none ↦ Unit {0} | some x ↦ IsReadable x.text ]) e r

words-IsReadable : (i : ℕ) (t : Token) → get_elem? two_words.tokens i ≡ some t → IsReadable t.text
unfolding parser_init
words-IsReadable zero t e = same_text _ t (omega arith) e
words-IsReadable (suc zero) t e = same_text _ t (omega arith) e
words-IsReadable (suc (suc zero)) t e = same_text _ t (omega arith) e
words-IsReadable (suc (suc (suc i))) t e = ground arith

two_words-IsValid : IsValid two_words
unfolding parser_init
two_words-IsValid = record {
  counted = refl;
  nonempty = omega arith;
  flagged = refl;
  readable = words-IsReadable;
}

parser_parse_safe_example : Ends two_words (parser_parse 9 two_words)
parser_parse_safe_example = parser_parse_safe 9 two_words two_words-IsValid

-- `) }`
abbrev at_paren : Parser
at_paren = parser_init (word tok_rparen "" ∷ word tok_rbrace "" ∷ word tok_eof "" ∷ []) 3 0

abbrev an_empty_match : AstNode
an_empty_match = ast_new_match null place 0

at_paren-now : token_at at_paren at_paren.pos ≡ some (word tok_rparen "")
unfolding parser_init token_at
at_paren-now = refl

match_arms_diverge_example :
    while_open 7 tok_rbrace
      (unless_closed tok_rbrace (arm_round 5 (calls 5)))
      an_empty_match
      at_paren
    ≡ out_of_fuel
match_arms_diverge_example =
    match_arms_diverge 7 5 5 an_empty_match at_paren (word tok_rparen "") at_paren-now refl

abbrev in_column : ℕ → SourceLocation
in_column n = record place { column = n; offset = n - 1 }

abbrev word_at : ℕ → String → Word
word_at n text = record { text = sv_from_cstr (codes text); loc = in_column n; value = int_value 0 }

-- `&const []Oops!u8;`
abbrev sample_type : Ty
sample_type = reference (word_at 1 "&") (some (word_at 2 "const")) (
    slice (word_at 8 "[") (word_at 9 "]") none
      (fallible (word_at 10 "Oops") (word_at 14 "!") (name (word_at 15 "u8"))))

abbrev the_semicolon : Token
the_semicolon = spell tok_semicolon (word_at 17 ";")

abbrev sample_tokens : List Token
sample_tokens = print_type sample_type (the_semicolon ∷ [])

abbrev before_type : Parser
before_type = parser_init sample_tokens 8 0

before_type-Reads : Reads before_type sample_tokens
unfolding parser_init
before_type-Reads = record { counted = refl; ahead = refl }

semicolon-Stops : Stops the_semicolon
unfolding rayac.Lexer.Token.kind_index
semicolon-Stops = record { paren = refl; question = refl; bang = refl }

parse_type-print_type_example :
    (calls 12).parse_type before_type
    ≡ returns (of_type (tree (in_column 17) sample_type)) (moved before_type 7)
parse_type-print_type_example =
    parse_type-print_type 12 sample_type the_semicolon [] semicolon-Stops (omega arith) before_type
      before_type-Reads

list_push-Represents_example :
    Represents (list_push list_init an_empty_match) (ast_node_list_push nil an_empty_match)
list_push-Represents_example =
    list_push-Represents list_init nil an_empty_match list_init-Represents

-- `x + y * z;`
abbrev sum_of_product : List Token
sum_of_product =
    word tok_identifier "x"
    ∷ word tok_plus "+"
    ∷ word tok_identifier "y"
    ∷ word tok_star "*"
    ∷ word tok_identifier "z"
    ∷ word tok_semicolon ";"
    ∷ []

abbrev before_sum : Parser
before_sum = parser_init sum_of_product 6 0

before_sum-Reads : Reads before_sum sum_of_product
unfolding parser_init
before_sum-Reads = record { counted = refl; ahead = refl }

plus-power : infix_binding_power (word tok_plus "+").kind ≡ some (90, 91)
unfolding infix_binding_power
plus-power = refl

star-power : infix_binding_power (word tok_star "*").kind ≡ some (100, 101)
unfolding infix_binding_power
star-power = refl

semicolon-EndsExpr : EndsExpr (word tok_semicolon ";")
unfolding infix_binding_power rayac.Lexer.Token.kind_index
semicolon-EndsExpr = record {
  name = record { brace = refl; dot = refl; paren = refl; bracket = refl };
  not_as = refl;
  no_operator = refl;
}

parse_expr_bp_groups_example :
    (q : Parser) × ((calls 5).parse_expr_bp 0 before_sum
      ≡ returns
          (at (
            if ltb 100 91
            then grouped_left before_sum.next_id
                (word tok_identifier "x")
                (word tok_plus "+")
                (word tok_identifier "y")
                (word tok_star "*")
                (word tok_identifier "z")
            else grouped_right before_sum.next_id
                (word tok_identifier "x")
                (word tok_plus "+")
                (word tok_identifier "y")
                (word tok_star "*")
                (word tok_identifier "z")))
          q)
parse_expr_bp_groups_example =
    parse_expr_bp_groups 1 90 91 100 101 before_sum (word tok_identifier "x") (word tok_plus "+")
      (word tok_identifier "y") (word tok_star "*") (word tok_identifier "z")
      (word tok_semicolon ";") [] before_sum-Reads refl refl refl plus-power star-power
      semicolon-EndsExpr
