-- ===== src/Parser/Stuck.antt =====
-- The loop over the arms of a `match` at a token that nothing in it reads.
use rayac.Base.{ℕ, zero, suc, ◌+◌, true, some, ◌∷◌, [], ◌++◌, ◌≡◌, refl, ◌⊎◌, inl}
use rayac.Ast.Syntax.{AstNode, null, pattern_at, pattern_wildcard}
use rayac.Ast.Stmts.{ast_match_add_arm, ast_new_match_arm}
use rayac.Lexer.Token.{Token, tok_rparen, tok_rbrace, kind_index}
use rayac.Parser.Calls.{Calls, open_round, unless_closed, while_open, is_open, parser_parse_expr}
use rayac.Parser.Exprs.{primary_of, parser_parse_primary}
use rayac.Parser.Pratt.{prefix_of, parser_parse_prefix, operators_after, parser_parse_expr_bp}
use rayac.Parser.State.{
  Parser, Outcome, returns, out_of_fuel, ◌>>=◌, pure, no_fuel, read, token_at, last_token,
  parser_current, parser_check, parser_at_end, stepped, parser_match, parser_error, expected,
  parser_expect, new, loop,
}
use rayac.Parser.Stmts.{arm_round}
use rayac.Parser.TypeExprs.{name_pattern, pattern_of, parser_parse_pattern}
use rayac.Parser.Unit.{calls}

-- The state after a round that has read nothing.
abbrev blocked : Parser → Token → Parser
blocked p t = record p {
  next_id = p.next_id + 1;
  had_error = true;
  reports =
      ((p.reports ++ (t.loc, "expected pattern") ∷ [])
        ++ (t.loc, "expected '=>' in match arm") ∷ [])
      ++ (t.loc, "expected expression") ∷ [];
}

abbrev arms_round : ℕ → Calls → AstNode → Parser → Outcome (AstNode ⊎ AstNode)
arms_round fuel self m = open_round tok_rbrace (unless_closed tok_rbrace (arm_round fuel self)) m

arms_round_lem :
    (fuel n : ℕ) (m : AstNode) (p : Parser) (t : Token)
    → token_at p p.pos ≡ some t
    → t.kind ≡ tok_rparen
    → arms_round fuel (calls (suc n)) m p
      ≡ returns
          (inl (
            ast_match_add_arm m
              (ast_new_match_arm (pattern_at t.loc pattern_wildcard) null t.loc p.next_id)))
          (blocked p t)
unfolding open_round unless_closed is_open arm_round parser_parse_expr calls parser_parse_pattern
    pattern_of name_pattern parser_parse_expr_bp parser_parse_prefix prefix_of parser_parse_primary
    primary_of operators_after ◌>>=◌ pure read parser_current parser_check parser_at_end stepped
    parser_match parser_error expected parser_expect new kind_index token_at last_token
arms_round_lem fuel n m p t e k = simp (e, k)

-- Without fuel for the pattern the round has no result.
arms_round_none :
    (fuel : ℕ) (m : AstNode) (p : Parser) (t : Token)
    → token_at p p.pos ≡ some t
    → t.kind ≡ tok_rparen
    → arms_round fuel (calls zero) m p ≡ out_of_fuel
unfolding open_round unless_closed is_open arm_round calls ◌>>=◌ pure read parser_current
    parser_check parser_at_end no_fuel kind_index token_at last_token
arms_round_none fuel m p t e k = simp (e, k)

-- Where the current token is a closing parenthesis, the loop over the arms of a `match` has no result,
-- whatever the rounds and the fuel of the functions that it calls: no round moves on.
pub match_arms_diverge :
    (rounds fuel n : ℕ) (m : AstNode) (p : Parser) (t : Token)
    → token_at p p.pos ≡ some t
    → t.kind ≡ tok_rparen
    → while_open rounds tok_rbrace (unless_closed tok_rbrace (arm_round fuel (calls n))) m p
      ≡ out_of_fuel
unfolding while_open loop no_fuel ◌>>=◌ token_at last_token
match_arms_diverge zero fuel n m p t e k = refl
match_arms_diverge (suc rounds) fuel zero m p t e k = rw (arms_round_none fuel m p t e k) refl
match_arms_diverge (suc rounds) fuel (suc n) m p t e k = rw (arms_round_lem fuel n m p t e k) (
    match_arms_diverge rounds fuel (suc n)
      (ast_match_add_arm m
        (ast_new_match_arm (pattern_at t.loc pattern_wildcard) null t.loc p.next_id))
      (blocked p t) t e k)
