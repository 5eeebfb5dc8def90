-- ===== src/Parser/Climb.antt =====
-- The climbing of precedences, step by step: names, operators, and tokens that end an expression.
pub mod Groups
use rayac.Base.{
  ℕ, zero, suc, ◌+◌, Bool, true, false, Option, none, some, List, [], ◌∷◌, ◌≡◌, refl, ap, ◌∙◌, ◌==◌,
  ltb, inl, inr, arith, ◌⊎◌, Bool-cases, if◌then◌else◌,
}
use rayac.Ast.Syntax.{AstNode, node, NodeOpt, at, identifier, loc_of}
use rayac.Ast.Exprs.{ast_new_binary}
use rayac.Lexer.Token.{
  Token, TokenKind, kind_index, tok_identifier, tok_dot, tok_lparen, tok_lbracket, tok_lbrace,
  tok_as,
}
use rayac.Parser.Ahead.{Reads, Reads-moved, moved, token_at-Reads, token_now}
use rayac.Parser.Calls.{Calls}
use rayac.Parser.Exprs.{
  infix_binding_power, broke, gave_up, name_or_literal, primary_of, parser_parse_primary,
}
use rayac.Parser.Pratt.{
  parser_parse_prefix, prefix_of, parser_parse_postfix, postfix_round, call_round, bracket_round,
  infix_right, infix_with, infix_round, cast_after, operators_after, parser_parse_expr_bp,
}
use rayac.Parser.State.{
  Parser, Outcome, returns, ◌>>=◌, pure, read, token_at, last_token, is_kind, parser_check,
  parser_current, step, stepped, parser_match, new, loop,
}
use rayac.Parser.Unit.{calls}
use rayac.Parser.Types.{Ty}

-- The token does not continue a name.
pub record EndsName (t : Token) : Type 0 where
  pub brace : is_kind tok_lbrace t ≡ false
  pub dot : is_kind tok_dot t ≡ false
  pub paren : is_kind tok_lparen t ≡ false
  pub bracket : is_kind tok_lbracket t ≡ false

-- The node of a name, and the parser behind it.
abbrev pub name_node : ℕ → Token → AstNode
name_node id t = node id t.loc (identifier t.text)

abbrev pub behind : Parser → Parser
behind p = record p { pos = p.pos + 1; next_id = p.next_id + 1 }

pub Reads-behind :
    (p : Parser) (t : Token) (ts : List Token) → Reads p (t ∷ ts) → Reads (behind p) ts
Reads-behind p t ts h =
    let h' = Reads-moved p t ts h in record { counted = h'.counted; ahead = h'.ahead }

abbrev pub renumbered : Parser → ℕ → Parser
renumbered p n = record p { next_id = n }

pub Reads-renumbered :
    (p : Parser) (n : ℕ) (ts : List Token) → Reads p ts → Reads (renumbered p n) ts
Reads-renumbered p n ts h = record { counted = h.counted; ahead = h.ahead }

module _ (fuel : ℕ) (self : Calls) where
  pub prefix-name :
      (p : Parser) (t u : Token) (rest : List Token)
      → Reads p (t ∷ u ∷ rest)
      → t.kind ≡ tok_identifier
      → is_kind tok_lbrace u ≡ false
      → parser_parse_prefix fuel self p ≡ returns (at (name_node p.next_id t)) (behind p)
  unfolding parser_parse_prefix prefix_of parser_parse_primary primary_of name_or_literal
      parser_check parser_current read step pure new ◌>>=◌ token_at last_token
  prefix-name p t u rest h k b =
      let e0 = token_now p _ _ h in let e1 = token_at-Reads p _ 1 _ h refl in simp (e0, k, e1, b)

  pub postfix-none :
      (p : Parser) (left : AstNode) (u : Token) (rest : List Token)
      → Reads p (u ∷ rest)
      → EndsName u
      → parser_parse_postfix (suc fuel) self left p ≡ returns left p
  unfolding parser_parse_postfix loop postfix_round call_round bracket_round parser_match
      parser_check parser_current read stepped pure ◌>>=◌ token_at last_token
  postfix-none p left u rest h e = simp (token_now p _ _ h, e.dot, e.paren, e.bracket)

  pub infix_round-accepts :
      (min_bp l r : ℕ) (p q : Parser) (left right : AstNode) (o : Token) (rest : List Token)
      → Reads p (o ∷ rest)
      → infix_binding_power o.kind ≡ some (l, r)
      → ltb l min_bp ≡ false
      → self.parse_expr_bp r (moved p 1) ≡ returns (at right) q
      → infix_round fuel self min_bp left p
        ≡ returns
            (inl (ast_new_binary o.kind (at left) (at right) (loc_of left) q.next_id))
            (record q { next_id = q.next_id + 1 })
  unfolding infix_round infix_with infix_right parser_current read step pure new ◌>>=◌
  infix_round-accepts min_bp l r p q left right o rest h e b k = simp (token_now p _ _ h, e, b, k)

  -- The token ends the expression at this binding power.
  pub record Halts (min_bp : ℕ) (u : Token) : Type 0 where
    pub not_as : is_kind tok_as u ≡ false
    pub weak :
        (left : AstNode) (p : Parser)
        → infix_with fuel self min_bp u.kind left (infix_binding_power u.kind) p
          ≡ returns (inr (broke left)) p

  pub infix_round-Halts :
      (min_bp : ℕ) (p : Parser) (left : AstNode) (u : Token) (rest : List Token)
      → Reads p (u ∷ rest)
      → Halts min_bp u
      → infix_round fuel self min_bp left p ≡ returns (inr (broke left)) p
  unfolding infix_round parser_current read ◌>>=◌
  infix_round-Halts min_bp p left u rest h t = simp (token_now p _ _ h, t.weak left p)

  pub cast_after-none :
      (p : Parser) (left : AstNode) (u : Token) (rest : List Token)
      → Reads p (u ∷ rest)
      → is_kind tok_as u ≡ false
      → cast_after fuel self (broke left) p ≡ returns (at left) p
  unfolding cast_after parser_match parser_check parser_current read stepped pure ◌>>=◌ token_at
      last_token
  cast_after-none p left u rest h k = simp (token_now p _ _ h, k)

-- A name alone, before a token that ends the expression.
pub name_alone :
    (fuel min_bp : ℕ) (self : Calls) (p : Parser) (t u : Token) (rest : List Token)
    → Reads p (t ∷ u ∷ rest)
    → t.kind ≡ tok_identifier
    → EndsName u
    → Halts (suc fuel) self min_bp u
    → parser_parse_expr_bp (suc fuel) self min_bp p
      ≡ returns (at (name_node p.next_id t)) (behind p)
unfolding parser_parse_expr_bp operators_after loop ◌>>=◌ pure
name_alone fuel min_bp self p t u rest h k e s =
    let h' = Reads-behind p t (u ∷ rest) h in
    simp (
      prefix-name (suc fuel) self p t u rest h k e.brace,
      postfix-none fuel self (behind p) (name_node p.next_id t) u rest h' e,
      infix_round-Halts (suc fuel) self min_bp (behind p) (name_node p.next_id t) u rest h' s,
      cast_after-none (suc fuel) self (behind p) (name_node p.next_id t) u rest h' s.not_as,
    )

-- What follows an operand and is no operator.
pub record EndsExpr (u : Token) : Type 0 where
  pub name : EndsName u
  pub not_as : is_kind tok_as u ≡ false
  pub no_operator : infix_binding_power u.kind ≡ none

pub EndsExpr-Halts :
    (fuel min_bp : ℕ) (self : Calls) (u : Token) → EndsExpr u → Halts fuel self min_bp u
unfolding infix_with pure
EndsExpr-Halts fuel min_bp self u e = record {
  not_as = e.not_as;
  weak = λ left p. simp (e.no_operator);
}

-- An operator is none of the other tokens that may follow an operand.
operator-kinds :
    (k : TokenKind) (l r : ℕ)
    → infix_binding_power k ≡ some (l, r)
    → ((kind_index k == kind_index tok_lbrace) ≡ false)
      × ((kind_index k == kind_index tok_dot) ≡ false)
      × ((kind_index k == kind_index tok_lparen) ≡ false)
      × ((kind_index k == kind_index tok_lbracket) ≡ false)
      × ((kind_index k == kind_index tok_as) ≡ false)
unfolding infix_binding_power kind_index
operator-kinds tok_lbrace l r h = absurd (cc)
operator-kinds tok_dot l r h = absurd (cc)
operator-kinds tok_lparen l r h = absurd (cc)
operator-kinds tok_lbracket l r h = absurd (cc)
operator-kinds tok_as l r h = absurd (cc)
operator-kinds _ l r h = (refl, refl, refl, refl, refl)

pub operator-EndsName :
    (o : Token) (l r : ℕ) → infix_binding_power o.kind ≡ some (l, r) → EndsName o
operator-EndsName o l r h =
    let (a, b, c, d, e) = operator-kinds o.kind l r h in
    record { brace = a; dot = b; paren = c; bracket = d }

pub operator-Halts :
    (fuel min_bp l r : ℕ) (self : Calls) (o : Token)
    → infix_binding_power o.kind ≡ some (l, r)
    → ltb l min_bp ≡ true
    → Halts fuel self min_bp o
unfolding infix_with pure
operator-Halts fuel min_bp l r self o h b =
    let (_, _, _, _, e) = operator-kinds o.kind l r h in
    record { not_as = e; weak = λ left p. simp (h, b) }

-- The rest of an expression behind its first operator, if the next one binds at least as strongly as
-- the first wants on its right: it belongs to the right operand.
pub two_names :
    (fuel min_bp l r : ℕ) (self : Calls) (p : Parser) (b o c u : Token) (rest : List Token)
    → Reads p (b ∷ o ∷ c ∷ u ∷ rest)
    → b.kind ≡ tok_identifier
    → infix_binding_power o.kind ≡ some (l, r)
    → ltb l min_bp ≡ false
    → EndsExpr u
    → self.parse_expr_bp r (moved (behind p) 1)
      ≡ returns (at (name_node (p.next_id + 1) c)) (behind (moved (behind p) 1))
    → parser_parse_expr_bp (suc (suc fuel)) self min_bp p
      ≡ returns
          (at (
            ast_new_binary o.kind
              (at (name_node p.next_id b))
              (at (name_node (p.next_id + 1) c))
              b.loc
              (p.next_id + 1 + 1)))
          (record (behind (moved (behind p) 1)) { next_id = p.next_id + 1 + 1 + 1 })
unfolding parser_parse_expr_bp operators_after loop ◌>>=◌ pure
two_names fuel min_bp l r self p b o c u rest h k e m s ih =
    let n = suc (suc fuel) in
    let h1 = Reads-behind p b _ h in
    let h2 = Reads-behind (moved (behind p) 1) c _ (Reads-moved (behind p) o _ h1) in
    let q = renumbered (behind (moved (behind p) 1)) (p.next_id + 1 + 1 + 1) in
    let h3 = Reads-renumbered (behind (moved (behind p) 1)) (p.next_id + 1 + 1 + 1) _ h2 in
    simp (
      prefix-name n self p b o _ h k (operator-EndsName o l r e).brace,
      postfix-none (suc fuel) self (behind p) (name_node p.next_id b) o _ h1
          (operator-EndsName o l r e),
      infix_round-accepts n self min_bp l r (behind p) (behind (moved (behind p) 1))
          (name_node p.next_id b) (name_node (p.next_id + 1) c) o _ h1 e m ih,
      infix_round-Halts n self min_bp q _ u rest h3 (EndsExpr-Halts n min_bp self u s),
      cast_after-none n self q _ u rest h3 s.not_as,
    )
