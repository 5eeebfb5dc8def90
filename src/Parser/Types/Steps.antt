-- ===== src/Parser/Types/Steps.antt =====
-- The steps of `parser_parse_type` on a name, a suffix and a prefix.
use rayac.Base.{
  ℕ, Bool, false, List, ◌∷◌, ◌≡◌, refl, ap, sym, ◌∙◌, codes, Option, some, none, Bool-cases, inl,
  inr, arith,
}
use rayac.Ast.Syntax.{TypeExpr, type_expr, TypeOpt, of_type, type_optional, type_error_union}
use rayac.Diag.Engine.{SourceLocation}
use rayac.Lexer.Token.{
  Token, kind_index, tok_identifier, tok_ampersand, tok_star, tok_const, tok_lbracket, tok_rbracket,
  tok_question, tok_bang, tok_lparen,
}
use rayac.Ast.TypeExprs.{type_new_reference, type_new_pointer, type_new_slice}
use rayac.Parser.Ahead.{Reads, Reads-moved, moved, token_at-Reads, token_now}
use rayac.Parser.State.{
  Parser, returns, ◌>>=◌, pure, read, token_at, last_token, is_kind, parser_current, parser_check,
  step, stepped, parser_match,
}
use rayac.Parser.TypeExprs.{
  parser_parse_type, type_suffix, primary_type, compound_type, keyword_type, named_type,
  generic_type, unary_type, bracket_type,
}
use rayac.Parser.Calls.{Calls}
use rayac.StringView.View.{sv_eq_cstr}
use rayac.Parser.Types.{Word, spell, with_const, is_const, const_size, named, Stops}

pub moved_none : (p : Parser) → moved p 0 ≡ p
moved_none p = ap (λ i. record p { pos = i }) (omega arith)

-- A name, before anything but a parenthesis.
pub primary_type-name :
    (fuel : ℕ) (self : Calls) (p : Parser) (w : Word) (r : Token) (rest : List Token)
    → Reads p (spell tok_identifier w ∷ r ∷ rest)
    → is_kind tok_lparen r ≡ false
    → primary_type fuel self (spell tok_identifier w) p ≡ returns (of_type (named w)) (moved p 1)
unfolding primary_type compound_type keyword_type named_type generic_type parser_match parser_check
    parser_current read stepped step pure ◌>>=◌ kind_index token_at last_token
primary_type-name fuel self p w r rest h k =
    let e0 = token_now p _ _ h in
    let e1 = token_at-Reads p _ 1 _ h refl in
    elim (Bool-cases (sv_eq_cstr w.text (codes "Self"))) [
      | inl b ↦ simp (e0, b)
      | inr b ↦ simp (e0, e1, b, k)
    ]

module _ (fuel : ℕ) (self : Calls) where
  pub suffix-Stops :
      (p : Parser) (loc : SourceLocation) (x : TypeExpr) (r : Token) (rest : List Token)
      → Reads p (r ∷ rest)
      → Stops r
      → type_suffix fuel self loc (of_type x) p ≡ returns (of_type x) p
  unfolding type_suffix parser_match parser_check parser_current read stepped pure ◌>>=◌ token_at
      last_token
  suffix-Stops p loc x r rest h s = simp (token_now p _ _ h, s.question, s.bang)

  pub suffix-optional :
      (p : Parser) (loc : SourceLocation) (x : TypeExpr) (w : Word) (r : Token) (rest : List Token)
      → Reads p (spell tok_question w ∷ r ∷ rest)
      → type_suffix fuel self loc (of_type x) p
        ≡ returns (of_type (type_expr r.loc (type_optional x))) (moved p 1)
  unfolding type_suffix parser_match parser_check parser_current read stepped step pure ◌>>=◌
      token_at last_token kind_index
  suffix-optional p loc x w r rest h =
      let e0 = token_now p _ _ h in let e1 = token_at-Reads p _ 1 _ h refl in simp (e0, e1)

  pub suffix-fallible :
      (p q : Parser) (loc : SourceLocation) (x y : TypeExpr) (w : Word) (ts : List Token)
      → Reads p (spell tok_bang w ∷ ts)
      → self.parse_type (moved p 1) ≡ returns (of_type y) q
      → type_suffix fuel self loc (of_type x) p
        ≡ returns (of_type (type_expr loc (type_error_union x (of_type y)))) q
  unfolding type_suffix parser_match parser_check parser_current read stepped step pure ◌>>=◌
      token_at last_token kind_index
  suffix-fallible p q loc x y w ts h e = let e0 = token_now p _ _ h in simp (e0, e)

  -- From the type and from what follows it.
  pub whole_type :
      (p q q' : Parser) (t : Token) (ts : List Token) (x : TypeExpr) (y : TypeOpt)
      → Reads p (t ∷ ts)
      → primary_type fuel self t p ≡ returns (of_type x) q
      → type_suffix fuel self t.loc (of_type x) q ≡ returns y q'
      → parser_parse_type fuel self p ≡ returns y q'
  unfolding parser_parse_type parser_current read ◌>>=◌
  whole_type p q q' t ts x y h e f = rw (token_now p _ _ h, e) f

  pub unary-print :
      (build : TypeOpt → Bool → SourceLocation → TypeExpr) (c : Option Word) (p q : Parser)
      (loc : SourceLocation) (t : Token) (ts : List Token) (y : TypeExpr)
      → Reads p (with_const c (t ∷ ts))
      → is_kind tok_const t ≡ false
      → self.parse_type (moved p (const_size c)) ≡ returns (of_type y) q
      → unary_type fuel self build loc p ≡ returns (of_type (build (of_type y) (is_const c) loc)) q
  unfolding unary_type parser_match parser_check parser_current read stepped step pure ◌>>=◌
      token_at last_token kind_index
  unary-print build (some w) p q loc t ts y h k e = let e0 = token_now p _ _ h in simp (e0, e)
  unary-print build none p q loc t ts y h k e =
      let e0 = token_now p _ _ h in
      let e1 = ap self.parse_type (sym (moved_none p)) ∙ e in simp (e0, k, e1)

  pub reference-unary :
      (p : Parser) (w : Word) (ts : List Token)
      → Reads p (spell tok_ampersand w ∷ ts)
      → primary_type fuel self (spell tok_ampersand w) p
        ≡ unary_type fuel self type_new_reference w.loc (moved p 1)
  unfolding primary_type parser_match parser_check parser_current read stepped step pure ◌>>=◌
      token_at last_token kind_index
  reference-unary p w ts h = let e0 = token_now p _ _ h in simp (e0)

  pub pointer-unary :
      (p : Parser) (w : Word) (ts : List Token)
      → Reads p (spell tok_star w ∷ ts)
      → primary_type fuel self (spell tok_star w) p
        ≡ unary_type fuel self type_new_pointer w.loc (moved p 1)
  unfolding primary_type parser_match parser_check parser_current read stepped step pure ◌>>=◌
      token_at last_token kind_index
  pointer-unary p w ts h = let e0 = token_now p _ _ h in simp (e0)

  pub slice-unary :
      (p : Parser) (w w' : Word) (ts : List Token)
      → Reads p (spell tok_lbracket w ∷ spell tok_rbracket w' ∷ ts)
      → primary_type fuel self (spell tok_lbracket w) p
        ≡ unary_type fuel self type_new_slice w.loc (moved (moved p 1) 1)
  unfolding primary_type compound_type bracket_type parser_match parser_check parser_current read
      stepped step pure ◌>>=◌ token_at last_token kind_index
  slice-unary p w w' ts h =
      let e0 = token_now p _ _ h in
      let e1 = token_now (moved p 1) _ _ (Reads-moved p _ _ h) in simp (e0, e1)
