-- ===== src/Parser/Climb/Groups.antt =====
-- How two operators between three names are grouped.
use rayac.Base.{
  ℕ, suc, ◌+◌, true, false, some, List, ◌∷◌, ◌≡◌, ltb, inl, inr, arith, Bool-cases, if◌then◌else◌,
}
use rayac.Ast.Syntax.{AstNode, at}
use rayac.Ast.Exprs.{ast_new_binary}
use rayac.Lexer.Token.{Token, tok_identifier}
use rayac.Parser.Ahead.{Reads, Reads-moved, moved}
use rayac.Parser.Exprs.{infix_binding_power}
use rayac.Parser.Pratt.{operators_after, parser_parse_expr_bp}
use rayac.Parser.State.{Parser, returns, ◌>>=◌, pure, loop}
use rayac.Parser.Unit.{calls}
use rayac.Parser.Climb.{
  EndsExpr, name_node, behind, renumbered, prefix-name, postfix-none, infix_round-accepts,
  infix_round-Halts, cast_after-none, name_alone, EndsExpr-Halts, operator-EndsName, operator-Halts,
  two_names, Reads-behind, Reads-renumbered,
}

never_below : (l : ℕ) → ltb l 0 ≡ false
never_below l = ground arith

-- `(a o b) o' c` and `a o (b o' c)`, whose nodes are numbered from `id` on.
abbrev pub grouped_left : ℕ → Token → Token → Token → Token → Token → AstNode
grouped_left id a o b o' c =
    ast_new_binary o'.kind
      (at (
        ast_new_binary o.kind (at (name_node id a)) (at (name_node (id + 1) b)) a.loc (id + 1 + 1)))
      (at (name_node (id + 1 + 1 + 1) c)) a.loc (id + 1 + 1 + 1 + 1)

abbrev pub grouped_right : ℕ → Token → Token → Token → Token → Token → AstNode
grouped_right id a o b o' c =
    ast_new_binary o.kind (at (name_node id a))
      (at (
        ast_new_binary o'.kind (at (name_node (id + 1) b)) (at (name_node (id + 1 + 1) c)) b.loc
          (id + 1 + 1 + 1)))
      a.loc (id + 1 + 1 + 1 + 1)

module _ (k l r l' r' : ℕ) (p : Parser) (a o b o' c u : Token) (rest : List Token)
    (h : Reads p (a ∷ o ∷ b ∷ o' ∷ c ∷ u ∷ rest)) (ka : a.kind ≡ tok_identifier)
    (kb : b.kind ≡ tok_identifier) (kc : c.kind ≡ tok_identifier)
    (e : infix_binding_power o.kind ≡ some (l, r))
    (e' : infix_binding_power o'.kind ≡ some (l', r')) (s : EndsExpr u) where
  abbrev n : ℕ
  n = suc (suc (suc k))

  climb_left :
      ltb l' r ≡ true
      → (q : Parser) × ((calls (suc n)).parse_expr_bp 0 p
          ≡ returns (at (grouped_left p.next_id a o b o' c)) q)
  unfolding calls parser_parse_expr_bp operators_after loop ◌>>=◌ pure
  climb_left w =
      let h1 = Reads-behind p a _ h in
      let p2 = moved (behind p) 1 in
      let h2 = Reads-moved (behind p) o _ h1 in
      let h3 = Reads-behind p2 b _ h2 in
      let p3 = renumbered (behind p2) (p.next_id + 1 + 1 + 1) in
      let h4 = Reads-renumbered (behind p2) (p.next_id + 1 + 1 + 1) _ h3 in
      let p4 = moved p3 1 in
      let h5 = Reads-moved p3 o' _ h4 in
      let h6 = Reads-behind p4 c _ h5 in
      let p5 = renumbered (behind p4) (p.next_id + 1 + 1 + 1 + 1 + 1) in
      let h7 = Reads-renumbered (behind p4) (p.next_id + 1 + 1 + 1 + 1 + 1) _ h6 in
      let inner =
        name_alone (suc k) r (calls (suc (suc k))) p2 b o' _ h2 kb (operator-EndsName o' l' r' e')
          (operator-Halts (suc (suc k)) r l' r' (calls (suc (suc k))) o' e' w) in
      let last =
        name_alone (suc k) r' (calls (suc (suc k))) p4 c u rest h5 kc s.name
          (EndsExpr-Halts (suc (suc k)) r' (calls (suc (suc k))) u s) in
      (
        p5,
        simp (
          prefix-name n (calls n) p a o _ h ka (operator-EndsName o l r e).brace,
          postfix-none (suc (suc k)) (calls n) (behind p) (name_node p.next_id a) o _ h1
              (operator-EndsName o l r e),
          infix_round-accepts n (calls n) 0 l r (behind p) (behind p2) (name_node p.next_id a)
              (name_node (p.next_id + 1) b) o _ h1 e (never_below l) inner,
          infix_round-accepts n (calls n) 0 l' r' p3 (behind p4) _
              (name_node (p.next_id + 1 + 1 + 1) c) o' _ h4 e' (never_below l') last,
          infix_round-Halts n (calls n) 0 p5 _ u rest h7 (EndsExpr-Halts n 0 (calls n) u s),
          cast_after-none n (calls n) p5 _ u rest h7 s.not_as,
        ),
      )

  climb_right :
      ltb l' r ≡ false
      → (q : Parser) × ((calls (suc n)).parse_expr_bp 0 p
          ≡ returns (at (grouped_right p.next_id a o b o' c)) q)
  unfolding calls parser_parse_expr_bp operators_after loop ◌>>=◌ pure
  climb_right w =
      let h1 = Reads-behind p a _ h in
      let p2 = moved (behind p) 1 in
      let h2 = Reads-moved (behind p) o _ h1 in
      let h3 = Reads-behind p2 b _ h2 in
      let p4 = moved (behind p2) 1 in
      let h4 = Reads-moved (behind p2) o' _ h3 in
      let h5 = Reads-behind p4 c _ h4 in
      let p5 = renumbered (behind p4) (p.next_id + 1 + 1 + 1 + 1) in
      let p6 = renumbered (behind p4) (p.next_id + 1 + 1 + 1 + 1 + 1) in
      let h7 = Reads-renumbered (behind p4) (p.next_id + 1 + 1 + 1 + 1 + 1) _ h5 in
      let last =
        name_alone k r' (calls (suc k)) p4 c u rest h4 kc s.name
          (EndsExpr-Halts (suc k) r' (calls (suc k)) u s) in
      let inner = two_names k r l' r' (calls (suc (suc k))) p2 b o' c u rest h2 kb e' w s last in
      (
        p6,
        simp (
          prefix-name n (calls n) p a o _ h ka (operator-EndsName o l r e).brace,
          postfix-none (suc (suc k)) (calls n) (behind p) (name_node p.next_id a) o _ h1
              (operator-EndsName o l r e),
          infix_round-accepts n (calls n) 0 l r (behind p) p5 (name_node p.next_id a) _ o _ h1 e
              (never_below l) inner,
          infix_round-Halts n (calls n) 0 p6 _ u rest h7 (EndsExpr-Halts n 0 (calls n) u s),
          cast_after-none n (calls n) p6 _ u rest h7 s.not_as,
        ),
      )

  -- Three names with two operators between them, before a token that ends the expression: the parser
  -- returns, for any fuel from four on, and groups to the left if the second operator binds weaker on
  -- its left than the first on its right, and to the right otherwise.
  pub parse_expr_bp_groups :
      (q : Parser) × ((calls (suc n)).parse_expr_bp 0 p
        ≡ returns
            (at (
              if ltb l' r
              then grouped_left p.next_id a o b o' c
              else grouped_right p.next_id a o b o' c))
            q)
  parse_expr_bp_groups = elim (Bool-cases (ltb l' r)) [
    | inl w ↦ rw w (climb_left w)
    | inr w ↦ rw w (climb_right w)
  ]
